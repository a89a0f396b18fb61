-- ===== src/Config/Tests.antt =====
-- The theorems of this part at concrete inputs.
use lazywrap.Base.{◌≡◌, ◌≢◌, Bytes, codes, [], ◌∷◌}
use lazywrap.Config.Environment.{Env, ok, err, fuel_spent, interpolate_env, parse_env_value}
use lazywrap.Config.Environment.Interpolate.{interpolate_env_total}
use lazywrap.Config.Environment.Quotes.{quote, parse_env_value-quote}

abbrev home : Env
home = (codes "HOME", codes "/root") ∷ []

interpolate_env_total_example : interpolate_env (codes "{{HOME}}/{{DIR:src}}") home ≢ err fuel_spent
interpolate_env_total_example = interpolate_env_total home (codes "{{HOME}}/{{DIR:src}}")

parse_env_value-quote_example :
    parse_env_value (quote (codes "a \"b\" # c")) ≡ ok (codes "a \"b\" # c")
parse_env_value-quote_example = parse_env_value-quote (codes "a \"b\" # c")

abbrev plain : Bytes
plain = codes "a\\n"
