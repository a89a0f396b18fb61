-- ===== src/Config/Environment/Quotes.antt =====
-- Quoted values of an environment file are read back.
use mathlib.Core.List.{append-nil, append_assoc, concat-ne-nil}
use lazywrap.Base.{
  ℕ, ◌≡◌, ◌≢◌, refl, ◌∙◌, Bytes, ◌||◌, [], ◌∷◌, ◌++◌, arith, ◌==◌, if◌then◌else◌, All,
}
use lazywrap.Config.Environment.{ok, close_quote, read_quoted, parse_env_value}

-- How a byte is written between double quotes.
pub escape_byte : ℕ → Bytes
escape_byte c =
    if c == b'\n'
    then b'\\' ∷ b'n' ∷ []
    else if c == b'\r'
    then b'\\' ∷ b'r' ∷ []
    else if c == b'\t'
    then b'\\' ∷ b't' ∷ []
    else if c == b'\\' || c == b'"'
    then b'\\' ∷ c ∷ []
    else c ∷ []

pub escape : Bytes → Bytes
escape [] = []
escape (c ∷ v) = escape_byte c ++ escape v

pub quote : Bytes → Bytes
quote v = b'"' ∷ (escape v ++ b'"' ∷ [])

read_quoted-escape_byte :
    (c : ℕ) (out rest : Bytes)
    → rest ≢ []
    → read_quoted b'"' out (escape_byte c ++ rest) ≡ read_quoted b'"' (out ++ c ∷ []) rest
unfolding read_quoted escape_byte
read_quoted-escape_byte c out [] n = absurd (n refl)
read_quoted-escape_byte c out (d ∷ rest) n = ground arith

read_quoted-escape : (v out : Bytes) → read_quoted b'"' out (escape v ++ b'"' ∷ []) ≡ ok (out ++ v)
unfolding escape
read_quoted-escape [] out = rw append-nil (unfold read_quoted close_quote in refl)
read_quoted-escape (c ∷ v) out = rw (append_assoc (escape_byte c) (escape v) (b'"' ∷ [])) (
    read_quoted-escape_byte c out (escape v ++ b'"' ∷ []) (concat-ne-nil b'"' (escape v))
    ∙ read_quoted-escape v (out ++ c ∷ [])
    ∙ rw append_assoc)

-- Every text, whatever bytes it holds, is read back from its double-quoted form.
pub parse_env_value-quote : (v : Bytes) → parse_env_value (quote v) ≡ ok v
unfolding parse_env_value quote
parse_env_value-quote v = read_quoted-escape v []

read_quoted_other :
    (c : ℕ) (out rest : Bytes)
    → c ≢ b'\''
    → rest ≢ []
    → read_quoted b'\'' out (c ∷ rest) ≡ read_quoted b'\'' (out ++ c ∷ []) rest
unfolding read_quoted
read_quoted_other c out [] n m = absurd (m refl)
read_quoted_other c out (d ∷ rest) n m = ground arith

read_quoted_plain :
    (v out : Bytes)
    → All (λ c. c ≢ b'\'') v
    → read_quoted b'\'' out (v ++ b'\'' ∷ []) ≡ ok (out ++ v)
read_quoted_plain [] out h = rw append-nil (unfold read_quoted close_quote in refl)
read_quoted_plain (c ∷ v) out (n, h) =
    read_quoted_other c out (v ++ b'\'' ∷ []) n (concat-ne-nil b'\'' v)
    ∙ read_quoted_plain v (out ++ c ∷ []) h
    ∙ rw append_assoc

-- Single quotes keep every byte but themselves: no escape is read between them.
pub parse_env_value_single :
    (v : Bytes) → All (λ c. c ≢ b'\'') v → parse_env_value (b'\'' ∷ (v ++ b'\'' ∷ [])) ≡ ok v
unfolding parse_env_value
parse_env_value_single v h = read_quoted_plain v [] h
