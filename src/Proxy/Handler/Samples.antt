-- ===== src/Proxy/Handler/Samples.antt =====
-- A request to the alias of an endpoint, in capitals and with the port of the wrapper.
use lazywrap.Base.{◌≡◌, refl, inl, inr, codes, eq_bytes, true, false, [], none, some, pos}
use lazywrap.Config.Normalize.{normalize}
use lazywrap.Config.Samples.{machine, sample, sample_result, api_endpoint}
use lazywrap.Proxy.Router.{request_hostname}
use lazywrap.Proxy.Rewrite.{Url}
use lazywrap.Proxy.Handler.{forwards, http_failure, Cause, serve, new_handler}
use lazywrap.Proxy.Handler.Reach.{serve-endpoint}

abbrev users : Url
users = record { path = codes "/users"; raw_path = [] }

serve-endpoint_example :
    serve (new_handler sample_result) (λ _. none) none (codes "API.web.localhost:3000") users
    ≡ forwards (pos 8081) users
unfolding normalize eq_bytes request_hostname
serve-endpoint_example =
    serve-endpoint machine sample sample_result refl (codes "web") (codes "api") api_endpoint
      (_, inl refl, inl refl) refl (codes "api.web.localhost") (λ h. cc) (inr (inl refl))
      (λ _. none) none (codes "API.web.localhost:3000") users refl

-- The service fails to get ready in time.
abbrev late : Cause
late = record { is_canceled = false; is_deadline = false; has_readiness_timeout = true }

serve-late :
    serve (new_handler sample_result) (λ _. some late) none (codes "web.localhost") users
    ≡ http_failure 504
unfolding normalize serve new_handler request_hostname
serve-late = refl
