-- ===== src/Control/Http/Tests.antt =====
-- Requests to a small control server.
use netproject.Shared.{ℕ, ◌≡◌, refl, ap, List, [], true, Option, none, some, arith, replicate}
use netproject.Netip.{NetText}
use netproject.Control.Wire.{Json}
use netproject.Netip.Sample.{sample_text}
use netproject.Keys.Base64.{encode}
use netproject.Control.Database.{answers}
use netproject.Control.Database.Connection.{DbStats}
use netproject.Keys.{marshal_text}
use netproject.Control.Service.{Service}
use netproject.Control.Service.Tests.{key_a, env, empty}
use netproject.Control.Wire.Sample.{sample_json}
use netproject.Control.Http.{
  method_post, login_path, Request, Response, Ambient, responds, aborts, message,
  error_reading_body, handle, cors_middleware, serve_mux, with_cors, login_handler,
}
use netproject.Control.Http.Routes.{refusal_unchanged, login_overflow}

instance abbrev net : NetText
net = sample_text

instance abbrev codec : Json
codec = sample_json

abbrev pub stats : DbStats
stats = record {
  open_connections = 1;
  in_use = 0;
  idle = 1;
  wait_count = 0;
  wait_duration = 0;
  max_idle_closed = 0;
  max_lifetime_closed = 0;
}

abbrev pub ambient : Ambient
ambient = record { env = env; list = answers; now = 200; refuses_upgrade = none; ping = some stats }

abbrev to_login : Option (List ℕ) → Request
to_login body = record {
  method = method_post;
  path = login_path;
  node_key_header = [];
  body = body;
}

abbrev unreadable : Response
unreadable = record { status = 400; cors = true; body = message error_reading_body }

not_read : handle ambient (to_login none) empty ≡ (empty, responds unreadable)
unfolding handle cors_middleware serve_mux with_cors login_handler
not_read = refl

refusal_unchanged_example : (handle ambient (to_login none) empty).0 ≡ empty
refusal_unchanged_example =
    refusal_unchanged ambient (to_login none) empty unreadable (λ e. absurd (ground (arith, e)))
      (ap (λ r. r.1) not_read)
      ((λ e. absurd (ground (arith, e))), (λ e. absurd (ground (arith, e))))

-- A key of 33 bytes.
abbrev long_key : List ℕ
long_key = encode (replicate 33 7)

login_overflow_example : handle ambient (to_login (some long_key)) empty ≡ (empty, aborts)
login_overflow_example =
    login_overflow ambient (to_login (some long_key)) empty long_key (replicate 33 7) refl refl refl
      refl (omega arith) (omega arith)

-- Two logins with one key, of which the second read the database before the first registered.
abbrev login_body : List ℕ
login_body = marshal_text key_a

abbrev first_login : Service
first_login = (handle ambient (to_login (some login_body)) empty).0
