-- ===== src/Control/Http/Requests.antt =====
-- control/server/routes.go: what requests over HTTP can do to the service, in every order.
use netproject.Shared.{ℕ, ◌≡◌, List, some, false, Outcome, ok, ◌⊎◌}
use netproject.Netip.{NetText}
use netproject.Keys.{is_zero}
use netproject.Control.Database.{Node, Query, DbError}
use netproject.Control.Service.{
  Service, Env, LoginRequest, UpdateRequest, login_looked_up, update_looked_up,
}
use netproject.Control.Service.Reachable
use netproject.Control.Service.Reachable.{Step}
use netproject.Control.Wire.{Json, unmarshal_login, unmarshal_update}
use netproject.Control.Http.{Ambient, Request, Served, handle, handle_signalled, handle_timed_out}

module _ ⦃text : NetText⦄ ⦃json : Json⦄ where
  -- A request is handled, up to its wait if it waits; or one that waits goes on.
  pub data HttpStep (s : Service) : Service → Type 0 where
    handles : (w : Ambient) (r : Request) → HttpStep s (handle w r s).0
    -- A login or an update whose read of the database, `found`, is older than the state that it
    -- changes.
    logs_in_late :
        (found : Outcome DbError Node) (env : Env) (body : List ℕ) (req : LoginRequest)
        → unmarshal_login body ≡ ok req
        → is_zero req.node_key ≡ false
        → HttpStep s (login_looked_up found env req s).0
    polls_late :
        (found : Outcome DbError Node) (list : Query) (now : ℕ) (body : List ℕ)
        (req : UpdateRequest)
        → unmarshal_update body ≡ ok req
        → is_zero req.node_key ≡ false
        → HttpStep s (update_looked_up found list now req s).0
    wakes_up :
        (list : Query) (id : ℕ) (s' : Service) (served : Served)
        → handle_signalled list id s ≡ some (s', served)
        → HttpStep s s'
    gives_up : HttpStep s (handle_timed_out s).0

  pub data HttpReach (s : Service) : Service → Type 0 where
    start : HttpReach s s
    after : {t u : Service} → HttpReach s t → HttpStep t u → HttpReach s u

  -- A state that is the old one, or one step from it.
  abbrev Near : Service → Service → Type 0
  Near s t = (t ≡ s) ⊎ ((u : Service) × Step s u × (t ≡ u))
