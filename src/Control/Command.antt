-- ===== src/Control/Command.antt =====
-- cmd/control/main.go and control/server/server.go: how the control server starts and ends. The
-- environment, the signal and what `net/http` gives are arguments.
use netproject.Shared.{
  ℕ, ◌≡◌, refl, List, [], ◌∷◌, ◌++◌, Bool, Option, none, some, arith, inl, inr, ◌⊎◌, Option-cases,
}
use netproject.Shared.{Outcome, ok, continues, exits, Outcome-cases, Process-cases}
use netproject.Netip.{NetText}
use netproject.Control.Database.{Query, Table}
use netproject.Control.Database.Connection.{Opening, CloseError, new_database, close_database}
use netproject.Control.Service.{Service, new}

-- `http.Server` as `NewServer` fills it, the times in seconds; its handler is `handle` of Http.
pub record HttpServer : Type 0 where
  pub port : ℕ
  pub idle_timeout : ℕ
  pub read_timeout : ℕ
  pub write_timeout : ℕ

unfoldable pub new_server : ℕ → HttpServer
new_server port = record { port = port; idle_timeout = 60; read_timeout = 120; write_timeout = 120 }

-- How `ListenAndServe` ends: it fails, or a signal made `gracefulShutdown` call `Shutdown`, which
-- the requests in progress may outlast.
pub data Listened : Type 0 where
  listen_failed : Listened
  server_closed : Bool → Listened

-- What `main` meets; `prefix` is the variable PREFIX.
pub record World : Type 0 where
  pub port : Option ℕ
  pub prefix : List ℕ
  pub opening : Opening
  pub table : Table
  pub query : Query
  pub listened : Listened
  pub closes : Bool

pub data Event : Type 0 where
  opened : ℕ → Event
  listens : HttpServer → Service → Event
  shut_down : Bool → Event
  closed_database : Outcome CloseError (Unit {0}) → Event

pub data End : Type 0 where
  returned fatal crashed out_of_fuel : End

-- `gracefulShutdown` after its signal: its errors are only logged.
unfoldable pub graceful_shutdown : Bool → Bool → List Event
unfolding close_database
graceful_shutdown in_time closes = shut_down in_time ∷ closed_database (close_database closes) ∷ []

unfoldable pub after_listening : World → List Event × End
unfolding graceful_shutdown
after_listening w = elim w.listened [
  | listen_failed ↦ ([], fatal)
  | server_closed in_time ↦ (graceful_shutdown in_time w.closes, returned)
]

Listened-cases :
    (l : Listened) → (l ≡ listen_failed) ⊎ ((in_time : Bool) × (l ≡ server_closed in_time))
Listened-cases listen_failed = inl refl
Listened-cases (server_closed in_time) = inr (in_time, refl)

abbrev before : List Event → List Event × End → List Event × End
before events rest = (events ++ rest.0, rest.1)

module _ ⦃text : NetText⦄ where
  -- `main` with a port and a database; `New` panics where PREFIX is not a prefix.
  unfoldable pub main_opened : World → ℕ → ℕ → List Event × End
  unfolding after_listening new_server
  main_opened w port db = elim (text.parse_prefix w.prefix) [
    | none ↦ (opened db ∷ [], crashed)
    | some prefix ↦ elim (new w.query prefix w.table) [
      | none ↦ (opened db ∷ [], out_of_fuel)
      | some (ok service) ↦
          before (opened db ∷ listens (new_server port) service ∷ []) (after_listening w)
      | some _ ↦ (opened db ∷ [], crashed)
    ]
  ]

  unfoldable pub main : World → List Event × End
  unfolding main_opened
  main w = elim w.port [
    | none ↦ ([], fatal)
    | some port ↦ elim (new_database w.opening none).1 [
      | exits ↦ ([], fatal)
      | continues db ↦ main_opened w port db
    ]
  ]

  -- The events of a run of `main` that returns.
  abbrev whole_run : World → ℕ → ℕ → Service → Bool → List Event
  whole_run w db port service in_time =
      opened db
      ∷ listens (new_server port) service
      ∷ shut_down in_time
      ∷ closed_database (close_database w.closes)
      ∷ []

  main_opened_returned :
      (w : World) (port db : ℕ)
      → (main_opened w port db).1 ≡ returned
      → (service : Service) × (in_time : Bool) × ((main_opened w port db).0
          ≡ whole_run w db port service in_time)
  unfolding main_opened after_listening graceful_shutdown
  main_opened_returned w port db e = elim (Option-cases (text.parse_prefix w.prefix)) [
    | inl f ↦ absurd (ground (arith, f, e))
    | inr (prefix, f) ↦ elim (Option-cases (new w.query prefix w.table)) [
      | inl g ↦ absurd (ground (arith, f, g, e))
      | inr (answer, g) ↦ elim (Outcome-cases answer) [
        | inl (service, h) ↦ elim (Listened-cases w.listened) [
          | inl l ↦ absurd (ground (arith, f, g, h, l, e))
          | inr (in_time, l) ↦ (service, in_time, ground (arith, f, g, h, l))
        ]
        | inr (inl (_, h)) ↦ absurd (ground (arith, f, g, h, e))
        | inr (inr h) ↦ absurd (ground (arith, f, g, h, e))
      ]
    ]
  ]

  -- Where `main` returns, it opened the database, listened with a service, shut the server down and
  -- then closed the database, in this order.
  pub main_returned :
      (w : World)
      → (main w).1 ≡ returned
      → (db : ℕ) × (port : ℕ) × (service : Service) × (in_time : Bool) × ((main w).0
          ≡ whole_run w db port service in_time)
  unfolding main
  main_returned w e = elim (Option-cases w.port) [
    | inl f ↦ absurd (ground (arith, f, e))
    | inr (port, f) ↦ elim (Process-cases (new_database w.opening none).1) [
      | inl (db, g) ↦
          let (service, in_time, run) = main_opened_returned w port db (ground (arith, f, g, e)) in
          (db, port, service, in_time, ground (arith, f, g, run))
      | inr g ↦ absurd (ground (arith, f, g, e))
    ]
  ]
