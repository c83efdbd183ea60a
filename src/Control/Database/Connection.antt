-- ===== src/Control/Database/Connection.antt =====
-- control/database/database.go: the connection, `New`, `Health` and `Close`. What `database/sql`
-- and the driver answer are arguments; a connection is a number.
use netproject.Shared.{
  ℕ, ◌/◌, Bool, Option, none, some, Process, continues, exits, Outcome, ok, err,
}
use netproject.Shared.{ltb, if◌then◌else◌, ◌≡◌, ◌↔◌, ◌≤◌, inl, inr, arith, Option-cases, Bool-cases}

-- What the first call of `New` meets: the connection that `sql.Open` gives, and whether the
-- statements of `createTables` run on it.
pub record Opening : Type 0 where
  pub opened : Option ℕ
  pub creates : Bool

pub data TableError : Type 0 where
  create_tables_failed : TableError

unfoldable pub create_tables : Bool → Outcome TableError (Unit {0})
create_tables runs = if runs then ok tt else err create_tables_failed

-- `New` on `dbInstance`; a connection is kept for the next calls only where its tables are there.
unfoldable pub new_database : Opening → Option ℕ → Option ℕ × Process ℕ
unfolding create_tables
new_database opening (some db) = (some db, continues db)
new_database opening none = elim opening.opened [
  | none ↦ (none, exits)
  | some db ↦ elim (create_tables opening.creates) [
    | ok _ ↦ (some db, continues db)
    | _ ↦ (none, exits)
  ]
]

-- `sql.DBStats` as far as `Health` reads it.
pub record DbStats : Type 0 where
  pub open_connections : ℕ
  pub in_use : ℕ
  pub idle : ℕ
  pub wait_count : ℕ
  pub wait_duration : ℕ
  pub max_idle_closed : ℕ
  pub max_lifetime_closed : ℕ

pub data HealthMessage : Type 0 where
  healthy heavy_load many_waits idle_closed lifetime_closed : HealthMessage

-- What `Health` reports where it returns; its status is then "up".
pub record HealthReport : Type 0 where
  pub message : HealthMessage
  pub stats : DbStats

-- The four tests overwrite each other's message.
unfoldable pub health_message : DbStats → HealthMessage
health_message stats =
    let load = if ltb 40 stats.open_connections then heavy_load else healthy in
    let waits = if ltb 1000 stats.wait_count then many_waits else load in
    let idles =
      if ltb (stats.open_connections / 2) stats.max_idle_closed then idle_closed else waits in
    if ltb (stats.open_connections / 2) stats.max_lifetime_closed then lifetime_closed else idles

-- `Health` on the answer to its ping, the connection's statistics: `log.Fatalf` where it fails.
unfoldable pub health : Option DbStats → Process HealthReport
unfolding health_message
health none = exits
health (some stats) = continues (record { message = health_message stats; stats = stats })

pub data CloseError : Type 0 where
  close_failed : CloseError

-- `Close`: `dbInstance` stays, so that a later `New` gives the closed connection back.
unfoldable pub close_database : Bool → Outcome CloseError (Unit {0})
close_database closes = if closes then ok tt else err close_failed

-- `New` opens one connection: once it has given one, every later call gives the same.
pub new_database_twice :
    (opening opening' : Opening) (db : ℕ)
    → (new_database opening none).1 ≡ continues db
    → new_database opening' (new_database opening none).0 ≡ (some db, continues db)
unfolding new_database
new_database_twice opening opening' db h = elim (Option-cases opening.opened) [
  | inl e ↦ absurd (ground (arith, e, h))
  | inr (d, e) ↦ elim (Bool-cases opening.creates) [
    | inl f ↦ ground (arith, e, f, h)
    | inr f ↦ absurd (ground (arith, e, f, h))
  ]
]

-- `Health` calls the database healthy exactly where none of its four limits is passed.
pub health_healthy :
    (stats : DbStats)
    → (health (some stats) ≡ continues (record { message = healthy; stats = stats })) ↔ (
        (stats.open_connections ≤ 40)
        × (stats.wait_count ≤ 1000)
        × (stats.max_idle_closed ≤ stats.open_connections / 2)
        × (stats.max_lifetime_closed ≤ stats.open_connections / 2))
unfolding health health_message
health_healthy stats = (
  (λ e. (ground (arith, e), ground (arith, e), ground (arith, e), ground (arith, e))),
  (λ h. ground (arith, h)),
)
