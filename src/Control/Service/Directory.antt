-- ===== src/Control/Service/Directory.antt =====
-- control/control_service/service.go: what the service promises about its nodes. A directory is a
-- function from keys to nodes with the next id and the next address; the table, its rows and their
-- texts implement it.
pub mod Refines
use netproject.Shared.{
  ℕ, ◌+◌, ◌≡◌, refl, ap, subst, sym, ◌∙◌, List, [], ◌∷◌, true, false, arith, inl, inr, Bool-cases,
  Outcome-cases, Outcome, ok, err, panic, ◌==◌, nat_eq, if◌then◌else◌,
}
use netproject.Netip.{Addr, Prefix, NetText, next, is_valid}
use netproject.Keys.{PublicKey, IsArray, is_zero, key_eq, key_beq_iff}
use netproject.Control.Database.{
  Node, DbError, answers, runs, node_not_found, get_node, create_node, insert_row,
}
use netproject.Control.Database.Laws.{IsStored, get_node-create_node, get_node-create_node_ne}
use netproject.Control.Service.{
  Service, ServiceError, Env, LoginRequest, LoginResponse, login_node, login_looked_up,
  verify_node_for_relay, node_key_valid_for, node_key_expired, err_invalid_node_key,
  err_node_key_expired, err_not_found, err_database,
}
use netproject.Control.Service.Register.{registered, after_registration, register_node-runs}

pub record Directory : Type 0 where
  pub find : (key : PublicKey) → IsArray key.k → Outcome DbError Node
  pub last_id : ℕ
  pub next_ip : Addr
  pub prefix : Prefix

-- The calls of the service about one key; a login comes with the two times that it reads.
pub data Op : Type 0 where
  logs_in : ℕ → ℕ → (key : PublicKey) → IsArray key.k → Op
  verifies : ℕ → (key : PublicKey) → IsArray key.k → Op

pub data Answer : Type 0 where
  logged : Outcome ServiceError LoginResponse → Answer
  verified : Outcome ServiceError ℕ → Answer

-- The node that a directory gives to a new key.
abbrev pub assigned : ℕ → ℕ → PublicKey → Directory → Node
assigned login_time insert_time key d = record {
  id = d.last_id + 1;
  ip = d.next_ip;
  prefix = d.prefix;
  node_key = key;
  node_key_expiry = login_time + node_key_valid_for;
  created_at = insert_time;
  updated_at = insert_time;
}

abbrev pub assign : ℕ → ℕ → PublicKey → Directory → Directory
assign login_time insert_time key d = record d {
  find = λ k h. if k == key then ok (assigned login_time insert_time key d) else d.find k h;
  last_id = d.last_id + 1;
  next_ip = next d.next_ip;
}

abbrev pub logged_in : ℕ → Outcome ServiceError LoginResponse
logged_in expiry = ok (record { logged_in = true; key_expiry = expiry })

-- A login with a key, on what the directory holds for it.
unfoldable pub login_found :
    Outcome DbError Node → ℕ → ℕ → PublicKey → Directory → Directory × Answer
login_found (ok node) login_time insert_time key d = (d, logged (logged_in node.node_key_expiry))
login_found (err node_not_found) login_time insert_time key d =
    (assign login_time insert_time key d, logged (logged_in (login_time + node_key_valid_for)))
login_found (err _) login_time insert_time key d = (d, logged (err err_database))
login_found panic login_time insert_time key d = (d, logged panic)

unfoldable pub verify_found : Outcome DbError Node → ℕ → Outcome ServiceError ℕ
verify_found (ok node) now =
    if node_key_expired now node.node_key_expiry then err err_node_key_expired else ok node.id
verify_found (err node_not_found) now = err err_not_found
verify_found (err _) now = err err_database
verify_found panic now = panic

-- A call on a directory.
unfoldable pub ask : Op → Directory → Directory × Answer
unfolding login_found verify_found
ask (logs_in login_time insert_time key h) d =
    if is_zero key
    then (d, logged (err err_invalid_node_key))
    else login_found (d.find key h) login_time insert_time key d
ask (verifies now key h) d = (
  d,
  verified (if is_zero key then err err_invalid_node_key else verify_found (d.find key h) now),
)

unfoldable pub ask_all : List Op → Directory → Directory × List Answer
unfolding ask
ask_all [] d = (d, [])
ask_all (op ∷ ops) d =
    let (d', answer) = ask op d in let (d'', rest) = ask_all ops d' in (d'', answer ∷ rest)

-- Before every call there is an address left.
unfoldable pub HasRoom : List Op → Directory → Type 0
HasRoom [] d = Unit
HasRoom (op ∷ ops) d = (is_valid d.next_ip ≡ true) × HasRoom ops (ask op d).0

module _ ⦃text : NetText⦄ where
  -- The directory that a service keeps.
  abbrev pub directory : Service → Directory
  directory s = record {
    find = λ key h. get_node answers key s.db;
    last_id = s.db.last_id;
    next_ip = s.next_ip;
    prefix = s.prefix;
  }

  -- The driver answers and runs every statement.
  abbrev pub at_times : ℕ → ℕ → Env
  at_times login_time insert_time = record {
    lookup = answers;
    insert = runs;
    login_time = login_time;
    insert_time = insert_time;
  }

  unfoldable pub call : Op → Service → Service × Answer
  call (logs_in login_time insert_time key h) s =
      let (s', result) =
        login_node (at_times login_time insert_time) (record { node_key = key }) s in
      (s', logged result)
  call (verifies now key h) s = (s, verified (verify_node_for_relay answers now key s))

  unfoldable pub call_all : List Op → Service → Service × List Answer
  unfolding call
  call_all [] s = (s, [])
  call_all (op ∷ ops) s =
      let (s', answer) = call op s in let (s'', rest) = call_all ops s' in (s'', answer ∷ rest)
