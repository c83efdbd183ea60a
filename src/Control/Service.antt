-- ===== src/Control/Service.antt =====
-- control/control_service: the service between the HTTP handlers and the database. A method takes
-- the state and returns it with its result; what the database driver answers and what the clock
-- shows are arguments. A method that holds the mutex is one step.
pub mod Ipam
pub mod Register
pub mod Login
pub mod Addresses
pub mod Restart
pub mod Notify
pub mod Polling
pub mod Reachable
pub mod Directory
pub mod Tests
use netproject.Shared.{
  ℕ, zero, suc, ◌+◌, ◌*◌, List, [], ◌∷◌, ◌++◌, Bool, true, false, Option, none, some, map,
}
use netproject.Shared.{
  Outcome, ok, err, panic, ◌>>=◌, ◌==◌, nat_eq, if◌then◌else◌, ltb, length, contains, not,
}
use netproject.Shared.Map
use netproject.Shared.Map.{Map}
use netproject.Netip.{Addr, Prefix, NetText, next, addr_eq, no_addr}
use netproject.Keys.{PublicKey, is_zero, key_eq}
use netproject.Control.Database.{
  Node, Table, Exec, Query, DbError, node_not_found, get_node, get_nodes, create_node,
}

-- errors.go, and an error of the database passed on.
pub data ServiceError : Type 0 where
  err_not_found err_invalid_input err_unauthorized : ServiceError
  err_invalid_node_key err_node_key_expired err_database : ServiceError
  from_db : DbError → ServiceError

-- types/models.go; texts of addresses are kept as the addresses that they show.
pub record LoginRequest : Type 0 where
  pub node_key : PublicKey

pub record LoginResponse : Type 0 where
  pub logged_in : Bool
  pub key_expiry : ℕ

pub record UpdateRequest : Type 0 where
  pub node_key : PublicKey
  pub full_update : Bool

pub record NodeConfig : Type 0 where
  pub id : ℕ
  pub ip : List ℕ
  pub prefix : List ℕ

pub record Peer : Type 0 where
  pub id : ℕ
  pub ip : List ℕ
  pub public_key : PublicKey

pub record UpdateResponse : Type 0 where
  pub config : Option NodeConfig
  pub peers : List Peer
  pub peer_count : ℕ

-- A channel is the number of signals that it holds, out of five.
pub record Service : Type 0 where
  pub db : Table
  pub prefix : Prefix
  pub next_ip : Addr
  pub notify_chans : Map ℕ ℕ

-- time.Hour * 24 * 30, in nanoseconds.
abbrev pub node_key_valid_for : ℕ
node_key_valid_for = 30 * 24 * 3600 * 1000000000

abbrev pub chan_capacity : ℕ
chan_capacity = 5

-- The loop of `New`: the first address from `ip` on that is not allocated. `none` means that the
-- fuel ran out.
unfoldable pub first_free : ℕ → List Addr → Addr → Option Addr
first_free zero allocated ip = none
first_free (suc fuel) allocated ip =
    let rest = first_free fuel allocated (next ip) in
    if contains allocated ip then rest else some ip

unfoldable pub node_key_expired : ℕ → ℕ → Bool
node_key_expired now expires = ltb expires now

unfoldable pub notify_all_except_locked : ℕ → Map ℕ ℕ → Map ℕ ℕ
notify_all_except_locked node_id [] = []
notify_all_except_locked node_id ((id, pending) ∷ chans) =
    (
      id,
      if id == node_id then pending else if ltb pending chan_capacity then pending + 1 else pending,
    )
    ∷ notify_all_except_locked node_id chans

-- `getNotifyChan`: a node that polls for the first time gets a channel, and the others a signal.
unfoldable pub get_notify_chan : ℕ → Service → Service
unfolding notify_all_except_locked
get_notify_chan node_id s = elim (Map.get node_id s.notify_chans) [
  | some c ↦ s
  | none ↦ record s {
    notify_chans = notify_all_except_locked node_id (Map.put node_id 0 s.notify_chans);
  }
]

-- What a login or a registration meets: the driver's answers, and the clock, which
-- `registerNode` and `CreateNode` read one after the other.
pub record Env : Type 0 where
  pub lookup : Query
  pub insert : Exec
  pub login_time : ℕ
  pub insert_time : ℕ

-- What `Update` does: it answers at once, or waits for a signal on its node's channel.
pub data Poll : Type 0 where
  answers_with : Outcome ServiceError UpdateResponse → Poll
  waits : ℕ → Poll

module _ ⦃text : NetText⦄ where
  open text use {addr_text, prefix_text}

  -- `New`, with fuel for one round more than there are nodes; `panic` where the database fails.
  unfoldable pub new : Query → Prefix → Table → Option (Outcome ServiceError Service)
  new query prefix db = elim (get_nodes query db) [
    | ok nodes ↦ elim (first_free (length nodes + 1) (map (λ n. n.ip) nodes) (next prefix.addr)) [
      | none ↦ none
      | some ip ↦ some (ok (record { db = db; prefix = prefix; next_ip = ip; notify_chans = [] }))
    ]
    | err e ↦ some panic
    | panic ↦ some panic
  ]

  -- The node that `registerNode` makes.
  abbrev pub new_node : Env → LoginRequest → Service → Node
  new_node env req s = record {
    id = 0;
    ip = s.next_ip;
    prefix = s.prefix;
    node_key = req.node_key;
    node_key_expiry = env.login_time + node_key_valid_for;
    created_at = 0;
    updated_at = 0;
  }

  unfoldable pub register_node :
      Env → LoginRequest → Service → Service × Outcome ServiceError LoginResponse
  register_node env req s =
      let (db, result) = create_node env.insert env.insert_time (new_node env req s) s.db in
      elim result [
        | ok _ ↦ (
          record s { db = db; next_ip = next s.next_ip },
          ok (record { logged_in = true; key_expiry = env.login_time + node_key_valid_for }),
        )
        | err e ↦ (record s { db = db }, err (from_db e))
        | panic ↦ (record s { db = db }, panic)
      ]

  -- `LoginNode` on what `GetNode` gave.
  unfoldable pub login_looked_up :
      Outcome DbError Node
      → Env
      → LoginRequest
      → Service
      → Service × Outcome ServiceError LoginResponse
  login_looked_up (ok node) env req s =
      (s, ok (record { logged_in = true; key_expiry = node.node_key_expiry }))
  login_looked_up (err node_not_found) env req s = register_node env req s
  login_looked_up (err _) env req s = (s, err err_database)
  login_looked_up panic env req s = (s, panic)

  unfoldable pub login_node :
      Env → LoginRequest → Service → Service × Outcome ServiceError LoginResponse
  unfolding login_looked_up
  login_node env req s =
      if is_zero req.node_key
      then (s, err err_invalid_node_key)
      else login_looked_up (get_node env.lookup req.node_key s.db) env req s

  -- `LogoutNode` only logs.
  unfoldable pub logout_node : PublicKey → Service → Service × Outcome ServiceError (Unit {0})
  logout_node key s = (s, ok tt)

  unfoldable pub verify_node_for_relay : Query → ℕ → PublicKey → Service → Outcome ServiceError ℕ
  verify_node_for_relay query now key s =
      if is_zero key then err err_invalid_node_key else elim (get_node query key s.db) [
        | ok node ↦
            if node_key_expired now node.node_key_expiry
            then err err_node_key_expired
            else ok node.id
        | err node_not_found ↦ err err_not_found
        | err _ ↦ err err_database
        | panic ↦ panic
      ]

  -- The loop of `getPeersOfNode`.
  unfoldable pub peers_except : ℕ → List Node → List Peer
  peers_except node_id [] = []
  peers_except node_id (n ∷ nodes) =
      if n.id == node_id
      then peers_except node_id nodes
      else record { id = n.id; ip = addr_text n.ip; public_key = n.node_key }
        ∷ peers_except node_id nodes

  unfoldable pub get_peers_of_node : Query → ℕ → Table → Outcome ServiceError (List Peer)
  get_peers_of_node query node_id db = elim (get_nodes query db) [
    | ok nodes ↦ ok (peers_except node_id nodes)
    | err e ↦ err (from_db e)
    | panic ↦ panic
  ]

  -- How `Update` goes on after its checks: it answers, or waits on the node's channel.
  unfoldable pub update_checked : Query → Node → UpdateRequest → Service → Service × Poll
  update_checked list node req s =
      if req.full_update
      then (
        s,
        answers_with (
            get_peers_of_node list node.id s.db >>= λ peers. ok (record {
              config = some (record {
                id = node.id;
                ip = addr_text node.ip;
                prefix = prefix_text node.prefix;
              });
              peers = peers;
              peer_count = length peers;
            })),
      )
      else (get_notify_chan node.id s, waits node.id)

  -- `Update` on what `GetNode` gave; its error is returned as it is.
  unfoldable pub update_looked_up :
      Outcome DbError Node → Query → ℕ → UpdateRequest → Service → Service × Poll
  update_looked_up (ok node) list now req s =
      if not (req.node_key == node.node_key)
      then (s, answers_with (err err_invalid_node_key))
      else if node_key_expired now node.node_key_expiry
      then (s, answers_with (err err_node_key_expired))
      else update_checked list node req s
  update_looked_up (err e) list now req s = (s, answers_with (err (from_db e)))
  update_looked_up panic list now req s = (s, answers_with panic)

  -- `Update` up to its `select`.
  unfoldable pub update : Query → Query → ℕ → UpdateRequest → Service → Service × Poll
  unfolding update_looked_up
  update lookup list now req s =
      if is_zero req.node_key
      then (s, answers_with (err err_invalid_node_key))
      else update_looked_up (get_node lookup req.node_key s.db) list now req s

  -- The `select` receives a signal, which it can where the channel holds one.
  unfoldable pub update_signalled :
      Query → ℕ → Service → Option (Service × Outcome ServiceError UpdateResponse)
  update_signalled list node_id s = elim (Map.get node_id s.notify_chans) [
    | some (suc pending) ↦ some (
      record s { notify_chans = Map.put node_id pending s.notify_chans },
      get_peers_of_node list node_id s.db >>= λ peers.
          ok (record { config = none; peers = peers; peer_count = length peers }),
    )
    | _ ↦ none
  ]

-- The `select` after ten seconds.
unfoldable pub update_timed_out : Service → Service × Outcome ServiceError UpdateResponse
update_timed_out s = (s, ok (record { config = none; peers = []; peer_count = 0 }))

-- `notifyAllExcept` takes the mutex and calls itself. The fuel counts the calls.
pub data Progress : Type 0 where
  returns : Map ℕ ℕ → Progress
  blocked out_of_fuel : Progress

unfoldable pub notify_all_except : ℕ → Bool → ℕ → Map ℕ ℕ → Progress
notify_all_except zero mutex_held node_id chans = out_of_fuel
notify_all_except (suc fuel) true node_id chans = blocked
notify_all_except (suc fuel) false node_id chans = notify_all_except fuel true node_id chans
