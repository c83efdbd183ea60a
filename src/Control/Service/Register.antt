-- ===== src/Control/Service/Register.antt =====
-- control/control_service/service.go, `registerNode` on each answer of the driver.
use netproject.Shared.{◌+◌, ◌≡◌, ◌≢◌, ◌⊎◌, inl, inr, refl, true, arith, ok, err}
use netproject.Netip.{next, NetText}
use netproject.Control.Database.{
  Node, Exec, runs, refuses, no_result, create_node, insert_row, row_of, create_failed,
}
use netproject.Control.Service.{
  Service, Env, LoginRequest, register_node, node_key_valid_for, from_db,
}

Exec-cases : (e : Exec) → (e ≡ runs) ⊎ ((e ≡ refuses) ⊎ (e ≡ no_result))
Exec-cases runs = inl refl
Exec-cases refuses = inr (inl refl)
Exec-cases no_result = inr (inr refl)

pub runs_or_refuses : (e : Exec) → e ≢ no_result → (e ≡ runs) ⊎ (e ≡ refuses)
runs_or_refuses runs h = inl refl
runs_or_refuses refuses h = inr refl
runs_or_refuses no_result h = absurd (h refl)

module _ ⦃text : NetText⦄ (env : Env) (req : LoginRequest) (s : Service) where
  -- The node that `registerNode` hands to `CreateNode`, as it is stored.
  abbrev pub registered : Node
  registered = record {
    id = s.db.last_id + 1;
    ip = s.next_ip;
    prefix = s.prefix;
    node_key = req.node_key;
    node_key_expiry = env.login_time + node_key_valid_for;
    created_at = env.insert_time;
    updated_at = env.insert_time;
  }

  abbrev pub after_registration : Service
  after_registration = record s {
    db = insert_row (row_of registered) s.db;
    next_ip = next s.next_ip;
  }

  pub register_node-runs :
      env.insert ≡ runs
      → register_node env req s ≡ (
        after_registration,
        ok (record { logged_in = true; key_expiry = env.login_time + node_key_valid_for }),
      )
  unfolding register_node create_node insert_row row_of
  register_node-runs e = ground arith

  -- Where the driver refuses, nothing changes: the address is kept for the next node.
  pub register_node-refuses :
      env.insert ≡ refuses → register_node env req s ≡ (s, err (from_db create_failed))
  unfolding register_node create_node
  register_node-refuses e = ground arith
