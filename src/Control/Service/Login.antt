-- ===== src/Control/Service/Login.antt =====
-- control/control_service/service.go: `LoginNode`, and the relay's check of a node.
use netproject.Shared.{
  ℕ, ◌+◌, ◌≡◌, ◌≢◌, ◌<◌, refl, List, [], ◌∷◌, ◌++◌, Bool, true, false, arith, inl, inr,
}
use netproject.Shared.{nat_eq, ltb, if◌then◌else◌, Outcome, ok, err, panic, Bool-cases}
use netproject.Netip.{NetText}
use netproject.Keys.{is_zero, key_eq, key_beq_iff, encode_to_string}
use netproject.Control.Database.{
  Node, Row, Query, runs, no_result, answers, DbError, node_not_found, get_node, get_nodes,
  create_node, insert_row, row_of,
}
use netproject.Control.Database.Laws.{IsStored, get_node-create_node, get_nodes-create_node}
use netproject.Control.Service.{
  Service, ServiceError, Env, LoginRequest, answers_with, login_node, login_looked_up,
  register_node, verify_node_for_relay, update, node_key_expired, node_key_valid_for,
  err_node_key_expired,
}
use netproject.Control.Service.Register.{
  runs_or_refuses, register_node-runs, register_node-refuses, after_registration, registered,
}

module _ ⦃text : NetText⦄ (env : Env) (req : LoginRequest) (s : Service) where
  -- A first login: the key is a key, the database does not hold it, and the insert runs.
  pub record IsFirstLogin : Type 0 where
    pub nonzero : is_zero req.node_key ≡ false
    pub lookup_answers : env.lookup ≡ answers
    pub missing : get_node answers req.node_key s.db ≡ err node_not_found
    pub insert_runs : env.insert ≡ runs
    pub stored : IsStored (registered env req s)

  pub first_login :
      IsFirstLogin
      → login_node env req s ≡ (
        after_registration env req s,
        ok (record { logged_in = true; key_expiry = env.login_time + node_key_valid_for }),
      )
  unfolding login_node
  first_login h =
      ground
        (arith, h.nonzero, h.lookup_answers, h.missing, register_node-runs env req s h.insert_runs)

  pub get_node-first_login :
      IsFirstLogin
      → get_node answers req.node_key (after_registration env req s).db ≡ ok (registered env req s)
  unfolding create_node
  get_node-first_login h =
      get_node-create_node (registered env req s) env.insert_time s.db h.stored h.missing

  -- After a first login the list of nodes ends with the new one.
  pub get_nodes-first_login :
      (nodes : List Node)
      → IsFirstLogin
      → get_nodes answers s.db ≡ ok nodes
      → get_nodes answers (after_registration env req s).db
        ≡ ok (nodes ++ (registered env req s ∷ []))
  unfolding create_node
  get_nodes-first_login nodes h g =
      get_nodes-create_node (registered env req s) env.insert_time s.db nodes h.stored g

  -- After a first login the relay admits the node under its new id up to the expiry that the login
  -- announced, and refuses it afterwards.
  pub verify-login :
      (now : ℕ)
      → IsFirstLogin
      → verify_node_for_relay answers now req.node_key (login_node env req s).0 ≡ (
          if ltb (env.login_time + node_key_valid_for) now
          then err err_node_key_expired
          else ok (s.db.last_id + 1))
  unfolding verify_node_for_relay node_key_expired
  verify-login now h = rw (first_login h) (ground (arith, h.nonzero, get_node-first_login h))

  login_again :
      (env' : Env)
      → IsFirstLogin
      → env'.lookup ≡ answers
      → login_node env' req (after_registration env req s) ≡ (
        after_registration env req s,
        ok (record { logged_in = true; key_expiry = env.login_time + node_key_valid_for }),
      )
  unfolding login_node
  login_again env' h a = ground (arith, h.nonzero, a, get_node-first_login h)

  -- A second login with the same key changes nothing and announces the same expiry, whatever its
  -- clock and the driver's answer to an insert.
  pub login_twice :
      (env' : Env)
      → IsFirstLogin
      → env'.lookup ≡ answers
      → login_node env' req (login_node env req s).0 ≡ login_node env req s
  login_twice env' h a = rw (first_login h) (login_again env' h a)

  register_error_unchanged :
      (e : ServiceError)
      → env.insert ≢ no_result
      → (register_node env req s).1 ≡ err e
      → (register_node env req s).0 ≡ s
  register_error_unchanged error ne h = elim (runs_or_refuses env.insert ne) [
    | inl e ↦ absurd (ground (arith, h, register_node-runs env req s e))
    | inr e ↦ rw (register_node-refuses env req s e)
  ]

  looked_up_error_unchanged :
      (r : Outcome DbError Node) (e : ServiceError)
      → env.insert ≢ no_result
      → (login_looked_up r env req s).1 ≡ err e
      → (login_looked_up r env req s).0 ≡ s
  unfolding login_looked_up
  looked_up_error_unchanged (ok node) e ne h = refl
  looked_up_error_unchanged (err node_not_found) e ne h = register_error_unchanged e ne h
  looked_up_error_unchanged (err _) e ne h = refl
  looked_up_error_unchanged panic e ne h = refl

  -- A login that fails leaves the service as it was, unless the row was written and the driver
  -- has no id for it.
  pub login_error_unchanged :
      (e : ServiceError)
      → env.insert ≢ no_result
      → (login_node env req s).1 ≡ err e
      → (login_node env req s).0 ≡ s
  unfolding login_node
  login_error_unchanged e ne h = elim (Bool-cases (is_zero req.node_key)) [
    | inl z ↦ rw z
    | inr nz ↦
        rw nz (looked_up_error_unchanged (get_node env.lookup req.node_key s.db) e ne (rw nz at h))
  ]

-- A node whose key has expired can still log in, which changes nothing and shows the old expiry,
-- while both `Update` and the relay turn it away.
pub expired_key_is_stuck :
    ⦃text : NetText⦄
    → (env : Env) (req : LoginRequest) (s : Service) (node : Node) (list : Query) (now : ℕ)
      (full : Bool)
    → is_zero req.node_key ≡ false
    → env.lookup ≡ answers
    → get_node answers req.node_key s.db ≡ ok node
    → node.node_key ≡ req.node_key
    → node.node_key_expiry < now
    → (login_node env req s
        ≡ (s, ok (record { logged_in = true; key_expiry = node.node_key_expiry })))
      × (update answers list now (record { node_key = req.node_key; full_update = full }) s
          ≡ (s, answers_with (err err_node_key_expired)))
      × (verify_node_for_relay answers now req.node_key s ≡ err err_node_key_expired)
unfolding login_node update verify_node_for_relay node_key_expired
expired_key_is_stuck env req s node list now full z a g k x = (
  ground (arith, z, a, g),
  ground (arith, z, g, key_beq_iff req.node_key node.node_key),
  ground (arith, z, g),
)

-- Where two logins with one new key both read the database before either registers, both register:
-- there are two rows with the key, under two ids.
pub login_race :
    ⦃text : NetText⦄
    → (env env' : Env) (req : LoginRequest) (s : Service) → env.insert ≡ runs
    → env'.insert ≡ runs
    → let lookup = get_node answers req.node_key s.db in
      lookup ≡ err node_not_found
      → let s' = (login_looked_up lookup env req s).0 in
        (a b : Row) × ((login_looked_up lookup env' req s').0.db.rows
          ≡ (s.db.rows ++ (a ∷ [])) ++ (b ∷ []))
        × (a.public_key ≡ encode_to_string req.node_key)
        × (b.public_key ≡ encode_to_string req.node_key)
        × (b.id ≡ a.id + 1)
unfolding login_looked_up insert_row row_of
login_race env env' req s i i' missing = rw missing (
  row_of (registered env req s),
  row_of (registered env' req (after_registration env req s)),
  ground (
    arith,
    register_node-runs env req s i,
    register_node-runs env' req (after_registration env req s) i',
  ),
  refl,
  refl,
  refl,
)
