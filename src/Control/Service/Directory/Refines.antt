-- ===== src/Control/Service/Directory/Refines.antt =====
-- control/control_service/service.go: the service refines its directory.
use netproject.Shared.{
  ℕ, ◌+◌, ◌≡◌, refl, ap, subst, sym, ◌∙◌, List, [], ◌∷◌, true, arith, inl, inr, Bool-cases, Outcome,
  ok, err, panic, ◌==◌, nat_eq, if◌then◌else◌,
}
use netproject.Netip.{NetText, next, is_valid}
use netproject.Keys.{PublicKey, IsArray, is_zero, key_eq, key_beq_iff}
use netproject.Control.Database.{
  Node, DbError, answers, runs, node_not_found, get_node, create_node, insert_row,
}
use netproject.Control.Database.Laws.{IsStored, get_node-create_node, get_node-create_node_ne}
use netproject.Control.Service.{
  Service, Env, LoginRequest, login_node, login_looked_up, verify_node_for_relay,
  err_invalid_node_key,
}
use netproject.Control.Service.Register.{registered, after_registration, register_node-runs}
use netproject.Control.Service.Directory.{
  Directory, Op, logs_in, verifies, logged, verified, assigned, assign, login_found, verify_found,
  ask, ask_all, HasRoom, directory, at_times, call, call_all,
}

login_found-prefix :
    (r : Outcome DbError Node) (login_time insert_time : ℕ) (key : PublicKey) (d : Directory)
    → (login_found r login_time insert_time key d).0.prefix ≡ d.prefix
unfolding login_found
login_found-prefix (ok node) login_time insert_time key d = refl
login_found-prefix (err node_not_found) login_time insert_time key d = refl
login_found-prefix (err _) login_time insert_time key d = refl
login_found-prefix panic login_time insert_time key d = refl

ask-prefix : (op : Op) (d : Directory) → (ask op d).0.prefix ≡ d.prefix
unfolding ask
ask-prefix (logs_in login_time insert_time key h) d = elim (Bool-cases (is_zero key)) [
  | inl z ↦ rw z refl
  | inr nz ↦ rw nz (login_found-prefix (d.find key h) login_time insert_time key d)
]
ask-prefix (verifies now key h) d = refl

module _ ⦃text : NetText⦄ where
  module _ (login_time insert_time : ℕ) (key : PublicKey) (s : Service) where
    abbrev new_request : LoginRequest
    new_request = record { node_key = key }

    abbrev env : Env
    env = at_times login_time insert_time

    get_node-registered :
        IsStored (registered env new_request s)
        → get_node answers key s.db ≡ err node_not_found
        → (k : PublicKey) → IsArray k.k
        → get_node answers k (after_registration env new_request s).db ≡ (
            if k == key
            then ok (assigned login_time insert_time key (directory s))
            else get_node answers k s.db)
    unfolding create_node
    get_node-registered stored missing k h = elim (Bool-cases (k == key)) [
      | inl e ↦
          rw (e, (key_beq_iff k key).0 e)
            (get_node-create_node (registered env new_request s) insert_time s.db stored missing)
      | inr e ↦ rw e (
          get_node-create_node_ne (registered env new_request s) insert_time s.db runs k stored h
            (λ same. absurd (ground (arith, e, key_beq_iff k key, same))))
    ]

    -- Registering a key is assigning it in the directory.
    directory-register :
        IsStored (registered env new_request s)
        → get_node answers key s.db ≡ err node_not_found
        → directory (after_registration env new_request s)
          ≡ assign login_time insert_time key (directory s)
    unfolding insert_row
    directory-register stored missing = λ i. record {
      find = λ k h. get_node-registered stored missing k h i;
      last_id = s.db.last_id + 1;
      next_ip = next s.next_ip;
      prefix = s.prefix;
    }

    looked_up-found :
        (r : Outcome DbError Node)
        → get_node answers key s.db ≡ r
        → IsStored (registered env new_request s)
        → (directory (login_looked_up r env new_request s).0
            ≡ (login_found r login_time insert_time key (directory s)).0)
          × (logged (login_looked_up r env new_request s).1
              ≡ (login_found r login_time insert_time key (directory s)).1)
    unfolding login_looked_up login_found
    looked_up-found (ok node) e stored = (refl, refl)
    looked_up-found (err node_not_found) e stored =
        rw (register_node-runs env new_request s refl) (directory-register stored e, refl)
    looked_up-found (err _) e stored = (refl, refl)
    looked_up-found panic e stored = (refl, refl)

  verify-found :
      (now : ℕ) (key : PublicKey) (s : Service)
      → verify_node_for_relay answers now key s ≡ (
          if is_zero key
          then err err_invalid_node_key
          else verify_found (get_node answers key s.db) now)
  unfolding verify_node_for_relay verify_found
  verify-found now key s = ground arith

  -- One call on the service is the same call on its directory.
  call_refines :
      (op : Op) (s : Service)
      → is_valid s.next_ip ≡ true
      → is_valid s.prefix.addr ≡ true
      → (directory (call op s).0 ≡ (ask op (directory s)).0)
        × ((call op s).1 ≡ (ask op (directory s)).1)
  unfolding call ask login_node
  call_refines (logs_in login_time insert_time key h) s ip prefix =
      elim (Bool-cases (is_zero key)) [
        | inl z ↦ rw z (refl, refl)
        | inr nz ↦ rw nz (
            looked_up-found login_time insert_time key s (get_node answers key s.db) refl
              (record { ip_valid = ip; prefix_valid = prefix; key_array = h }))
      ]
  call_refines (verifies now key h) s ip prefix = (refl, ap verified (verify-found now key s))

  -- Every run of logins and relay checks on the service gives the answers, and leaves the
  -- directory, that the same run gives on the directory of the service, a function from keys to
  -- nodes, where the driver works, as long as there are addresses left and the prefix is valid.
  pub call_all_refines :
      (ops : List Op) (s : Service)
      → HasRoom ops (directory s)
      → is_valid s.prefix.addr ≡ true
      → (directory (call_all ops s).0 ≡ (ask_all ops (directory s)).0)
        × ((call_all ops s).1 ≡ (ask_all ops (directory s)).1)
  unfolding call_all ask_all HasRoom
  call_all_refines [] s room prefix = (refl, refl)
  call_all_refines (op ∷ ops) s room prefix =
      let (step, answer) = call_refines op s room.0 prefix in
      let kept : is_valid (call op s).0.prefix.addr ≡ true =
        rw (ap (λ d. d.prefix) step, ask-prefix op (directory s)) prefix in
      let (state, rest) =
        call_all_refines ops (call op s).0 (subst (HasRoom ops) (sym step) room.1) kept in
      let rest' = rest ∙ ap (λ d. (ask_all ops d).1) step in
      (state ∙ ap (λ d. (ask_all ops d).0) step, λ i. answer i ∷ rest' i)
