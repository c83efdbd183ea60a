-- ===== src/Control/Service/Restart.antt =====
-- control/control_service/service.go: what `New` makes of a database that already has nodes.
use netproject.Shared.{
  ℕ, zero, suc, ◌+◌, ◌-◌, ◌^◌, ◌≤◌, ◌<◌, ◌≡◌, refl, List, [], ◌∷◌, ◌++◌, true, ◌&&◌, some, arith,
  map,
}
use netproject.Shared.{length-map, contains, nat_eq, leb, ltb, length, ok}
use native.Mathlib.Nat.{add-zero}
use netproject.Netip.{Addr, ip4, addr_eq, next, is_valid, NetText}
use netproject.Control.Database.{
  Node, Row, runs, answers, parse_row, parse_rows, get_nodes, create_node,
}
use netproject.Control.Database.Laws.{IsStored, get_nodes-create_node}
use netproject.Control.Service.{Service, Env, LoginRequest, new, first_free, register_node}
use netproject.Control.Service.Ipam.{next_n, AreValid, IsFirstFree, first_free_lem}
use netproject.Control.Service.Addresses.{Issued, Issued-le, IsInOrder}
use netproject.Control.Service.Register.{register_node-runs, registered}

abbrev pub ips : List Node → List Addr
ips = map (λ n. n.ip)

-- The nodes' addresses from `lo` on, in order.
abbrev InOrder : ℕ → List Node → ℕ → Type 0
InOrder lo [] hi = lo ≡ hi
InOrder lo (n ∷ nodes) hi = (n.ip ≡ ip4 lo) × InOrder (lo + 1) nodes hi

InOrder-le : (lo : ℕ) (nodes : List Node) (hi : ℕ) → InOrder lo nodes hi → lo ≤ hi
InOrder-le lo [] hi h = omega arith
InOrder-le lo (n ∷ nodes) hi h = omega (arith, InOrder-le (lo + 1) nodes hi h.1)

contains-InOrder :
    (lo : ℕ) (nodes : List Node) (hi k : ℕ)
    → InOrder lo nodes hi
    → contains (ips nodes) (ip4 k) ≡ (leb lo k && ltb k hi)
unfolding contains
contains-InOrder lo [] hi k h = ground arith
contains-InOrder lo (n ∷ nodes) hi k h =
    ground (arith, contains-InOrder (lo + 1) nodes hi k h.1, InOrder-le (lo + 1) nodes hi h.1)

InOrder-AreValid :
    (lo : ℕ) (nodes : List Node) (hi : ℕ) → InOrder lo nodes hi → AreValid (ips nodes)
unfolding is_valid
InOrder-AreValid lo [] hi h = tt
InOrder-AreValid lo (n ∷ nodes) hi h = (ground arith, InOrder-AreValid (lo + 1) nodes hi h.1)

next_n-ip4 : (i a : ℕ) → a + i < 2 ^ 32 → next_n i (ip4 a) ≡ ip4 (a + i)
unfolding next_n next
next_n-ip4 zero a h = ground (arith, add-zero a)
next_n-ip4 (suc i) a h = ground (arith, next_n-ip4 i (a + 1), shift)
  where
    shift : a + 1 + i ≡ a + suc i
    shift = omega arith

-- The first free address behind a run of addresses in order is the one after it.
module _ (lo : ℕ) (nodes : List Node) (hi : ℕ) (h : InOrder lo nodes hi) (bound : hi < 2 ^ 32) where
  not_before : (found : Addr) (r : IsFirstFree (ips nodes) (ip4 lo) found) → ¬ (r.steps < hi - lo)
  not_before found r lt =
      ground
        (arith, r.at, r.free, next_n-ip4 r.steps lo, contains-InOrder lo nodes hi (lo + r.steps) h)

  not_after : (found : Addr) (r : IsFirstFree (ips nodes) (ip4 lo) found) → ¬ (hi - lo < r.steps)
  not_after found r lt = ground (
    arith,
    r.before (hi - lo) lt,
    next_n-ip4 (hi - lo) lo,
    InOrder-le lo nodes hi h,
    contains-InOrder lo nodes hi (lo + (hi - lo)) h,
  )

  first_free-InOrder : first_free (length nodes + 1) (ips nodes) (ip4 lo) ≡ some (ip4 hi)
  first_free-InOrder =
      let r = first_free_lem (ips nodes) (ip4 lo) (InOrder-AreValid lo nodes hi h) in
      let steps : r.2.steps ≡ hi - lo = omega (arith, not_before r.0 r.2, not_after r.0 r.2) in
      let at : lo + r.2.steps ≡ hi = omega (arith, InOrder-le lo nodes hi h) in
      rw (length-map nodes (λ (n : Node). n.ip)) at
        (rw (← r.2.at, next_n-ip4 r.2.steps lo (omega arith), at) at r.1)

module _ ⦃text : NetText⦄ where
  open text use {addr_text, parse_addr, parse_addr-text}

  parse_row-ip4 :
      (row : Row) (node : Node) (a : ℕ)
      → parse_row row ≡ ok node
      → row.ip ≡ addr_text (ip4 a)
      → node.ip ≡ ip4 a
  unfolding parse_row is_valid
  parse_row-ip4 row node a e h = ground (arith, parse_addr-text (ip4 a) refl)

  parse_rows-InOrder :
      (lo : ℕ) (rows : List Row) (hi : ℕ) (nodes : List Node)
      → parse_rows rows ≡ ok nodes
      → Issued lo rows hi
      → InOrder lo nodes hi
  unfolding parse_rows
  parse_rows-InOrder lo [] hi [] e h = h
  parse_rows-InOrder lo [] hi (n ∷ nodes) e h = absurd (ground arith)
  parse_rows-InOrder lo (r ∷ rows) hi [] e h = absurd (ground arith)
  parse_rows-InOrder lo (r ∷ rows) hi (n ∷ nodes) e h = (
    parse_row-ip4 r n lo (ground arith) h.0,
    parse_rows-InOrder (lo + 1) rows hi nodes (ground arith) h.1,
  )

  -- Where the prefix of a service is IPv4, its addresses are in order and IPv4 has addresses left,
  -- `New` on its database gives the service back, with the same next address and no notification
  -- channels.
  pub new_resumes :
      (base hi : ℕ) (s : Service) (nodes : List Node)
      → s.prefix.addr ≡ ip4 base
      → IsInOrder (base + 1) hi s
      → hi < 2 ^ 32
      → get_nodes answers s.db ≡ ok nodes
      → new answers s.prefix s.db ≡ some (ok (record s { notify_chans = [] }))
  unfolding new get_nodes next
  new_resumes base hi s nodes e h bound g = ground (
    arith,
    g,
    first_free-InOrder (base + 1) nodes hi
        (parse_rows-InOrder (base + 1) s.db.rows hi nodes g h.issued) bound,
    Issued-le (base + 1) s.db.rows hi h.issued,
  )

  module _ (env : Env) (req : LoginRequest) (s : Service) where
    -- A registration that the database can give back.
    pub record Registers : Type 0 where
      pub insert_runs : env.insert ≡ runs
      pub stored : IsStored (registered env req s)

    get_nodes-register_node :
        (nodes : List Node)
        → Registers
        → get_nodes answers s.db ≡ ok nodes
        → get_nodes answers (register_node env req s).0.db
          ≡ ok (nodes ++ (registered env req s ∷ []))
    unfolding create_node
    get_nodes-register_node nodes r g =
        rw (register_node-runs env req s r.insert_runs)
          (get_nodes-create_node (registered env req s) env.insert_time s.db nodes r.stored g)

  -- Where the address after a service's next one is in use, the second node registered gets that
  -- address a second time.
  pub registrations_collide :
      (s : Service) (nodes : List Node) (env env' : Env) (req req' : LoginRequest)
      → get_nodes answers s.db ≡ ok nodes
      → contains (ips nodes) (next s.next_ip) ≡ true
      → Registers env req s
      → Registers env' req' (register_node env req s).0
      → (a b : Node) × (get_nodes answers (register_node env' req' (register_node env req s).0).0.db
          ≡ ok ((nodes ++ (a ∷ [])) ++ (b ∷ [])))
        × (contains (ips nodes) b.ip ≡ true)
  registrations_collide s nodes env env' req req' g taken r r' = (
    registered env req s,
    registered env' req' (register_node env req s).0,
    get_nodes-register_node env' req' (register_node env req s).0
        (nodes ++ (registered env req s ∷ [])) r' (get_nodes-register_node env req s nodes r g),
    rw (register_node-runs env req s r.insert_runs) taken,
  )
