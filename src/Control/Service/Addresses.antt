-- ===== src/Control/Service/Addresses.antt =====
-- control/control_service/service.go: the addresses that a run of logins gives out.
use netproject.Shared.{
  ℕ, zero, suc, ◌+◌, ◌^◌, ◌≤◌, ◌<◌, ◌≡◌, ◌≢◌, refl, sym, ap, List, [], ◌∷◌, ◌++◌, false, some,
  arith, inl, inr, ◌∙◌,
}
use netproject.Shared.{
  map, list_eq, list_beq_iff, subst, contains, ◌==◌, nat_eq, length, All, Bool-cases, Outcome, ok,
  err, panic,
}
use netproject.Netip.{ip4, next, is_valid, Prefix, NetText}
use netproject.Keys.{is_zero}
use netproject.Control.Database.{
  Node, Row, no_result, answers, new_table, insert_row, row_of, get_node, get_nodes, parse_rows,
  DbError, node_not_found,
}
use netproject.Control.Service.Register.{
  runs_or_refuses, register_node-runs, register_node-refuses, after_registration,
}
use netproject.Control.Service.{
  Service, Env, LoginRequest, login_node, login_looked_up, register_node, new, first_free,
}

-- The logins of a run, with what each meets; requests that the service refuses count too.
unfoldable pub logins : ⦃text : NetText⦄ → List (Env × LoginRequest) → Service → Service
logins [] s = s
logins ((env, req) ∷ cs) s = logins cs (login_node env req s).0

-- `LastInsertId` answers, as the SQLite driver's always does.
abbrev pub HasResults : List (Env × LoginRequest) → Type 0
HasResults = All (λ c. c.0.insert ≢ no_result)

-- No text stands twice in the list.
abbrev pub AreDistinct : List (List ℕ) → Type 0
AreDistinct [] = Unit
AreDistinct (x ∷ xs) = (contains xs x ≡ false) × AreDistinct xs

module _ ⦃text : NetText⦄ where
  open text use {addr_text, parse_addr, parse_addr-text}

  -- The rows hold the addresses from `lo` on in order, the last of them before `hi`.
  abbrev pub Issued : ℕ → List Row → ℕ → Type 0
  Issued lo [] hi = lo ≡ hi
  Issued lo (row ∷ rows) hi = (row.ip ≡ addr_text (ip4 lo)) × Issued (lo + 1) rows hi

  -- The service gave out the addresses from `lo` on, and has not got to the end of the family.
  pub record IsInOrder (lo hi : ℕ) (s : Service) : Type 0 where
    pub next_at : s.next_ip ≡ ip4 hi
    pub issued : Issued lo s.db.rows hi

  Issued-append :
      (lo : ℕ) (rows : List Row) (hi : ℕ) (row : Row)
      → Issued lo rows hi
      → row.ip ≡ addr_text (ip4 hi)
      → Issued lo (rows ++ (row ∷ [])) (hi + 1)
  Issued-append lo [] hi row h e =
      (e ∙ ap (λ (n : ℕ). addr_text (ip4 n)) (sym h), ap (λ (n : ℕ). n + 1) h)
  Issued-append lo (r ∷ rows) hi row h e = (h.0, Issued-append (lo + 1) rows hi row h.1 e)

  after_registration-IsInOrder :
      (env : Env) (req : LoginRequest) (lo hi : ℕ) (s : Service)
      → IsInOrder lo hi s
      → hi + 1 < 2 ^ 32
      → IsInOrder lo (hi + 1) (after_registration env req s)
  unfolding next insert_row row_of
  after_registration-IsInOrder env req lo hi s h bound = record {
    next_at = rw h.next_at (ground arith);
    issued = Issued-append lo s.db.rows hi _ h.issued (ap addr_text h.next_at);
  }

  -- Where the addresses have got to after a login.
  abbrev Onward : ℕ → ℕ → Service → Type 0
  Onward lo hi s = (k : ℕ) × (hi ≤ k) × (k ≤ hi + 1) × IsInOrder lo k s

  register_node-IsInOrder :
      (env : Env) (req : LoginRequest) (lo hi : ℕ) (s : Service)
      → IsInOrder lo hi s
      → env.insert ≢ no_result
      → hi + 1 < 2 ^ 32
      → Onward lo hi (register_node env req s).0
  register_node-IsInOrder env req lo hi s h ne bound = elim (runs_or_refuses env.insert ne) [
    | inl e ↦
        rw (register_node-runs env req s e)
          (hi + 1, omega arith, omega arith, after_registration-IsInOrder env req lo hi s h bound)
    | inr e ↦ rw (register_node-refuses env req s e) (hi, omega arith, omega arith, h)
  ]

  login_looked_up-cases {ℓ} :
      (P : Service → Type ℓ) (r : Outcome DbError Node) (env : Env) (req : LoginRequest)
      (s : Service)
      → P s
      → P (register_node env req s).0
      → P (login_looked_up r env req s).0
  unfolding login_looked_up
  login_looked_up-cases P (ok node) env req s same registers = same
  login_looked_up-cases P (err node_not_found) env req s same registers = registers
  login_looked_up-cases P (err _) env req s same registers = same
  login_looked_up-cases P panic env req s same registers = same

  -- A login leaves the service as it was, or registers.
  pub login_node-cases {ℓ} :
      (P : Service → Type ℓ) (env : Env) (req : LoginRequest) (s : Service)
      → P s
      → P (register_node env req s).0
      → P (login_node env req s).0
  unfolding login_node
  login_node-cases P env req s same registers = elim (Bool-cases (is_zero req.node_key)) [
    | inl e ↦ rw e same
    | inr e ↦
        rw e
          (login_looked_up-cases P (get_node env.lookup req.node_key s.db) env req s same registers)
  ]

  login_node-IsInOrder :
      (env : Env) (req : LoginRequest) (lo hi : ℕ) (s : Service)
      → IsInOrder lo hi s
      → env.insert ≢ no_result
      → hi + 1 < 2 ^ 32
      → Onward lo hi (login_node env req s).0
  login_node-IsInOrder env req lo hi s h ne bound =
      login_node-cases (Onward lo hi) env req s (hi, omega arith, omega arith, h)
        (register_node-IsInOrder env req lo hi s h ne bound)

  logins-IsInOrder :
      (cs : List (Env × LoginRequest)) (lo hi : ℕ) (s : Service)
      → IsInOrder lo hi s
      → HasResults cs
      → hi + length cs < 2 ^ 32
      → (k : ℕ) × (hi ≤ k) × (k ≤ hi + length cs) × IsInOrder lo k (logins cs s)
  unfolding logins
  logins-IsInOrder [] lo hi s h r bound = (hi, omega arith, omega arith, h)
  logins-IsInOrder ((env, req) ∷ cs) lo hi s h r bound =
      let step = login_node-IsInOrder env req lo hi s h r.0 (omega arith) in
      let rest =
        logins-IsInOrder cs lo step.0 (login_node env req s).0 step.3 r.1 (omega (arith, step.2)) in
      (rest.0, omega (arith, step.1, rest.1), omega (arith, step.2, rest.2), rest.3)

  pub Issued-le : (lo : ℕ) (rows : List Row) (hi : ℕ) → Issued lo rows hi → lo ≤ hi
  Issued-le lo [] hi h = omega arith
  Issued-le lo (r ∷ rows) hi h = omega (arith, Issued-le (lo + 1) rows hi h.1)

  ip4_text-injective : (a b : ℕ) → addr_text (ip4 a) ≡ addr_text (ip4 b) → a ≡ b
  unfolding is_valid
  ip4_text-injective a b e =
      ground (arith, parse_addr-text (ip4 a) refl, parse_addr-text (ip4 b) refl, ap parse_addr e)

  -- `New` on a database with no node yet.
  abbrev pub started : Prefix → Service
  started prefix = record {
    db = new_table;
    prefix = prefix;
    next_ip = next prefix.addr;
    notify_chans = [];
  }

  new-empty : (prefix : Prefix) → new answers prefix new_table ≡ some (ok (started prefix))
  unfolding new new_table get_nodes parse_rows first_free contains
  new-empty prefix = refl

  started-IsInOrder :
      (prefix : Prefix) (base : ℕ)
      → prefix.addr ≡ ip4 base
      → base + 1 < 2 ^ 32
      → IsInOrder (base + 1) (base + 1) (started prefix)
  unfolding next new_table
  started-IsInOrder prefix base e bound = record { next_at = rw e (ground arith); issued = refl }

  -- The texts of `n` addresses in order.
  abbrev pub texts_from : ℕ → ℕ → List (List ℕ)
  texts_from lo zero = []
  texts_from lo (suc n) = addr_text (ip4 lo) ∷ texts_from (lo + 1) n

  Issued-texts :
      (lo : ℕ) (rows : List Row) (hi : ℕ)
      → Issued lo rows hi
      → map (λ (r : Row). r.ip) rows ≡ texts_from lo (length rows)
  Issued-texts lo [] hi h = refl
  Issued-texts lo (r ∷ rows) hi h = ground (arith, h.0, Issued-texts (lo + 1) rows hi h.1)

  texts_from-contains :
      (a lo n : ℕ) → a < lo → contains (texts_from lo n) (addr_text (ip4 a)) ≡ false
  unfolding contains
  texts_from-contains a lo zero lt = refl
  texts_from-contains a lo (suc n) lt =
      elim (Bool-cases (addr_text (ip4 lo) == addr_text (ip4 a))) [
        | inl e ↦ absurd (
            omega (
              arith,
              ip4_text-injective lo a ((list_beq_iff (addr_text (ip4 lo)) (addr_text (ip4 a))).0 e),
            ))
        | inr e ↦ rw e (texts_from-contains a (lo + 1) n (omega arith))
      ]

  texts_from-AreDistinct : (lo n : ℕ) → AreDistinct (texts_from lo n)
  texts_from-AreDistinct lo zero = tt
  texts_from-AreDistinct lo (suc n) =
      (texts_from-contains lo (lo + 1) n (omega arith), texts_from-AreDistinct (lo + 1) n)

  -- From `New` on an empty database with an IPv4 prefix, and as long as IPv4 has addresses left
  -- and the driver has an id for every row it writes, the nodes that any run of logins registers
  -- have the addresses from the one after the prefix's on, in the order of their rows, and no two
  -- have the same address text.
  pub logins_addresses :
      (prefix : Prefix) (base : ℕ) (s : Service) (cs : List (Env × LoginRequest))
      → prefix.addr ≡ ip4 base
      → new answers prefix new_table ≡ some (ok s)
      → HasResults cs
      → base + 1 + length cs < 2 ^ 32
      → (map (λ (r : Row). r.ip) (logins cs s).db.rows
          ≡ texts_from (base + 1) (length (logins cs s).db.rows))
        × AreDistinct (map (λ (r : Row). r.ip) (logins cs s).db.rows)
  logins_addresses prefix base s cs e n r bound =
      let started_eq : started prefix ≡ s = cc (new-empty prefix) in
      let order =
        logins-IsInOrder cs (base + 1) (base + 1) s
          (subst (IsInOrder (base + 1) (base + 1)) started_eq
            (started-IsInOrder prefix base e (omega arith)))
          r bound in
      let texts = Issued-texts (base + 1) (logins cs s).db.rows order.0 order.3.issued in
      (
        texts,
        subst AreDistinct (sym texts)
            (texts_from-AreDistinct (base + 1) (length (logins cs s).db.rows)),
      )
