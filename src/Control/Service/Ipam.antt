-- ===== src/Control/Service/Ipam.antt =====
-- control/control_service/service.go, `New`: the search for the first free address.
use netproject.Shared.{
  ℕ, zero, suc, ◌+◌, ◌≤◌, ◌<◌, ◌≡◌, refl, List, [], ◌∷◌, Bool, true, false, some, arith, inl, inr,
}
use netproject.Shared.{◌==◌, nat_eq, leb, if◌then◌else◌, length, contains, All, Bool-cases}
use netproject.Netip.{Addr, unset, ip4, ip6, addr_eq, addr_beq_iff, next, is_valid}
use netproject.Control.Service.{first_free}

-- The addresses from `ip` on, in its family.
abbrev is_ahead : Addr → Addr → Bool
is_ahead (ip4 a) (ip4 b) = leb a b
is_ahead (ip6 a) (ip6 b) = leb a b
is_ahead _ _ = false

count_ahead : Addr → List Addr → ℕ
count_ahead ip [] = 0
count_ahead ip (x ∷ xs) = if is_ahead ip x then count_ahead ip xs + 1 else count_ahead ip xs

is_ahead-next : (ip x : Addr) → is_ahead (next ip) x ≡ true → is_ahead ip x ≡ true
unfolding next
is_ahead-next (ip4 a) x h = ground arith
is_ahead-next (ip6 a) x h = ground arith
is_ahead-next (unset a) x h = ground arith

is_ahead_self :
    (ip x : Addr)
    → is_valid ip ≡ true
    → (x == ip) ≡ true
    → (is_ahead ip x ≡ true) × (is_ahead (next ip) x ≡ false)
unfolding next is_valid
is_ahead_self (ip4 a) x v h = ground arith
is_ahead_self (ip6 a) x v h = ground arith
is_ahead_self (unset a) x v h = ground arith

count_ahead-next : (ip : Addr) (xs : List Addr) → count_ahead (next ip) xs ≤ count_ahead ip xs
unfolding count_ahead
count_ahead-next ip [] = omega arith
count_ahead-next ip (x ∷ xs) = ground (arith, is_ahead-next ip x, count_ahead-next ip xs)

count_ahead-taken :
    (ip : Addr) (xs : List Addr)
    → is_valid ip ≡ true
    → contains xs ip ≡ true
    → count_ahead (next ip) xs < count_ahead ip xs
unfolding count_ahead contains
count_ahead-taken ip [] v h = cc
count_ahead-taken ip (x ∷ xs) v h = ground (
  arith,
  is_ahead-next ip x,
  is_ahead_self ip x v,
  count_ahead-next ip xs,
  count_ahead-taken ip xs v,
)

count_ahead-le : (ip : Addr) (xs : List Addr) → count_ahead ip xs ≤ length xs
unfolding count_ahead
count_ahead-le ip [] = omega arith
count_ahead-le ip (x ∷ xs) = ground (arith, count_ahead-le ip xs)

abbrev pub AreValid : List Addr → Type 0
AreValid = All (λ a. is_valid a ≡ true)

contains-valid :
    (ip : Addr) (xs : List Addr) → AreValid xs → contains xs ip ≡ true → is_valid ip ≡ true
unfolding contains
contains-valid ip [] h c = cc
contains-valid ip (x ∷ xs) h c = ground (arith, addr_beq_iff x ip, contains-valid ip xs h.1)

-- `n` steps of `Next`.
unfoldable pub next_n : ℕ → Addr → Addr
next_n zero ip = ip
next_n (suc n) ip = next_n n (next ip)

-- What the search promises: an address that is not allocated, and nothing before it is free.
pub record IsFirstFree (allocated : List Addr) (ip : Addr) (found : Addr) : Type 0 where
  pub steps : ℕ
  pub at : next_n steps ip ≡ found
  pub free : contains allocated found ≡ false
  pub before : (i : ℕ) → i < steps → contains allocated (next_n i ip) ≡ true

first_free-measure :
    (fuel : ℕ) (allocated : List Addr) (ip : Addr)
    → AreValid allocated
    → count_ahead ip allocated < fuel
    → (found : Addr) × (first_free fuel allocated ip ≡ some found) × IsFirstFree allocated ip found
unfolding first_free next_n
first_free-measure zero allocated ip v h = absurd (omega arith)
first_free-measure (suc fuel) allocated ip v h = elim (Bool-cases (contains allocated ip)) [
  | inl taken ↦
      let r = first_free-measure fuel allocated (next ip) v (
        omega
          (arith, count_ahead-taken ip allocated (contains-valid ip allocated v taken) taken)) in
      (
        r.0,
        rw taken r.1,
        record {
          steps = suc r.2.steps;
          at = r.2.at;
          free = r.2.free;
          before = later r.2.steps taken r.2.before;
        },
      )
  | inr unused ↦ (
    ip,
    rw unused,
    record { steps = 0; at = refl; free = unused; before = λ i lt. absurd (omega arith) },
  )
]
  where
    later :
        (n : ℕ)
        → contains allocated ip ≡ true
        → ((i : ℕ) → i < n → contains allocated (next_n i (next ip)) ≡ true)
        → (i : ℕ) → i < suc n
        → contains allocated (next_n i ip) ≡ true
    later n taken rest zero lt = taken
    later n taken rest (suc i) lt = rest i (omega arith)

-- The address search of `New` ends within one round more than there are nodes, where their
-- addresses are valid, and finds the first free address.
pub first_free_lem :
    (allocated : List Addr) (ip : Addr)
    → AreValid allocated
    → (found : Addr) × (first_free (length allocated + 1) allocated ip ≡ some found)
      × IsFirstFree allocated ip found
first_free_lem allocated ip v =
    first_free-measure (length allocated + 1) allocated ip v
      (omega (arith, count_ahead-le ip allocated))
