-- ===== src/Relay/Server/Routing.antt =====
-- control/server/routes.go: where the relay sends a packet, and under whose name.
use netproject.Shared.{
  ℕ, ◌≡◌, ◌≢◌, ◌≤◌, refl, ap, List, [], ◌∷◌, ◌++◌, Bool, true, false, some, arith, inl, inr,
}
use mathlib.Core.List.{append_assoc}
use netproject.Shared.{
  nat_eq, contains, Option-cases, All, length, take, drop, length-append, length-drop, length-take,
  take-take, take-append,
}
use netproject.Shared.Map
use netproject.Shared.Map.{Map, get-put}
use netproject.Bytes.{Slice, IsUint64, uint64_bytes, peek_uint64, poke_uint64}
use netproject.Bytes.Laws.{uint64_value-bytes, length-uint64_bytes}
use netproject.Relay.Server.{
  Relay, Verdict, dropped, forwarded, crashed, Read, message, read_error, Exit, resolve, route,
  serve, after_verdict,
}

-- The frame of a packet for or from `id`.
abbrev pub frame : ℕ → List ℕ → List ℕ
frame id payload = uint64_bytes id ++ payload

-- Writing a header into a packet of at least eight bytes replaces the first eight.
pub poke-frame :
    (v dst : ℕ) (payload spare : List ℕ)
    → (poke_uint64 v (record { bytes = frame dst payload; spare = spare })).bytes ≡ frame v payload
unfolding poke_uint64 uint64_bytes
poke-frame v dst payload spare = rw (take-append payload spare)

pub length-poke :
    (v : ℕ) (p : Slice)
    → 8 ≤ length (p.bytes ++ p.spare)
    → length (poke_uint64 v p).bytes ≡ length p.bytes
unfolding poke_uint64
length-poke v p h = omega (
  arith,
  h,
  length-take (length p.bytes) (uint64_bytes v ++ drop 8 (p.bytes ++ p.spare)),
  length-append (uint64_bytes v) (drop 8 (p.bytes ++ p.spare)),
  length-drop 8 (p.bytes ++ p.spare),
  length-uint64_bytes v,
  length-append p.bytes p.spare,
)

pub peek-frame :
    (dst : ℕ) (payload spare : List ℕ)
    → IsUint64 dst
    → peek_uint64 (record { bytes = frame dst payload; spare = spare }) ≡ some dst
unfolding peek_uint64
peek-frame dst payload spare h = rw append_assoc (uint64_value-bytes dst (payload ++ spare) h)

take-overwrite :
    (head bytes spare : List ℕ)
    → take (length bytes) (head ++ drop (length head) (bytes ++ spare))
      ≡ take (length bytes) (head ++ drop (length head) bytes)
take-overwrite head [] spare = refl
take-overwrite [] (b ∷ bytes) spare = ap (◌∷◌ b) (take-overwrite [] bytes spare)
take-overwrite (h ∷ head) (b ∷ bytes) spare = ap (◌∷◌ h) (take-overwrite head bytes spare)

-- What is written in place of a packet: the id, then the packet from its ninth byte on, cut to the
-- length of the packet, which may be shorter than an id.
pub poke_uint64-bytes :
    (v : ℕ) (p : Slice)
    → (poke_uint64 v p).bytes ≡ take (length p.bytes) (uint64_bytes v ++ drop 8 p.bytes)
unfolding poke_uint64 uint64_bytes
poke_uint64-bytes v p = take-overwrite (uint64_bytes v) p.bytes p.spare

-- `resolve` gives a socket exactly where the map has it and it is alive.
resolve-some :
    (r : Relay) (id socket : ℕ)
    → resolve r id ≡ some socket
    → (Map.get id r.conns ≡ some socket) × (contains r.alive socket ≡ true)
unfolding resolve
resolve-some r id socket e = ground arith

-- What is known of a packet that the relay sends on.
pub record IsRouted (sender : ℕ) (packet : Slice) (r : Relay) (socket : ℕ) (out : Slice)
    : Type 0 where
  pub dst : ℕ
  pub addressed : peek_uint64 packet ≡ some dst
  pub not_zero : dst ≢ 0
  pub not_sender : dst ≢ sender
  pub registered : Map.get dst r.conns ≡ some socket
  pub is_alive : contains r.alive socket ≡ true
  pub rewritten : out ≡ poke_uint64 sender packet

-- The relay sends a packet on only if it is a binary message for another node than the sender
-- that has a live connection, and only to that connection, under the sender's id.
pub route-IsRouted :
    (sender : ℕ) (binary : Bool) (packet : Slice) (r : Relay) (socket : ℕ) (out : Slice)
    → route sender binary packet r ≡ forwarded socket out
    → (binary ≡ true) × IsRouted sender packet r socket out
unfolding route
route-IsRouted sender false packet r socket out e = absurd (ground (arith, e))
route-IsRouted sender true packet r socket out e = elim (Option-cases (peek_uint64 packet)) [
  | inl p ↦ absurd (ground (arith, e, p))
  | inr (dst, p) ↦
      let found : resolve r dst ≡ some socket = ground (arith, e, p) in
      (
        refl,
        record {
          dst = dst;
          addressed = p;
          not_zero = ground (arith, e, p);
          not_sender = ground (arith, e, p);
          registered = (resolve-some r dst socket found).0;
          is_alive = (resolve-some r dst socket found).1;
          rewritten = ground (arith, e, p);
        },
      )
]

take-poke :
    (v : ℕ) (p : Slice) → 8 ≤ length p.bytes → take 8 (poke_uint64 v p).bytes ≡ uint64_bytes v
unfolding poke_uint64 uint64_bytes
take-poke v p h = take-take 8 (length p.bytes) (uint64_bytes v ++ drop 8 (p.bytes ++ p.spare)) h

-- A message of at least eight bytes, or none.
abbrev pub IsLong : Read → Type 0
IsLong (message binary packet written) = 8 ≤ length packet.bytes
IsLong read_error = Unit

-- A written packet begins with the sender's id.
abbrev pub Bears : ℕ → ℕ × Slice → Type 0
Bears sender d = take 8 d.1.bytes ≡ uint64_bytes sender

after_verdict-authentic :
    (sender : ℕ) (packet : Slice) (v : Verdict) (written : Bool) (rest : List (ℕ × Slice) × Exit)
    → 8 ≤ length packet.bytes
    → ((socket : ℕ) (out : Slice) → v ≡ forwarded socket out → out ≡ poke_uint64 sender packet)
    → All (Bears sender) rest.0
    → All (Bears sender) (after_verdict v written rest).0
unfolding after_verdict
after_verdict-authentic sender packet (dropped why) written rest long h a = a
after_verdict-authentic sender packet crashed written rest long h a = tt
after_verdict-authentic sender packet (forwarded socket out) true rest long h a =
    (rw (h socket out refl) (take-poke sender packet long), a)
after_verdict-authentic sender packet (forwarded socket out) false rest long h a = tt

-- Whatever a node sends, in packets of at least eight bytes, and however the relay changes
-- meanwhile, every packet that its handler writes begins with the node's id.
pub serve_authentic :
    (sender : ℕ) (reads : List (Relay × Read))
    → All (λ e. IsLong e.1) reads
    → All (Bears sender) (serve sender reads).0
unfolding serve
serve_authentic sender [] h = tt
serve_authentic sender ((r, read_error) ∷ reads) h = tt
serve_authentic sender ((r, message binary packet written) ∷ reads) h =
    after_verdict-authentic sender packet (route sender binary packet r) written
      (serve sender reads) h.0
      (λ socket out e. (route-IsRouted sender binary packet r socket out e).1.rewritten)
      (serve_authentic sender reads h.1)
