-- ===== src/Node/Peer/Keyed.antt =====
-- node/peer.go: the candidates of a peer as a map whose entries stand under their own endpoints.
use netproject.Shared.{ℕ, nat_eq, ◌≡◌, refl, List, [], ◌∷◌, Bool, some, arith}
use netproject.Shared.{All}
use netproject.Shared.Map
use netproject.Shared.Map.{Map}
use netproject.Node.Endpoint.{AddrPort, addr_port_eq, addr_port_beq_iff}
use netproject.Node.Peer.{Candidate, ping_candidates, put_candidates, keep_candidates, fresh}

-- A candidate stands under its own endpoint.
abbrev pub IsKeyed : Map AddrPort Candidate → Type 0
IsKeyed m = All (λ x. x.1.endpoint ≡ x.0) m

pub delete-IsKeyed :
    (ep : AddrPort) (m : Map AddrPort Candidate) → IsKeyed m → IsKeyed (Map.delete ep m)
unfolding Map.delete
delete-IsKeyed ep [] h = tt
delete-IsKeyed ep ((e, c) ∷ m) h = ground (arith, delete-IsKeyed ep m h.1)

pub put-IsKeyed :
    (ep : AddrPort) (c : Candidate) (m : Map AddrPort Candidate)
    → c.endpoint ≡ ep
    → IsKeyed m
    → IsKeyed (Map.put ep c m)
unfolding Map.put
put-IsKeyed ep c m e h = (e, delete-IsKeyed ep m h)

pub get-IsKeyed :
    (ep : AddrPort) (c : Candidate) (m : Map AddrPort Candidate)
    → IsKeyed m
    → Map.get ep m ≡ some c
    → c.endpoint ≡ ep
unfolding Map.get
get-IsKeyed ep c [] h e = absurd (ground arith)
get-IsKeyed ep c ((j, d) ∷ m) h e = ground (arith, get-IsKeyed ep c m h.1, addr_port_beq_iff j ep)

pub put_candidates-IsKeyed :
    (es : List AddrPort) (m : Map AddrPort Candidate) → IsKeyed m → IsKeyed (put_candidates es m)
unfolding put_candidates
put_candidates-IsKeyed [] m h = h
put_candidates-IsKeyed (e ∷ es) m h =
    put_candidates-IsKeyed es (Map.put e (fresh e) m) (put-IsKeyed e (fresh e) m refl h)

pub keep_candidates-IsKeyed :
    (es : List AddrPort) (m : Map AddrPort Candidate) → IsKeyed m → IsKeyed (keep_candidates es m)
unfolding keep_candidates
keep_candidates-IsKeyed es [] h = tt
keep_candidates-IsKeyed es ((e, c) ∷ m) h = ground (arith, keep_candidates-IsKeyed es m h.1)

pub ping_candidates-IsKeyed :
    (now : ℕ) (force : Bool) (m : Map AddrPort Candidate)
    → IsKeyed m
    → IsKeyed (ping_candidates now force m).0
unfolding ping_candidates
ping_candidates-IsKeyed now force [] h = tt
ping_candidates-IsKeyed now force ((e, c) ∷ m) h =
    ground (arith, ping_candidates-IsKeyed now force m h.1)
