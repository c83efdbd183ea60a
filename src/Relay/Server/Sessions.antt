-- ===== src/Relay/Server/Sessions.antt =====
-- control/server/routes.go: the relay under every interleaving of its handlers.
use netproject.Shared.{ℕ, ◌≡◌, ◌≢◌, ◌++◌, ap, ◌∙◌, List, [], ◌∷◌, Bool, none, some, arith}
use netproject.Shared.{nat_eq, All, length, take, drop}
use netproject.Shared.Map
use netproject.Shared.Map.{Map, get-put}
use netproject.Bytes.{Slice, peek_uint64, uint64_bytes}
use netproject.Relay.Server.{Relay, forwarded, enter, route}
use netproject.Relay.Server.Routing.{route-IsRouted, poke_uint64-bytes}

-- A packet that was written: the socket it came from, that socket's node, the packet as it was
-- read, the socket it was written to, and what was written.
pub record Delivery : Type 0 where
  pub origin : ℕ
  pub sender : ℕ
  pub packet : Slice
  pub socket : ℕ
  pub out : Slice

-- The relay, the node that each socket was admitted for, and what was written, newest first.
pub record System : Type 0 where
  pub relay : Relay
  pub sessions : Map ℕ ℕ
  pub log : List Delivery

pub data Step (t : System) : System → Type 0 where
  -- A node was admitted and enters on a new socket.
  connects :
      (id socket : ℕ)
      → Map.get socket t.sessions ≡ none
      → Step t (record t {
        relay = (enter id socket t.relay).0;
        sessions = Map.put socket id t.sessions;
      })
  -- A handler reads a message and writes it to another node's socket.
  sends :
      (origin sender socket : ℕ) (binary : Bool) (packet out : Slice)
      → Map.get origin t.sessions ≡ some sender
      → route sender binary packet t.relay ≡ forwarded socket out
      → Step t (record t {
        log =
            record { origin = origin; sender = sender; packet = packet; socket = socket; out = out }
            ∷ t.log;
      })
  -- The garbage collector takes sockets.
  collects :
      (alive : List ℕ)
      → Step t (record t { relay = record { conns = t.relay.conns; alive = alive } })

pub data Reach (t : System) : System → Type 0 where
  here : Reach t t
  more : {u v : System} → Reach t u → Step u v → Reach t v

-- A packet came from a socket admitted for its sender, was addressed to the node that the socket
-- it went to was admitted for, and was written as its sender's id followed by the bytes behind the
-- header, cut to the packet's length.
abbrev pub IsAuthentic : Map ℕ ℕ → Delivery → Type 0
IsAuthentic sessions d =
    (dst : ℕ) × (Map.get d.origin sessions ≡ some d.sender)
    × (peek_uint64 d.packet ≡ some dst)
    × (Map.get d.socket sessions ≡ some dst)
    × (dst ≢ d.sender)
    × (d.out.bytes ≡ take (length d.packet.bytes) (uint64_bytes d.sender ++ drop 8 d.packet.bytes))

pub record IsSecure (t : System) : Type 0 where
  pub routes :
      (id socket : ℕ) → Map.get id t.relay.conns ≡ some socket → Map.get socket t.sessions ≡ some id
  pub authentic : All (IsAuthentic t.sessions) t.log

get-put_fresh :
    (socket j id i : ℕ) (m : Map ℕ ℕ)
    → Map.get socket m ≡ none
    → Map.get j m ≡ some i
    → Map.get j (Map.put socket id m) ≡ some i
get-put_fresh socket j id i m fresh e = ground (arith, get-put socket j id m, fresh, e)

IsAuthentic-put :
    (socket id : ℕ) (m : Map ℕ ℕ) (log : List Delivery)
    → Map.get socket m ≡ none
    → All (IsAuthentic m) log
    → All (IsAuthentic (Map.put socket id m)) log
IsAuthentic-put socket id m [] fresh h = tt
IsAuthentic-put socket id m (d ∷ log) fresh ((dst, o, p, q, ne, e), h) = (
  (
    dst,
    get-put_fresh socket d.origin id d.sender m fresh o,
    p,
    get-put_fresh socket d.socket id dst m fresh q,
    ne,
    e,
  ),
  IsAuthentic-put socket id m log fresh h,
)

routes-connect :
    (t : System) (id socket : ℕ)
    → Map.get socket t.sessions ≡ none
    → IsSecure t
    → (i k : ℕ) → Map.get i (enter id socket t.relay).0.conns ≡ some k
    → Map.get k (Map.put socket id t.sessions) ≡ some i
unfolding enter
routes-connect t id socket fresh h i k e = ground (
  arith,
  e,
  fresh,
  get-put id i socket t.relay.conns,
  get-put socket k id t.sessions,
  h.routes i k,
)

Step-IsSecure : {t u : System} → Step t u → IsSecure t → IsSecure u
Step-IsSecure {t} (connects id socket fresh) h = record {
  routes = routes-connect t id socket fresh h;
  authentic = IsAuthentic-put socket id t.sessions t.log fresh h.authentic;
}
Step-IsSecure {t} (sends origin sender socket binary packet out o e) h =
    let r = (route-IsRouted sender binary packet t.relay socket out e).1 in
    record {
      routes = h.routes;
      authentic = (
        (
          r.dst,
          o,
          r.addressed,
          h.routes r.dst socket r.registered,
          r.not_sender,
          ap (λ s. s.bytes) r.rewritten ∙ poke_uint64-bytes sender packet,
        ),
        h.authentic,
      );
    }
Step-IsSecure (collects alive) h = record { routes = h.routes; authentic = h.authentic }

-- However the relay's handlers interleave, whatever the nodes send and the collector takes, every
-- packet that the relay writes came from a socket admitted for its sender, goes to a socket
-- admitted for the node in its header, which is not the sender, and is the sender's id followed by
-- the packet from its ninth byte on, cut to the packet's length: a packet shorter than eight bytes
-- carries only as much of the id as it has bytes.
pub Reach-IsSecure : {t u : System} → IsSecure t → Reach t u → IsSecure u
Reach-IsSecure h here = h
Reach-IsSecure h (more r st) = Step-IsSecure st (Reach-IsSecure h r)
