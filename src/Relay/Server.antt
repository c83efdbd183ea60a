-- ===== src/Relay/Server.antt =====
-- control/server/routes.go, `relayHandler`. A socket is a number. The weak pointers of
-- `relayConns` resolve while the socket is in `alive`.
pub mod Routing
pub mod Sessions
use netproject.Shared.{ℕ, ◌+◌, List, [], ◌∷◌, Bool, true, false, ◌||◌, not, Option, none, some}
use netproject.Shared.{Outcome, ok, err, panic, ◌==◌, nat_eq, list_eq, if◌then◌else◌, contains}
use netproject.Shared.Map
use netproject.Shared.Map.{Map}
use netproject.Bytes.{Slice, peek_uint64, poke_uint64}
use netproject.Netip.{NetText}
use netproject.Keys.{PublicKey, zero_key, decode_from_string, is_zero}
use netproject.Control.Database.{Query}
use netproject.Control.Service.{Service, ServiceError, verify_node_for_relay}

pub record Relay : Type 0 where
  pub conns : Map ℕ ℕ
  pub alive : List ℕ

-- How the handler answers a request that it does not admit.
pub data Refusal : Type 0 where
  bad_request : Refusal
  unauthorized : ServiceError → Refusal
  no_websocket : Refusal

module _ ⦃text : NetText⦄ where
  -- The node behind a key, and then `websocket.Accept`, which works or not.
  unfoldable pub admit_key : PublicKey → Query → ℕ → Bool → Service → Outcome Refusal ℕ
  admit_key key query now accepts s =
      if is_zero key then err bad_request else elim (verify_node_for_relay query now key s) [
        | err e ↦ err (unauthorized e)
        | panic ↦ panic
        | ok id ↦ if accepts then ok id else err no_websocket
      ]

  -- The handler before it takes the mutex: the header `x-node-key`, what the database answers, the
  -- clock, and whether the upgrade to a websocket works.
  unfoldable pub admit : List ℕ → Query → ℕ → Bool → Service → Outcome Refusal ℕ
  unfolding admit_key
  admit header query now accepts s =
      if header == [] then err bad_request else elim (decode_from_string zero_key header) [
        | err _ ↦ err bad_request
        | panic ↦ panic
        | ok key ↦ admit_key key query now accepts s
      ]

-- `ec.Value() != nil`, for an entry that may be missing.
unfoldable pub resolve : Relay → ℕ → Option ℕ
resolve r id = elim (Map.get id r.conns) [
  | none ↦ none
  | some socket ↦ if contains r.alive socket then some socket else none
]

-- The handler under `mu`: the new socket replaces the node's old one, which is closed.
unfoldable pub enter : ℕ → ℕ → Relay → Relay × Option ℕ
unfolding resolve
enter id socket r =
    (record { conns = Map.put id socket r.conns; alive = socket ∷ r.alive }, resolve r id)

pub data DropReason : Type 0 where
  not_binary bad_destination no_destination : DropReason

pub data Verdict : Type 0 where
  dropped : DropReason → Verdict
  forwarded : ℕ → Slice → Verdict
  crashed : Verdict

-- One message in the handler's loop: the destination in the first eight bytes is looked up and
-- replaced by the sender.
unfoldable pub route : ℕ → Bool → Slice → Relay → Verdict
unfolding resolve
route sender binary packet r =
    if not binary then dropped not_binary else elim (peek_uint64 packet) [
      | none ↦ crashed
      | some dst ↦
          if dst == 0 || dst == sender then dropped bad_destination else elim (resolve r dst) [
            | none ↦ dropped no_destination
            | some socket ↦ forwarded socket (poke_uint64 sender packet)
          ]
    ]

-- What `socket.Read` gives, and whether the write that may follow works.
pub data Read : Type 0 where
  message : Bool → Slice → Bool → Read
  read_error : Read

pub data Exit : Type 0 where
  running closed write_failed crash : Exit

-- The loop's body after the verdict, with what the rounds that follow give.
unfoldable pub after_verdict : Verdict → Bool → List (ℕ × Slice) × Exit → List (ℕ × Slice) × Exit
after_verdict (dropped _) written rest = rest
after_verdict crashed written rest = ([], crash)
after_verdict (forwarded socket out) written rest =
    if written then ((socket, out) ∷ rest.0, rest.1) else ([], write_failed)

-- The handler's loop over what it reads, each with the relay at that time: the packets that it
-- wrote, in order, and how it ended.
unfoldable pub serve : ℕ → List (Relay × Read) → List (ℕ × Slice) × Exit
unfolding after_verdict
serve sender [] = ([], running)
serve sender ((r, read_error) ∷ reads) = ([], closed)
serve sender ((r, message binary packet written) ∷ reads) =
    let rest = serve sender reads in after_verdict (route sender binary packet r) written rest
