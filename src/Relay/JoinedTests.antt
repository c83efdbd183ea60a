-- ===== src/Relay/JoinedTests.antt =====
-- Two nodes that join a small network.
use netproject.Shared.{
  ℕ, ◌≡◌, refl, ap, subst, sym, ◌∙◌, List, [], ◌∷◌, true, false, arith, ok, nat_eq,
}
use netproject.Bytes.{Slice}
use netproject.Netip.{NetText, is_valid, next}
use netproject.Netip.Sample.{sample_text}
use netproject.Keys.{is_zero}
use netproject.Shared.{list_beq}
use netproject.Control.Database.{insert_row, row_of, new_table}
use netproject.Control.Service.{LoginRequest}
use netproject.Control.Service.Login.{IsFirstLogin, first_login}
use netproject.Control.Service.Tests.{key_a, key_b, env, empty, one, b_is_missing}
use netproject.Control.Service.Tests
use netproject.Control.Wire.{Json}
use netproject.Control.Wire.Sample.{sample_json}
use netproject.Control.Http.{handle, upgrades}
use netproject.Control.Http.Tests.{ambient}
use netproject.Node.Client.Answers.{client_login_lem}
use netproject.Relay.Server.{Relay, enter, forwarded, route}
use netproject.Relay.Client.{received, send_packet, read_packet}
use netproject.Relay.Joined.{
  with_a, with_both, AreNew, connected, relay_request, joined_nodes_relay,
}

instance abbrev net : NetText
net = sample_text

instance abbrev codec : Json
codec = sample_json

abbrev req_b : LoginRequest
req_b = record { node_key = key_b }

nonzero_b : is_zero key_b ≡ false
unfolding is_zero list_beq
nonzero_b = refl

one-first_b : IsFirstLogin env req_b one
unfolding is_valid
one-first_b = record {
  nonzero = nonzero_b;
  lookup_answers = refl;
  missing = b_is_missing;
  insert_runs = refl;
  stored = record { ip_valid = refl; prefix_valid = refl; key_array = omega arith };
}

with_a-one : with_a ambient ambient ambient empty key_a key_b ≡ one
unfolding insert_row row_of next new_table
with_a-one =
    (client_login_lem ambient (record { node_key = key_a }) empty (omega arith)).0
    ∙ ap (λ r. r.0) (first_login env (record { node_key = key_a }) empty Tests.first_login)

are_new : AreNew ambient ambient ambient empty key_a key_b
are_new = record {
  first_a = Tests.first_login;
  first_b = subst (IsFirstLogin env req_b) (sym with_a-one) one-first_b;
  differ = λ e. absurd (ground (arith, e));
  lookup_answers = refl;
  upgrade_works = refl;
  current_a = omega arith;
  current_b = omega arith;
}

abbrev relay : Relay
relay = record { conns = []; alive = [] }

joined_nodes_relay_example :
    let s = with_both ambient ambient ambient empty key_a key_b in
    (handle ambient (relay_request (connected 40 key_a)) s ≡ (s, upgrades 1))
    × (handle ambient (relay_request (connected 41 key_b)) s ≡ (s, upgrades 2))
    × ((message : List ℕ) × (out : Slice) × (send_packet true 2 (5 ∷ []) (connected 40 key_a)
          ≡ ok (40, message))
        × (route 1 true (record { bytes = message; spare = [] }) (enter 2 12 (enter 1 11 relay).0).0
            ≡ forwarded 12 out)
        × (read_packet (received true out.bytes) (connected 41 key_b) ≡ ok (1, 5 ∷ [])))
unfolding new_table
joined_nodes_relay_example =
    joined_nodes_relay ambient ambient ambient empty key_a key_b 40 41 11 12 (5 ∷ []) [] relay
      are_new (omega arith)
