-- ===== src/Control/Service/Tests.antt =====
-- Runs of the control service over a small network.
use netproject.Shared.{
  map, ℕ, ◌+◌, ◌≡◌, refl, List, [], ◌∷◌, ◌++◌, true, false, some, arith, ok, err, replicate, length,
  nat_eq, contains, map,
}
use netproject.Netip.{Addr, ip4, Prefix, next, addr_eq, is_valid}
use netproject.Netip.Sample.{sample_text}
use netproject.Shared.{list_beq}
use netproject.Keys.Base64.{encode, encode_sextet, decode_string, decode_sextet}
use netproject.Keys.{decode_from_string, PublicKey, encode_to_string, is_zero}
use netproject.Control.Database.{
  Node, Row, answers, runs, refuses, new_table, get_node, get_nodes, parse_rows, parse_row,
  find_key, create_node, node_not_found, create_failed,
}
use netproject.Control.Service.{
  Service, Env, LoginRequest, answers_with, blocked, new, login_node, login_looked_up,
  register_node, update, notify_all_except, verify_node_for_relay, node_key_valid_for,
  err_node_key_expired, node_key_expired, from_db, first_free,
}
use netproject.Control.Service.Ipam.{IsFirstFree, first_free_lem}
use netproject.Control.Service.Addresses.{
  texts_from, AreDistinct, IsInOrder, logins, logins_addresses,
}
use netproject.Control.Service.Restart.{new_resumes, registrations_collide, Registers, ips}
use netproject.Control.Service.Login.{IsFirstLogin, verify-login, expired_key_is_stuck, login_race}
use netproject.Control.Service.Notify.{notify_all_except_blocks}
use netproject.Control.Service.Polling.{IsAdmitted}
use netproject.Keys.{IsArray}
use netproject.Control.Service.Directory.{
  Op, HasRoom, directory, ask, login_found, ask_all, call_all, assign,
}
use netproject.Control.Service.Directory
use netproject.Control.Service.Directory.Refines.{call_all_refines}
use netproject.Control.Service.Reachable.{IsSound}

abbrev pub key_a : PublicKey
key_a = record { k = replicate 32 7 }

abbrev pub key_b : PublicKey
key_b = record { k = replicate 32 8 }

-- 100.70.0.0/16
abbrev base : ℕ
base = 1682309120

abbrev pub prefix : Prefix
prefix = record { addr = ip4 1682309120; bits = 16 }

abbrev pub env : Env
env = record { lookup = answers; insert = runs; login_time = 100; insert_time = 101 }

abbrev pub req_a : LoginRequest
req_a = record { node_key = key_a }

abbrev req_b : LoginRequest
req_b = record { node_key = key_b }

abbrev pub empty : Service
empty = record { db = new_table; prefix = prefix; next_ip = ip4 1682309121; notify_chans = [] }

new_starts : new ⦃text = sample_text⦄ answers prefix new_table ≡ some (ok empty)
unfolding new new_table get_nodes parse_rows first_free contains next
new_starts = refl

first_free_lem_example :
    (found : Addr) × (first_free 3 (ip4 5 ∷ ip4 4 ∷ []) (ip4 4) ≡ some found)
    × IsFirstFree (ip4 5 ∷ ip4 4 ∷ []) (ip4 4) found
unfolding is_valid
first_free_lem_example = first_free_lem (ip4 5 ∷ ip4 4 ∷ []) (ip4 4) (refl, (refl, tt))

abbrev two_logins : List (Env × LoginRequest)
two_logins = (env, req_a) ∷ (env, req_b) ∷ []

logins_addresses_example :
    (map (λ (r : Row). r.ip) (logins ⦃text = sample_text⦄ two_logins empty).db.rows
      ≡ texts_from ⦃text = sample_text⦄ 1682309121
          (length (logins ⦃text = sample_text⦄ two_logins empty).db.rows))
    × AreDistinct (map (λ (r : Row). r.ip) (logins ⦃text = sample_text⦄ two_logins empty).db.rows)
logins_addresses_example =
    logins_addresses ⦃text = sample_text⦄ prefix base empty two_logins refl new_starts
      ((λ e. cc), ((λ e. cc), tt)) (omega arith)

-- The service after one registration, written out.
abbrev pub row_a : Row
row_a = record {
  id = 1;
  ip = 4 ∷ 1682309121 ∷ [];
  prefix = 16 ∷ 4 ∷ 1682309120 ∷ [];
  public_key = encode_to_string key_a;
  key_expiry = 100 + node_key_valid_for;
  created_at = 101;
  updated_at = 101;
}

abbrev pub node_a : Node
node_a = record {
  id = 1;
  ip = ip4 1682309121;
  prefix = prefix;
  node_key = key_a;
  node_key_expiry = 100 + node_key_valid_for;
  created_at = 101;
  updated_at = 101;
}

abbrev pub one : Service
one = record {
  db = record { rows = row_a ∷ []; last_id = 1 };
  prefix = prefix;
  next_ip = ip4 1682309122;
  notify_chans = [];
}

pub one_parses : get_nodes ⦃text = sample_text⦄ answers one.db ≡ ok (node_a ∷ [])
unfolding get_nodes parse_rows parse_row decode_from_string decode_string decode_sextet
    encode_to_string encode encode_sextet
one_parses = refl

pub a_is_found : get_node ⦃text = sample_text⦄ answers key_a one.db ≡ ok node_a
unfolding get_node find_key list_beq parse_row decode_from_string decode_string decode_sextet
    encode_to_string encode encode_sextet
a_is_found = refl

a_is_missing : get_node ⦃text = sample_text⦄ answers key_a empty.db ≡ err node_not_found
unfolding get_node find_key new_table
a_is_missing = refl

pub b_is_missing : get_node ⦃text = sample_text⦄ answers key_b one.db ≡ err node_not_found
unfolding get_node find_key list_beq encode_to_string encode encode_sextet
b_is_missing = refl

pub nonzero_a : is_zero key_a ≡ false
unfolding is_zero list_beq
nonzero_a = refl

pub first_login : IsFirstLogin ⦃text = sample_text⦄ env req_a empty
unfolding is_valid
first_login = record {
  nonzero = nonzero_a;
  lookup_answers = refl;
  missing = a_is_missing;
  insert_runs = refl;
  stored = record { ip_valid = refl; prefix_valid = refl; key_array = omega arith };
}

verify-login_example :
    verify_node_for_relay ⦃text = sample_text⦄ answers 200 key_a
      (login_node ⦃text = sample_text⦄ env req_a empty).0
    ≡ ok 1
unfolding new_table
verify-login_example = verify-login ⦃text = sample_text⦄ env req_a empty 200 first_login

abbrev refusing : Env
refusing = record { lookup = answers; insert = refuses; login_time = 100; insert_time = 101 }

refused : (login_node ⦃text = sample_text⦄ refusing req_a empty).1 ≡ err (from_db create_failed)
unfolding login_node register_node create_node is_zero list_beq get_node find_key new_table
refused = refl

expired_key_is_stuck_example :
    (login_node ⦃text = sample_text⦄ env req_a one
      ≡ (one, ok (record { logged_in = true; key_expiry = node_a.node_key_expiry })))
    × (update ⦃text = sample_text⦄ answers answers 9000000000000000
          (record { node_key = key_a; full_update = true })
          one
        ≡ (one, answers_with (err err_node_key_expired)))
    × (verify_node_for_relay ⦃text = sample_text⦄ answers 9000000000000000 key_a one
        ≡ err err_node_key_expired)
expired_key_is_stuck_example =
    expired_key_is_stuck ⦃text = sample_text⦄ env req_a one node_a answers 9000000000000000 true
      nonzero_a refl a_is_found refl (omega arith)

login_race_example :
    let s' =
      (login_looked_up ⦃text = sample_text⦄
        (get_node ⦃text = sample_text⦄ answers key_a empty.db)
        env
        req_a
        empty).0 in
    (a b : Row) × ((login_looked_up ⦃text = sample_text⦄
        (get_node ⦃text = sample_text⦄ answers key_a empty.db)
        env
        req_a
        s').0.db.rows
      ≡ (empty.db.rows ++ (a ∷ [])) ++ (b ∷ []))
    × (a.public_key ≡ encode_to_string key_a)
    × (b.public_key ≡ encode_to_string key_a)
    × (b.id ≡ a.id + 1)
login_race_example = login_race ⦃text = sample_text⦄ env env req_a empty refl refl a_is_missing

one-IsInOrder : IsInOrder ⦃text = sample_text⦄ (base + 1) (base + 2) one
one-IsInOrder = record { next_at = refl; issued = (refl, refl) }

new_resumes_example :
    new ⦃text = sample_text⦄ answers prefix one.db ≡ some (ok (record one { notify_chans = [] }))
new_resumes_example =
    new_resumes ⦃text = sample_text⦄ base (base + 2) one (node_a ∷ []) refl one-IsInOrder
      (omega arith) one_parses

-- The first address was freed and the second is in use.
abbrev gap_row : Row
gap_row = record row_a { id = 2; ip = 4 ∷ 1682309122 ∷ [] }

abbrev gap_node : Node
gap_node = record node_a { id = 2; ip = ip4 1682309122 }

abbrev gap : Service
gap = record {
  db = record { rows = gap_row ∷ []; last_id = 2 };
  prefix = prefix;
  next_ip = ip4 1682309121;
  notify_chans = [];
}

gap_parses : get_nodes ⦃text = sample_text⦄ answers gap.db ≡ ok (gap_node ∷ [])
unfolding get_nodes parse_rows parse_row decode_from_string decode_string decode_sextet
    encode_to_string encode encode_sextet
gap_parses = refl

gap_taken : contains (ips (gap_node ∷ [])) (next gap.next_ip) ≡ true
unfolding contains next
gap_taken = refl

registers_b : Registers ⦃text = sample_text⦄ env req_b gap
unfolding is_valid
registers_b = record {
  insert_runs = refl;
  stored = record { ip_valid = refl; prefix_valid = refl; key_array = omega arith };
}

registers_b_again :
    Registers ⦃text = sample_text⦄ env req_b (register_node ⦃text = sample_text⦄ env req_b gap).0
unfolding is_valid register_node create_node next
registers_b_again = record {
  insert_runs = refl;
  stored = record { ip_valid = refl; prefix_valid = refl; key_array = omega arith };
}

registrations_collide_example :
    (a b : Node) × (get_nodes ⦃text = sample_text⦄ answers
        (register_node ⦃text = sample_text⦄ env req_b
          (register_node ⦃text = sample_text⦄ env req_b gap).0).0.db
      ≡ ok (((gap_node ∷ []) ++ (a ∷ [])) ++ (b ∷ [])))
    × (contains (ips (gap_node ∷ [])) b.ip ≡ true)
registrations_collide_example =
    registrations_collide ⦃text = sample_text⦄ gap (gap_node ∷ []) env env req_b req_b gap_parses
      gap_taken registers_b registers_b_again

-- Node 1 has polled before; node 2 polls for the first time.
abbrev pub polling : Service
polling = record one { notify_chans = (1, 5) ∷ [] }

notify_all_except_blocks_example : notify_all_except (0 + 2) false 0 ((1, 0) ∷ []) ≡ blocked
notify_all_except_blocks_example = notify_all_except_blocks 0 0 ((1, 0) ∷ [])

admitted_a :
    IsAdmitted ⦃text = sample_text⦄ (record { node_key = key_a; full_update = true }) one node_a 200
unfolding node_key_expired
admitted_a = record { nonzero = nonzero_a; found = a_is_found; same_key = refl; current = refl }

pub empty-IsSound : IsSound empty
unfolding new_table
empty-IsSound = record { table = omega arith; bounded = tt }

key_a-IsArray : IsArray key_a.k
key_a-IsArray = omega arith

key_b-IsArray : IsArray key_b.k
key_b-IsArray = omega arith

-- A first login, a check by the relay, a second login, and another node.
abbrev calls : List Op
calls =
    Directory.logs_in 100 101 key_a key_a-IsArray
    ∷ Directory.verifies 200 key_a key_a-IsArray
    ∷ Directory.logs_in 300 301 key_a key_a-IsArray
    ∷ Directory.logs_in 400 401 key_b key_b-IsArray
    ∷ []

room : HasRoom calls (directory ⦃text = sample_text⦄ empty)
unfolding HasRoom ask login_found get_node find_key list_beq new_table is_zero encode_to_string
    encode encode_sextet is_valid next
room = (refl, (refl, (refl, (refl, tt))))

call_all_refines_example :
    (directory ⦃text = sample_text⦄ (call_all ⦃text = sample_text⦄ calls empty).0
      ≡ (ask_all calls (directory ⦃text = sample_text⦄ empty)).0)
    × ((call_all ⦃text = sample_text⦄ calls empty).1
        ≡ (ask_all calls (directory ⦃text = sample_text⦄ empty)).1)
unfolding is_valid
call_all_refines_example = call_all_refines ⦃text = sample_text⦄ calls empty room refl
