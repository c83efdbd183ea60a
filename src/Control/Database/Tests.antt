-- ===== src/Control/Database/Tests.antt =====
-- Runs of the table of nodes.
use netproject.Shared.{◌≡◌, refl, List, [], ◌∷◌, none, arith, ok, err, replicate, nat_eq}
use netproject.Netip.{ip4, is_valid}
use netproject.Netip.Sample.{sample_text}
use netproject.Control.Database.{
  Node, Row, Table, runs, refuses, answers, new_table, node_not_found, get_node, get_nodes,
  find_key, parse_rows,
}
use netproject.Control.Database.Laws.{IsStored}
use netproject.Control.Database.Lifecycle.{Change, create, update, remove, find_id}

abbrev node : Node
node = record {
  id = 2;
  ip = ip4 9;
  prefix = record { addr = ip4 8; bits = 24 };
  node_key = record { k = replicate 32 7 };
  node_key_expiry = 50;
  created_at = 0;
  updated_at = 0;
}

abbrev row : Row
row = record {
  id = 2;
  ip = [];
  prefix = [];
  public_key = [];
  key_expiry = 5;
  created_at = 6;
  updated_at = 6;
}

abbrev table : Table
table = record { rows = row ∷ []; last_id = 3 }

stored : IsStored node
unfolding is_valid
stored = record { ip_valid = refl; prefix_valid = refl; key_array = omega arith }

empty_has_none : get_node ⦃text = sample_text⦄ answers node.node_key new_table ≡ err node_not_found
unfolding get_node find_key new_table
empty_has_none = refl

empty_lists : get_nodes ⦃text = sample_text⦄ answers new_table ≡ ok []
unfolding get_nodes parse_rows new_table
empty_lists = refl

abbrev changes : List Change
changes = remove runs 2 ∷ create runs 9 node ∷ update refuses 9 node ∷ []

one_is_gone : find_id ⦃text = sample_text⦄ 1 table.rows ≡ none
unfolding find_id
one_is_gone = refl
