-- ===== src/Control/Database/Laws.antt =====
-- control/database/database.go: what reading gives after writing.
use netproject.Shared.{
  ℕ, ◌+◌, ◌≡◌, ◌≢◌, refl, List, [], ◌∷◌, ◌++◌, true, none, some, arith, inl, inr,
}
use netproject.Shared.{ok, err, nat_eq, list_eq, list_beq_iff, Option-cases, sym}
use netproject.Netip.{NetText, is_valid}
use netproject.Keys.{PublicKey, IsArray, encode_to_string, zero_key}
use netproject.Keys.Laws.{decode_from_string-encode_to_string, encode_to_string-injective}
use netproject.Control.Database.{
  Node, Row, Table, Exec, runs, refuses, answers, node_not_found, parse_row, row_of, find_key,
  get_node, parse_rows, get_nodes, insert_row, create_node,
}

-- A node that the database can give back: its addresses are valid and its key is an array.
pub record IsStored (node : Node) : Type 0 where
  pub ip_valid : is_valid node.ip ≡ true
  pub prefix_valid : is_valid node.prefix.addr ≡ true
  pub key_array : IsArray node.node_key.k

zero_key-IsArray : IsArray zero_key.k
zero_key-IsArray = omega arith

module _ ⦃text : NetText⦄ where
  open text use {parse_addr-text, parse_prefix-text}

  -- The row that is written for a node is read as that node.
  pub parse_row-row_of : (node : Node) → IsStored node → parse_row (row_of node) ≡ ok node
  unfolding parse_row row_of
  parse_row-row_of node h = ground (
    arith,
    parse_addr-text node.ip h.ip_valid,
    parse_prefix-text node.prefix h.prefix_valid,
    decode_from_string-encode_to_string node.node_key zero_key h.key_array zero_key-IsArray,
  )

  pub find_key-append :
      (key : List ℕ) (row : Row) (rows : List Row)
      → find_key key rows ≡ none
      → row.public_key ≡ key
      → find_key key (rows ++ (row ∷ [])) ≡ some row
  unfolding find_key
  find_key-append key row [] h e = ground (arith, list_beq_iff row.public_key key)
  find_key-append key row (r ∷ rows) h e = ground (arith, find_key-append key row rows)

  pub find_key-append_old :
      (key : List ℕ) (row r : Row) (rows : List Row)
      → find_key key rows ≡ some r
      → find_key key (rows ++ (row ∷ [])) ≡ some r
  unfolding find_key
  find_key-append_old key row r [] h = cc
  find_key-append_old key row r (x ∷ rows) h = ground (arith, find_key-append_old key row r rows)

  pub find_key-append_ne :
      (key : List ℕ) (row : Row) (rows : List Row)
      → row.public_key ≢ key
      → find_key key (rows ++ (row ∷ [])) ≡ find_key key rows
  unfolding find_key
  find_key-append_ne key row [] h = ground (arith, list_beq_iff row.public_key key)
  find_key-append_ne key row (r ∷ rows) h = ground (arith, find_key-append_ne key row rows)

  parse_row-ne-missing : (row : Row) → parse_row row ≢ err node_not_found
  unfolding parse_row
  parse_row-ne-missing row e = ground arith

  -- `ErrNodeNotFound` says that no row has the key.
  pub get_node-missing :
      (key : PublicKey) (table : Table)
      → get_node answers key table ≡ err node_not_found
      → find_key (encode_to_string key) table.rows ≡ none
  unfolding get_node
  get_node-missing key table e = elim (Option-cases (find_key (encode_to_string key) table.rows)) [
    | inl missing ↦ missing
    | inr (row, found) ↦ absurd (parse_row-ne-missing row (ground (arith, found)))
  ]

  module _ (node : Node) (now : ℕ) (table : Table) where
    abbrev pub created : Node
    created = record node { created_at = now; updated_at = now; id = table.last_id + 1 }

    created-IsStored : IsStored node → IsStored created
    created-IsStored h = record {
      ip_valid = h.ip_valid;
      prefix_valid = h.prefix_valid;
      key_array = h.key_array;
    }

    -- A node created under a key that the table does not hold is what `GetNode` finds by that key.
    pub get_node-create_node :
        IsStored node
        → get_node answers node.node_key table ≡ err node_not_found
        → get_node answers node.node_key (create_node runs now node table).0
          ≡ (create_node runs now node table).1
    unfolding get_node create_node insert_row row_of
    get_node-create_node h missing = ground (
      arith,
      find_key-append (encode_to_string node.node_key) (row_of created) table.rows
          (get_node-missing node.node_key table missing) (unfold row_of in refl),
      parse_row-row_of created (created-IsStored h),
    )

    -- Creating a node does not change what `GetNode` finds by another key.
    pub get_node-create_node_ne :
        (exec : Exec) (key : PublicKey)
        → IsStored node
        → IsArray key.k
        → key ≢ node.node_key
        → get_node answers key (create_node exec now node table).0 ≡ get_node answers key table
    unfolding get_node create_node insert_row row_of
    get_node-create_node_ne refuses key h ha ne = refl
    get_node-create_node_ne _ key h ha ne = ground (
      arith,
      find_key-append_ne (encode_to_string key) (row_of created) table.rows (
          unfold row_of in
          λ e. ne (encode_to_string-injective key node.node_key ha h.key_array (sym e))),
    )

  parse_rows-append :
      (rows : List Row) (row : Row) (nodes : List Node) (node : Node)
      → parse_rows rows ≡ ok nodes
      → parse_row row ≡ ok node
      → parse_rows (rows ++ (row ∷ [])) ≡ ok (nodes ++ (node ∷ []))
  unfolding parse_rows
  parse_rows-append [] row nodes node e f = ground arith
  parse_rows-append (r ∷ rows) row [] node e f = ground arith
  parse_rows-append (r ∷ rows) row (n ∷ nodes) node e f =
      ground (arith, parse_rows-append rows row nodes node)

  -- Where every row parses, `GetNodes` lists the created node last.
  pub get_nodes-create_node :
      (node : Node) (now : ℕ) (table : Table) (nodes : List Node)
      → IsStored node
      → get_nodes answers table ≡ ok nodes
      → get_nodes answers (create_node runs now node table).0
        ≡ ok (nodes ++ (created node now table ∷ []))
  unfolding get_nodes create_node insert_row row_of
  get_nodes-create_node node now table nodes h e =
      parse_rows-append table.rows (row_of (created node now table)) nodes (created node now table)
        e (parse_row-row_of (created node now table) (created-IsStored node now table h))
