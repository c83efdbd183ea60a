-- ===== src/Control/Database/Readable.antt =====
-- control/database/database.go: whatever the rows hold, a node that was read has a valid address
-- and a key of 32 bytes.
use netproject.Shared.{◌≡◌, List, [], ◌∷◌, true, arith, inl, inr}
use netproject.Shared.{ok, All, Option-cases, Outcome-cases}
use netproject.Netip.{NetText, is_valid}
use netproject.Keys.{IsArray, zero_key, decode_from_string}
use netproject.Keys.Decoded.{decode_from_string-IsArray}
use netproject.Control.Database.{
  Node, Row, Table, Query, answers, fails, parse_row, parse_rows, get_nodes,
}

pub record IsReadable (node : Node) : Type 0 where
  pub ip_valid : is_valid node.ip ≡ true
  pub key_array : IsArray node.node_key.k

zero_key-IsArray : IsArray zero_key.k
zero_key-IsArray = omega arith

module _ ⦃text : NetText⦄ where
  parse_row-IsReadable : (row : Row) (node : Node) → parse_row row ≡ ok node → IsReadable node
  unfolding parse_row
  parse_row-IsReadable row node e = elim (Option-cases (text.parse_addr row.ip)) [
    | inl f ↦ absurd (ground (arith, e, f))
    | inr (ip, f) ↦ elim (Option-cases (text.parse_prefix row.prefix)) [
      | inl g ↦ absurd (ground (arith, e, f, g))
      | inr (prefix, g) ↦ elim (Outcome-cases (decode_from_string zero_key row.public_key)) [
        | inl (key, k) ↦ record {
          ip_valid = ground (arith, e, f, g, k, text.parse_addr_valid row.ip ip f);
          key_array = ground (
            arith,
            e,
            f,
            g,
            k,
            decode_from_string-IsArray zero_key key row.public_key zero_key-IsArray k,
          );
        }
        | inr (inl (_, k)) ↦ absurd (ground (arith, e, f, g, k))
        | inr (inr k) ↦ absurd (ground (arith, e, f, g, k))
      ]
    ]
  ]

  parse_rows-IsReadable :
      (rows : List Row) (nodes : List Node) → parse_rows rows ≡ ok nodes → All IsReadable nodes
  unfolding parse_rows
  parse_rows-IsReadable [] nodes e = ground (arith, e)
  parse_rows-IsReadable (row ∷ rows) nodes e = elim (Outcome-cases (parse_row row)) [
    | inl (node, f) ↦ elim (Outcome-cases (parse_rows rows)) [
      | inl (rest, g) ↦
          ground
            (arith, e, f, g, parse_row-IsReadable row node f, parse_rows-IsReadable rows rest g)
      | inr (inl (_, g)) ↦ absurd (ground (arith, e, f, g))
      | inr (inr g) ↦ absurd (ground (arith, e, f, g))
    ]
    | inr (inl (_, f)) ↦ absurd (ground (arith, e, f))
    | inr (inr f) ↦ absurd (ground (arith, e, f))
  ]

  -- The nodes that `GetNodes` gives.
  pub get_nodes-IsReadable :
      (query : Query) (table : Table) (nodes : List Node)
      → get_nodes query table ≡ ok nodes
      → All IsReadable nodes
  unfolding get_nodes
  get_nodes-IsReadable answers table nodes e = parse_rows-IsReadable table.rows nodes e
  get_nodes-IsReadable fails table nodes e = absurd (ground (arith, e))
