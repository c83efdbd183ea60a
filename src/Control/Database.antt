-- ===== src/Control/Database.antt =====
-- control/database/database.go and control/internal/models/models.go: the table of nodes.
-- A table is its rows, oldest first, with the largest id that was ever given, from which
-- AUTOINCREMENT counts on. What the driver answers is an argument of each operation, and so is
-- the time that it reads. The columns keep a time as it was written.
pub mod Laws
pub mod Lifecycle
pub mod Readable
pub mod Connection
pub mod Tests
use netproject.Shared.{ℕ, ◌+◌, List, [], ◌∷◌, ◌++◌, Bool, true, false, Option, none, some}
use netproject.Shared.{Outcome, ok, err, panic, ◌>>=◌, ◌==◌, nat_eq, list_eq, if◌then◌else◌}
use netproject.Netip.{Addr, Prefix, NetText}
use netproject.Keys.{PublicKey, encode_to_string, decode_from_string, zero_key}

-- models.Node
pub record Node : Type 0 where
  pub id : ℕ
  pub ip : Addr
  pub prefix : Prefix
  pub node_key : PublicKey
  pub node_key_expiry : ℕ
  pub created_at : ℕ
  pub updated_at : ℕ

pub record Row : Type 0 where
  pub id : ℕ
  pub ip : List ℕ
  pub prefix : List ℕ
  pub public_key : List ℕ
  pub key_expiry : ℕ
  pub created_at : ℕ
  pub updated_at : ℕ

pub record Table : Type 0 where
  pub rows : List Row
  pub last_id : ℕ

-- `createTables` on a new database.
unfoldable pub new_table : Table
new_table = record { rows = []; last_id = 0 }

-- How the driver answers a statement: it runs it, refuses it, or runs it and has no answer to
-- `LastInsertId` or `RowsAffected`.
pub data Exec : Type 0 where
  runs refuses no_result : Exec

-- How the driver answers a query.
pub data Query : Type 0 where
  answers fails : Query

pub data DbError : Type 0 where
  node_not_found scan_failed bad_ip bad_prefix bad_key query_failed : DbError
  create_failed no_insert_id update_failed delete_failed no_row_count no_such_id : DbError

module _ ⦃text : NetText⦄ where
  open text use {addr_text, parse_addr, prefix_text, parse_prefix}

  abbrev or_fail : {A : Type 0} → Option A → DbError → Outcome DbError A
  or_fail none e = err e
  or_fail (some a) e = ok a

  abbrev key_of : List ℕ → Outcome DbError PublicKey
  key_of s = elim (decode_from_string zero_key s) [
    | ok key ↦ ok key
    | err _ ↦ err bad_key
    | panic ↦ panic
  ]

  -- A scanned row, parsed; shared by `GetNode` and the loop of `GetNodes`.
  unfoldable pub parse_row : Row → Outcome DbError Node
  parse_row row = do
    ip ← or_fail (parse_addr row.ip) bad_ip
    prefix ← or_fail (parse_prefix row.prefix) bad_prefix
    key ← key_of row.public_key
    ok (record {
      id = row.id;
      ip = ip;
      prefix = prefix;
      node_key = key;
      node_key_expiry = row.key_expiry;
      created_at = row.created_at;
      updated_at = row.updated_at;
    })

  -- SELECT … WHERE public_key = ?, the first row.
  unfoldable pub find_key : List ℕ → List Row → Option Row
  find_key key [] = none
  find_key key (row ∷ rows) = if row.public_key == key then some row else find_key key rows

  unfoldable pub get_node : Query → PublicKey → Table → Outcome DbError Node
  get_node fails key table = err scan_failed
  get_node answers key table = do
    row ← or_fail (find_key (encode_to_string key) table.rows) node_not_found
    parse_row row

  -- The loop of `GetNodes`.
  unfoldable pub parse_rows : List Row → Outcome DbError (List Node)
  parse_rows [] = ok []
  parse_rows (row ∷ rows) =
      let rest = parse_rows rows in do node ← parse_row row; nodes ← rest; ok (node ∷ nodes)

  unfoldable pub get_nodes : Query → Table → Outcome DbError (List Node)
  get_nodes fails table = err query_failed
  get_nodes answers table = parse_rows table.rows

  -- The row that INSERT and UPDATE write for a node.
  unfoldable pub row_of : Node → Row
  row_of node = record {
    id = node.id;
    ip = addr_text node.ip;
    prefix = prefix_text node.prefix;
    public_key = encode_to_string node.node_key;
    key_expiry = node.node_key_expiry;
    created_at = node.created_at;
    updated_at = node.updated_at;
  }

  -- INSERT under the next id.
  unfoldable pub insert_row : Row → Table → Table
  insert_row row table = record {
    rows = table.rows ++ (record row { id = table.last_id + 1 } ∷ []);
    last_id = table.last_id + 1;
  }

  unfoldable pub create_node : Exec → ℕ → Node → Table → Table × Outcome DbError Node
  create_node refuses now node table = (table, err create_failed)
  create_node no_result now node table = (
    insert_row (row_of (record node { created_at = now; updated_at = now })) table,
    err no_insert_id,
  )
  create_node runs now node table = (
    insert_row (row_of (record node { created_at = now; updated_at = now })) table,
    ok (record node { created_at = now; updated_at = now; id = table.last_id + 1 }),
  )

  -- UPDATE … WHERE id = ?: `created_at` stays.
  unfoldable pub update_rows : Row → List Row → List Row
  update_rows new [] = []
  update_rows new (row ∷ rows) =
      (if row.id == new.id then record new { created_at = row.created_at } else row)
      ∷ update_rows new rows

  -- How many rows a WHERE id = ? touches.
  unfoldable pub count_id : ℕ → List Row → ℕ
  count_id id [] = 0
  count_id id (row ∷ rows) = if row.id == id then count_id id rows + 1 else count_id id rows

  unfoldable pub affected : Exec → ℕ → Outcome DbError (Unit {0})
  affected no_result n = err no_row_count
  affected _ n = if n == 0 then err no_such_id else ok tt

  unfoldable pub update_node : Exec → ℕ → Node → Table → Table × Outcome DbError (Unit {0})
  unfolding affected
  update_node refuses now node table = (table, err update_failed)
  update_node exec now node table = (
    record table { rows = update_rows (row_of (record node { updated_at = now })) table.rows },
    affected exec (count_id node.id table.rows),
  )

  -- DELETE … WHERE id = ?.
  unfoldable pub delete_rows : ℕ → List Row → List Row
  delete_rows id [] = []
  delete_rows id (row ∷ rows) =
      if row.id == id then delete_rows id rows else row ∷ delete_rows id rows

  unfoldable pub delete_node : Exec → ℕ → Table → Table × Outcome DbError (Unit {0})
  unfolding affected
  delete_node refuses id table = (table, err delete_failed)
  delete_node exec id table =
      (record table { rows = delete_rows id table.rows }, affected exec (count_id id table.rows))
