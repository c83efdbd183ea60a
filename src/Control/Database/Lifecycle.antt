-- ===== src/Control/Database/Lifecycle.antt =====
-- control/database/database.go: ids over any sequence of inserts, updates and deletes, and what an
-- update or a delete changes.
use netproject.Shared.{
  inr, inl, Option-cases, ℕ, ◌+◌, ◌≤◌, ◌<◌, ◌≡◌, refl, List, [], ◌∷◌, ◌++◌, Option, none, some,
  arith,
}
use mathlib.Core.Option
use netproject.Shared.{ok, err, ◌==◌, nat_eq, if◌then◌else◌}
use netproject.Netip.{NetText}
use netproject.Control.Database.{
  Node, Row, Table, Exec, runs, refuses, no_such_id, row_of, insert_row, create_node, update_rows,
  update_node, delete_rows, delete_node, count_id, affected,
}

-- Ids rise strictly above `lo` along the rows, and stay within `hi`.
abbrev pub Ascending : ℕ → List Row → ℕ → Type 0
Ascending lo [] hi = lo ≤ hi
Ascending lo (row ∷ rows) hi = (lo < row.id) × Ascending row.id rows hi

abbrev pub IsTable : Table → Type 0
IsTable table = Ascending 0 table.rows table.last_id

Ascending-append :
    (lo : ℕ) (rows : List Row) (hi : ℕ) (row : Row)
    → Ascending lo rows hi
    → row.id ≡ hi + 1
    → Ascending lo (rows ++ (row ∷ [])) (hi + 1)
Ascending-append lo [] hi row h e = (omega (arith, e), omega (arith, e))
Ascending-append lo (r ∷ rows) hi row h e = (h.0, Ascending-append r.id rows hi row h.1 e)

Ascending-lower :
    (lo lo' : ℕ) (rows : List Row) (hi : ℕ)
    → lo' ≤ lo
    → Ascending lo rows hi
    → Ascending lo' rows hi
Ascending-lower lo lo' [] hi le h = omega arith
Ascending-lower lo lo' (r ∷ rows) hi le h = (omega arith, h.1)

Ascending-le : (lo : ℕ) (rows : List Row) (hi : ℕ) → Ascending lo rows hi → lo ≤ hi
Ascending-le lo [] hi h = h
Ascending-le lo (r ∷ rows) hi h = omega (arith, Ascending-le r.id rows hi h.1)

-- The statements that change the table, with the driver's answer and the clock.
pub data Change : Type 0 where
  create : Exec → ℕ → Node → Change
  update : Exec → ℕ → Node → Change
  remove : Exec → ℕ → Change

module _ ⦃text : NetText⦄ where
  -- The row with an id.
  unfoldable pub find_id : ℕ → List Row → Option Row
  find_id id [] = none
  find_id id (row ∷ rows) = if row.id == id then some row else find_id id rows

  update_rows-Ascending :
      (new : Row) (lo : ℕ) (rows : List Row) (hi : ℕ)
      → Ascending lo rows hi
      → Ascending lo (update_rows new rows) hi
  unfolding update_rows
  update_rows-Ascending new lo [] hi h = h
  update_rows-Ascending new lo (r ∷ rows) hi h =
      ground (arith, update_rows-Ascending new r.id rows hi h.1)

  delete_rows-Ascending :
      (id lo : ℕ) (rows : List Row) (hi : ℕ)
      → Ascending lo rows hi
      → Ascending lo (delete_rows id rows) hi
  unfolding delete_rows
  delete_rows-Ascending id lo [] hi h = h
  delete_rows-Ascending id lo (r ∷ rows) hi h = ground (
    arith,
    delete_rows-Ascending id r.id rows hi h.1,
    Ascending-lower r.id lo (delete_rows id rows) hi,
  )

  unfoldable pub apply : Change → Table → Table
  apply (create exec now node) table = (create_node exec now node table).0
  apply (update exec now node) table = (update_node exec now node table).0
  apply (remove exec id) table = (delete_node exec id table).0

  unfoldable pub apply_all : List Change → Table → Table
  unfolding apply
  apply_all [] table = table
  apply_all (c ∷ cs) table = apply_all cs (apply c table)

  apply-IsTable : (c : Change) (table : Table) → IsTable table → IsTable (apply c table)
  unfolding apply create_node update_node delete_node insert_row
  apply-IsTable (create refuses now node) table h = h
  apply-IsTable (create _ now node) table h = Ascending-append 0 table.rows table.last_id _ h refl
  apply-IsTable (update refuses now node) table h = h
  apply-IsTable (update _ now node) table h = update_rows-Ascending _ 0 table.rows table.last_id h
  apply-IsTable (remove refuses id) table h = h
  apply-IsTable (remove _ id) table h = delete_rows-Ascending id 0 table.rows table.last_id h

  -- Whatever statements run, and whatever the driver answers, the ids of the rows are positive,
  -- distinct and at most the largest id given.
  pub apply_all-IsTable :
      (cs : List Change) (table : Table) → IsTable table → IsTable (apply_all cs table)
  unfolding apply_all
  apply_all-IsTable [] table h = h
  apply_all-IsTable (c ∷ cs) table h =
      apply_all-IsTable cs (apply c table) (apply-IsTable c table h)

  find_id_above :
      (lo id : ℕ) (rows : List Row) (hi : ℕ)
      → Ascending lo rows hi
      → hi < id
      → find_id id rows ≡ none
  unfolding find_id
  find_id_above lo id [] hi h a = refl
  find_id_above lo id (r ∷ rows) hi h a =
      ground (arith, find_id_above r.id id rows hi h.1, Ascending-le r.id rows hi h.1)

  find_id_below :
      (lo id : ℕ) (rows : List Row) (hi : ℕ)
      → Ascending lo rows hi
      → id ≤ lo
      → find_id id rows ≡ none
  unfolding find_id
  find_id_below lo id [] hi h a = refl
  find_id_below lo id (r ∷ rows) hi h a = ground (arith, find_id_below r.id id rows hi h.1)

  find_id-append :
      (id : ℕ) (rows : List Row) (row : Row)
      → find_id id (rows ++ (row ∷ [])) ≡ elim (find_id id rows) [
        | some r ↦ some r
        | none ↦ if row.id == id then some row else none
      ]
  unfolding find_id
  find_id-append id [] row = refl
  find_id-append id (r ∷ rows) row = ground (arith, find_id-append id rows row)

  last_id-apply : (c : Change) (table : Table) → table.last_id ≤ (apply c table).last_id
  unfolding apply create_node update_node delete_node insert_row
  last_id-apply (create refuses now node) table = omega arith
  last_id-apply (create _ now node) table = omega arith
  last_id-apply (update refuses now node) table = omega arith
  last_id-apply (update _ now node) table = omega arith
  last_id-apply (remove refuses id) table = omega arith
  last_id-apply (remove _ id) table = omega arith

  last_id-apply_all :
      (cs : List Change) (table : Table) → table.last_id ≤ (apply_all cs table).last_id
  unfolding apply_all
  last_id-apply_all [] table = omega arith
  last_id-apply_all (c ∷ cs) table =
      omega (arith, last_id-apply c table, last_id-apply_all cs (apply c table))

  delete_rows-find_id :
      (id j : ℕ) (rows : List Row)
      → find_id j (delete_rows id rows) ≡ (if id == j then none else find_id j rows)
  unfolding find_id delete_rows
  delete_rows-find_id id j [] = ground arith
  delete_rows-find_id id j (r ∷ rows) = ground (arith, delete_rows-find_id id j rows)

  count_id-find_id : (id : ℕ) (rows : List Row) → find_id id rows ≡ none → count_id id rows ≡ 0
  unfolding find_id count_id
  count_id-find_id id [] h = refl
  count_id-find_id id (r ∷ rows) h = ground (arith, count_id-find_id id rows)

  count_id-pos :
      (id : ℕ) (rows : List Row) (r : Row) → find_id id rows ≡ some r → 0 < count_id id rows
  unfolding find_id count_id
  count_id-pos id [] r h = cc
  count_id-pos id (x ∷ rows) r h = ground (arith, count_id-pos id rows r)

  update_rows-find_id :
      (new : Row) (j : ℕ) (rows : List Row)
      → find_id j (update_rows new rows) ≡ (
          if new.id == j
          then Option.map (λ r. record new { created_at = r.created_at }) (find_id j rows)
          else find_id j rows)
  unfolding find_id update_rows
  update_rows-find_id new j [] = ground arith
  update_rows-find_id new j (r ∷ rows) = ground (arith, update_rows-find_id new j rows)

  apply-gone :
      (c : Change) (table : Table) (id : ℕ)
      → id ≤ table.last_id
      → find_id id table.rows ≡ none
      → find_id id (apply c table).rows ≡ none
  unfolding apply create_node update_node delete_node insert_row
  apply-gone (create refuses now node) table id le h = h
  apply-gone (create _ now node) table id le h = ground (
    arith,
    find_id-append id table.rows
        (record (row_of (record node { created_at = now; updated_at = now })) {
          id = table.last_id + 1;
        }),
  )
  apply-gone (update refuses now node) table id le h = h
  apply-gone (update _ now node) table id le h =
      ground (arith, update_rows-find_id (row_of (record node { updated_at = now })) id table.rows)
  apply-gone (remove refuses j) table id le h = h
  apply-gone (remove _ j) table id le h = ground (arith, delete_rows-find_id j id table.rows)

  -- An id that was given once and has no row any more never comes back.
  pub id_never_reused :
      (cs : List Change) (table : Table) (id : ℕ)
      → id ≤ table.last_id
      → find_id id table.rows ≡ none
      → find_id id (apply_all cs table).rows ≡ none
  unfolding apply_all
  id_never_reused [] table id le h = h
  id_never_reused (c ∷ cs) table id le h =
      id_never_reused cs (apply c table) id (omega (arith, last_id-apply c table))
        (apply-gone c table id le h)

  affected_lem :
      (id : ℕ) (rows : List Row)
      → affected runs (count_id id rows)
        ≡ elim (find_id id rows) [ none ↦ err no_such_id | some _ ↦ ok tt ]
  unfolding affected
  affected_lem id rows = elim (Option-cases (find_id id rows)) [
    | inl e ↦ rw e (ground (arith, count_id-find_id id rows e))
    | inr (r, e) ↦ rw e (ground (arith, count_id-pos id rows r e))
  ]

  -- `DeleteNode` that the driver runs: the rows of the id are gone and all others are as before,
  -- and the call reports an error exactly where there was no such row.
  delete_node_lem :
      (id : ℕ) (table : Table)
      → ((j : ℕ)
          → find_id j (delete_node runs id table).0.rows
            ≡ (if id == j then none else find_id j table.rows))
        × ((delete_node runs id table).1
            ≡ elim (find_id id table.rows) [ none ↦ err no_such_id | some _ ↦ ok tt ])
  unfolding delete_node
  delete_node_lem id table = (λ j. delete_rows-find_id id j table.rows, affected_lem id table.rows)

  -- `UpdateNode` that the driver runs: the row of the node's id holds the node with the new update
  -- time and its old creation time, all others are as before, and the call reports an error
  -- exactly where there was no such row.
  pub update_node_lem :
      (now : ℕ) (node : Node) (table : Table)
      → ((j : ℕ)
          → find_id j (update_node runs now node table).0.rows ≡ (
              if node.id == j
              then Option.map
                  (λ r. row_of (record node { created_at = r.created_at; updated_at = now }))
                  (find_id j table.rows)
              else find_id j table.rows))
        × ((update_node runs now node table).1
            ≡ elim (find_id node.id table.rows) [ none ↦ err no_such_id | some _ ↦ ok tt ])
  unfolding update_node row_of
  update_node_lem now node table = (
    λ j. update_rows-find_id (row_of (record node { updated_at = now })) j table.rows,
    affected_lem node.id table.rows,
  )
