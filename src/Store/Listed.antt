-- ===== src/Store/Listed.antt =====
-- What `list_live` of src/store.rs lists.
use braird_core.Prelude.{
  String, pos, negsuc, ◌≡◌, ◌≢◌, sym, subst, none, some, List, [], ◌∷◌, map, filter, sort_by_key,
  All, All-map, All-filter, arith, Option-cases, inl, inr, ◌&&◌, str_eq, eq_iff, Bool-cases,
}
use braird_core.Prelude.Maps
use braird_core.Prelude.Pairs.{
  Pairwise, Pairwise-filter, Pairwise-sort_by_key, All-sort_by_key, All-insert,
}
use braird_core.Json
use braird_core.Json.{Map, Serde, str}
use braird_core.Store.Schema.{TableSchema, table_schema}
use braird_core.Store.Cells.{read_cells}
use braird_core.Store.State.{ok, Store, get_row, schema_or_err}
use braird_core.Store.Keyed.{IsKeyed}
use braird_core.Store.Listing.{
  Scan, is_live, matches_column, created_key, backwards, skip_rows, page_of, keyed_rows,
  keyless_rows, list_live,
}

All-backwards {ℓ κ} :
    {A : Type ℓ} (P : A → Type κ) (done xs : List A)
    → All P done
    → All P xs
    → All P (backwards done xs)
unfolding backwards
All-backwards P done [] d h = d
All-backwards P done (x ∷ xs) d h = All-backwards P (x ∷ done) xs (h.0, d) h.1

-- The rows of different ids
abbrev pub Differ : Map → Map → Type 0
Differ p q = Json.get "id" p ≢ Json.get "id" q

Differ-sym : (p q : Map) → Differ p q → Differ q p
Differ-sym p q d e = d (sym e)

backwards-Differ :
    (done xs : List Map)
    → Pairwise Differ done
    → Pairwise Differ xs
    → All (λ x. All (Differ x) done) xs
    → Pairwise Differ (backwards done xs)
unfolding backwards
backwards-Differ done [] d h a = d
backwards-Differ done (x ∷ xs) d h a = backwards-Differ (x ∷ done) xs (a.0, d) h.1 (both xs h.0 a.1)
  where
    both :
        (ys : List Map)
        → All (Differ x) ys
        → All (λ y. All (Differ y) done) ys
        → All (λ y. All (Differ y) (x ∷ done)) ys
    both [] h a = tt
    both (y ∷ ys) h a = ((Differ-sym x y h.0, a.0), both ys h.1 a.1)

module _ {Text : Type 0} ⦃serde : Serde Text⦄ (s : Store Text) (table : String)
    (schema : TableSchema) where
  -- An entry that `get_row` reads.
  abbrev IsRead : String × Map → Type 0
  IsRead (id, row) = get_row s table id ≡ ok (some row)

  module _ (found : table_schema table ≡ some schema) where
    keyed_rows-IsRead : (ids : List String) → All IsRead (keyed_rows s schema ids)
    unfolding keyed_rows
    keyed_rows-IsRead [] = tt
    keyed_rows-IsRead (id ∷ ids) = elim (Option-cases (s.rows schema.name id)) [
      | inl e ↦ rw (e, keyed_rows) (keyed_rows-IsRead ids)
      | inr (cells, e) ↦
          rw (e, keyed_rows)
            (All-insert IsRead id (read_cells schema.columns cells) (keyed_rows s schema ids)
              (unfold get_row schema_or_err in ground arith) (keyed_rows-IsRead ids))
    ]

  keyed_rows-IsDistinct : (ids : List String) → Maps.IsDistinct (keyed_rows s schema ids)
  unfolding keyed_rows
  keyed_rows-IsDistinct [] = tt
  keyed_rows-IsDistinct (id ∷ ids) = elim (Option-cases (s.rows schema.name id)) [
    | inl e ↦ rw (e, keyed_rows) (keyed_rows-IsDistinct ids)
    | inr (cells, e) ↦
        rw (e, keyed_rows)
          (Maps.insert-IsDistinct id (read_cells schema.columns cells) (keyed_rows s schema ids)
            (keyed_rows-IsDistinct ids))
  ]

-- A key of a map, and the row of an entry that carries it.
abbrev Labelled : String × Map → Type 0
Labelled (id, row) = Json.get "id" row ≡ some (str id)

lookup-Differ :
    (id : String) (row : Map) (m : List (String × Map))
    → Labelled (id, row)
    → All Labelled m
    → Maps.lookup id m ≡ none
    → All (Differ row) (map (λ entry. entry.1) m)
unfolding Maps.lookup
lookup-Differ id row [] l h e = tt
lookup-Differ id row ((j, other) ∷ m) l h e = elim (Bool-cases (str_eq j id)) [
  | inl same ↦ absurd (ground arith)
  | inr apart ↦ (
    λ same. absurd (ground (arith, h.0, eq_iff j id)),
    lookup-Differ id row m l h.1 (ground arith),
  )
]

map-Differ :
    (m : List (String × Map))
    → All Labelled m
    → Maps.IsDistinct m
    → Pairwise Differ (map (λ entry. entry.1) m)
map-Differ [] h d = tt
map-Differ ((id, row) ∷ m) h d = (lookup-Differ id row m h.0 h.1 d.0, map-Differ m h.1 d.1)

All-rows :
    (P : Map → Type 0) (m : List (String × Map))
    → All (λ entry. P entry.1) m
    → All P (map (λ entry. entry.1) m)
All-rows P [] h = tt
All-rows P (entry ∷ m) h = (h.0, All-rows P m h.1)

-- A row of the store, with its key.
pub record IsListed {Text : Type 0} ⦃serde : Serde Text⦄ (s : Store Text) (table : String)
    (row : Map) : Type 0 where
  pub id : String
  pub key : Json.get "id" row ≡ some (str id)
  pub stored : get_row s table id ≡ ok (some row)

module _ {Text : Type 0} ⦃serde : Serde Text⦄ (scan : Scan Text) (s : Store Text) (table : String)
    (schema : TableSchema) (found : table_schema table ≡ some schema) (pk : schema.pk ≡ "id")
    (keyed : IsKeyed s) (none_keyless : s.keyless ≡ []) where
  entry-Labelled : (entry : String × Map) → IsRead s table schema entry → Labelled entry
  entry-Labelled (id, row) read = ground (arith, pk, keyed table schema id row found read)

  entry-IsListed : (entry : String × Map) → IsRead s table schema entry → IsListed s table entry.1
  entry-IsListed (id, row) read = record {
    id = id;
    key = entry-Labelled (id, row) read;
    stored = read;
  }

  rows : List (String × Map)
  rows = keyed_rows s schema (scan s schema.name)

  selected : List Map
  selected = filter (λ row. is_live row && matches_column none row) (map (λ entry. entry.1) rows)

  listing : List Map
  listing = backwards [] (sort_by_key created_key selected)

  list_live-listing :
      {notes : List Map}
      → list_live scan s table none (negsuc 0) (pos 0) ≡ ok notes
      → notes ≡ listing
  unfolding list_live schema_or_err page_of skip_rows keyless_rows listing selected rows
  list_live-listing h = ground arith

  selected-Differ : Pairwise Differ selected
  unfolding selected rows
  selected-Differ =
      let read = keyed_rows-IsRead s table schema found (scan s schema.name) in
      Pairwise-filter Differ _ (map (λ entry. entry.1) rows) (
        map-Differ rows (All-map rows entry-Labelled read)
          (keyed_rows-IsDistinct s table schema (scan s schema.name)))

  selected-IsListed : All (IsListed s table) selected
  unfolding selected rows
  selected-IsListed = All-filter (IsListed s table) _ (map (λ entry. entry.1) rows) (
      All-rows (IsListed s table) rows
        (All-map rows entry-IsListed (keyed_rows-IsRead s table schema found (scan s schema.name))))

  -- Every listed row is a row of the store, and no two have the same id.
  pub list_live-IsListed :
      {notes : List Map}
      → list_live scan s table none (negsuc 0) (pos 0) ≡ ok notes
      → All (IsListed s table) notes × Pairwise Differ notes
  unfolding listing
  list_live-IsListed h =
      let same = list_live-listing h in
      let listed = All-sort_by_key (IsListed s table) created_key selected selected-IsListed in
      (
        subst (All (IsListed s table)) (sym same)
            (All-backwards (IsListed s table) [] (sort_by_key created_key selected) tt listed),
        subst (Pairwise Differ) (sym same) (
            backwards-Differ [] (sort_by_key created_key selected) tt
              (Pairwise-sort_by_key Differ Differ-sym created_key selected selected-Differ)
              (All-map (sort_by_key created_key selected) (λ x l. tt) listed)),
      )
