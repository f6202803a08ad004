-- ===== src/Sqlite/Joins.antt =====
-- The joins of catalog/v1/sqlite/query.go, with the rows in the order of the first table.
use library_olm.Prelude.{
  ℕ, String, Bool, true, false, ◌&&◌, not, Option, none, some, List, [], ◌∷◌, map, any, keep,
  sort_func, compare_strings, nat_eq, if◌then◌else◌, ◌==◌,
}
use library_olm.Sqlite.Tables.{
  BundleRow, GraphBundle, Successor, PredecessorRange, Database, query_row,
}

-- `JOIN content_bundles b ON b.id = …`
abbrev pub cons_row : Option BundleRow → List BundleRow → List BundleRow
cons_row none rows = rows
cons_row (some b) rows = b ∷ rows

abbrev pub row_of_id : Database → ℕ → Option BundleRow
row_of_id db id = query_row (λ (b : BundleRow). nat_eq b.id id) db.bundles

unfoldable pub join_bundles : Database → List ℕ → List BundleRow
unfolding query_row
join_bundles db [] = []
join_bundles db (id ∷ ids) = cons_row (row_of_id db id) (join_bundles db ids)

abbrev pub same_text : Option String → Option String → Bool
same_text none none = true
same_text none (some t) = false
same_text (some s) none = false
same_text (some s) (some t) = s == t

-- The columns that are selected are the same.
abbrev pub same_columns : BundleRow → BundleRow → Bool
same_columns b c =
    b.bundle_id == c.bundle_id
    && (b.package_name == c.package_name
        && (b.version == c.version
            && (b.release == c.release
                && (b.uri == c.uri && same_text b.deprecation_message c.deprecation_message))))

-- `SELECT DISTINCT`, of the rows behind those that are out
unfoldable pub distinct_rows : List BundleRow → List BundleRow → List BundleRow
distinct_rows out [] = []
distinct_rows out (b ∷ bs) =
    let rest = distinct_rows (b ∷ out) bs in
    let skipped = distinct_rows out bs in if any (same_columns b) out then skipped else b ∷ rest

abbrev pub in_graphs : (ℕ → Bool) → Database → List ℕ
in_graphs is_in db =
    map (λ (gb : GraphBundle). gb.bundle_id)
      (keep (λ (gb : GraphBundle). is_in gb.graph_id) db.graph_bundles)

abbrev pub by_bundle_id : List BundleRow → List BundleRow
by_bundle_id rows =
    sort_func (λ (b c : BundleRow). compare_strings b.bundle_id c.bundle_id)
      (keep (λ (b : BundleRow). not (b.version == "")) rows)

-- Both ids, for the rows with the explicit edges.
abbrev pub edge_targets : (ℕ → Bool) → Option ℕ → Database → List ℕ
edge_targets is_in none db = []
edge_targets is_in (some from) db =
    map (λ (s : Successor). s.to_bundle_id)
      (keep (λ (s : Successor). is_in s.graph_id && nat_eq s.from_bundle_id from) db.successors)

-- `JOIN content_bundles b ON b.id = pc.bundle_id`, with the range
abbrev pub cons_ranged :
    String → Option BundleRow → List (BundleRow × String) → List (BundleRow × String)
cons_ranged range none rows = rows
cons_ranged range (some b) rows = (b, range) ∷ rows

unfoldable pub join_ranges : Database → List PredecessorRange → List (BundleRow × String)
unfolding query_row
join_ranges db [] = []
join_ranges db (r ∷ rs) = cons_ranged r.version_range (row_of_id db r.bundle_id) (join_ranges db rs)
