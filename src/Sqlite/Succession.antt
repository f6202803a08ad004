-- ===== src/Sqlite/Succession.antt =====
-- Which bundles `querySuccessorsStreaming` (catalog/v1/sqlite/query.go) yields.
use library_olm.Prelude.{
  String, Bool, true, false, not, ◌&&◌, ◌||◌, Option, none, some, List, [], ◌∷◌, ◌++◌, map, any,
  All, contains, is_some, Result, ◌==◌, Bool-cases, ◌⊎◌, inl, inr, eq_iff, eq_refl, ◌≡◌, refl, ap,
  ◌∙◌, arith, if◌then◌else◌, IsDistinct,
}
use mathlib.Core.Logic.Or
use mathlib.Core.List.{Mem, mem-cons}
use mathlib.Core.Path.{subst}
use library_olm.Bundle.{SemVer, Bundle}
use library_olm.Sqlite.Tables.{Parsers, BundleRow}
use library_olm.Sqlite.Queries.{
  parse_bundle_row, stream_bundle_rows, explicit_ids, range_loop, query_successors_streaming,
}
use library_olm.Sqlite.Graphs.{QueryError}

abbrev pub has_bundle_id : String → BundleRow → Bool
has_bundle_id id b = b.bundle_id == id

module _ (v : SemVer) (p : Parsers v) (version : v.Version) where
  -- a range, as far as it parses, that the version is in
  abbrev pub holds_range : Option (v.Version → Bool) → Bool
  holds_range none = false
  holds_range (some matches) = matches version

  abbrev pub is_in_range : BundleRow × String → Bool
  is_in_range row = holds_range (p.parse_range row.1)

  -- a row of a range that the version is in
  abbrev pub IsOfRange : List (BundleRow × String) → BundleRow → Type 0
  IsOfRange ranged b = (range : String) × Mem (b, range) ranged × (is_in_range (b, range) ≡ true)

  IsOfRange-more :
      (row : BundleRow × String) (ranged : List (BundleRow × String)) (bs : List BundleRow)
      → All (IsOfRange ranged) bs
      → All (IsOfRange (row ∷ ranged)) bs
  IsOfRange-more row ranged [] h = tt
  IsOfRange-more row ranged (b ∷ bs) h =
      let (range, m, e) = h.0 in
      ((range, mem-cons.1 (Or.inr m), e), IsOfRange-more row ranged bs h.1)

  -- What the loop over the ranges yields, given the ids that it has seen.
  record IsRanged (ranged : List (BundleRow × String)) (seen : List String)
      (yielded : List (Result QueryError (Bundle v))) : Type 0 where
    rows : List BundleRow
    streamed : yielded ≡ stream_bundle_rows v p rows
    from_ranges : All (IsOfRange ranged) rows
    members :
        (id : String)
        → any (has_bundle_id id) rows ≡ (
            any (λ row. is_in_range row && has_bundle_id id row.0) ranged && not (contains seen id))
    distinct : IsDistinct (map (λ (b : BundleRow). b.bundle_id) rows)

  module _ (b : BundleRow) (range : String) (rows : List (BundleRow × String)) (seen : List String)
      (parses : is_some (p.parse_range range) ≡ true) where
    range_loop-seen :
        contains seen b.bundle_id ≡ true
        → range_loop v p version ((b, range) ∷ rows) seen ≡ range_loop v p version rows seen
    unfolding range_loop
    range_loop-seen e = rw e refl

    of_range :
        (o : Option (v.Version → Bool))
        → p.parse_range range ≡ o
        → contains seen b.bundle_id ≡ false
        → range_loop v p version ((b, range) ∷ rows) seen ≡ (
            if holds_range o
            then parse_bundle_row v p b ∷ range_loop v p version rows (b.bundle_id ∷ seen)
            else range_loop v p version rows seen)
    unfolding range_loop
    of_range none o e = absurd (ground arith)
    of_range (some matches) o e = rw (e, o) refl

    range_loop-new :
        contains seen b.bundle_id ≡ false
        → range_loop v p version ((b, range) ∷ rows) seen ≡ (
            if is_in_range (b, range)
            then parse_bundle_row v p b ∷ range_loop v p version rows (b.bundle_id ∷ seen)
            else range_loop v p version rows seen)
    range_loop-new e = of_range (p.parse_range range) refl e

  -- A row that is left out, as one whose id was seen or as one that is not in range.
  IsRanged-skip :
      (row : BundleRow × String) (rows : List (BundleRow × String)) (seen : List String)
      (yielded : List (Result QueryError (Bundle v)))
      → (contains seen row.0.bundle_id ≡ true ⊎ is_in_range row ≡ false)
      → IsRanged rows seen yielded
      → IsRanged (row ∷ rows) seen yielded
  IsRanged-skip row rows seen yielded why r = record {
    rows = r.rows;
    streamed = r.streamed;
    from_ranges = IsOfRange-more row rows r.rows r.from_ranges;
    members = λ id. r.members id ∙ out id why;
    distinct = r.distinct;
  }
    where
      left_out : (x y z : Bool) → (y && z) ≡ ((x && false || y) && z)
      left_out true y z = refl
      left_out false y z = refl

      out :
          (id : String)
          → (contains seen row.0.bundle_id ≡ true ⊎ is_in_range row ≡ false)
          → (any (λ x. is_in_range x && has_bundle_id id x.0) rows && not (contains seen id)) ≡ (
              any (λ x. is_in_range x && has_bundle_id id x.0) (row ∷ rows)
              && not (contains seen id))
      out id (inr e) = rw e refl
      out id (inl e) = elim (Bool-cases (row.0.bundle_id == id)) [
        | inl d ↦
            let known : contains seen id ≡ true =
              subst (λ x. contains seen x ≡ true) ((eq_iff row.0.bundle_id id).0 d) e in
            rw known (ground arith)
        | inr d ↦ rw d (left_out (is_in_range row) _ _)
      ]

  contains-ids :
      (bs : List BundleRow) (id : String)
      → contains (map (λ (b : BundleRow). b.bundle_id) bs) id ≡ any (has_bundle_id id) bs
  unfolding contains
  contains-ids [] id = refl
  contains-ids (b ∷ bs) id = ap (λ x. b.bundle_id == id || x) (contains-ids bs id)

  -- A row that is yielded.
  IsRanged-take :
      (row : BundleRow × String) (rows : List (BundleRow × String)) (seen : List String)
      (yielded : List (Result QueryError (Bundle v)))
      → contains seen row.0.bundle_id ≡ false
      → is_in_range row ≡ true
      → IsRanged rows (row.0.bundle_id ∷ seen) yielded
      → IsRanged (row ∷ rows) seen (parse_bundle_row v p row.0 ∷ yielded)
  unfolding stream_bundle_rows contains
  IsRanged-take row rows seen yielded fresh e r = record {
    rows = row.0 ∷ r.rows;
    streamed = ap (λ ys. parse_bundle_row v p row.0 ∷ ys) r.streamed;
    from_ranges =
        ((row.1, mem-cons.1 (Or.inl refl), e), IsOfRange-more row rows r.rows r.from_ranges);
    members = λ id. ap (λ x. row.0.bundle_id == id || x) (r.members id) ∙ also id;
    distinct = (
      contains-ids r.rows row.0.bundle_id
          ∙ r.members row.0.bundle_id
          ∙ (rw (eq_refl row.0.bundle_id) (and_false _)),
      r.distinct,
    );
  }
    where
      and_false : (x : Bool) → (x && false) ≡ false
      and_false true = refl
      and_false false = refl

      also :
          (id : String)
          → (row.0.bundle_id == id
              || (any (λ x. is_in_range x && has_bundle_id id x.0) rows
                  && not (row.0.bundle_id == id || contains seen id)))
            ≡ (any (λ x. is_in_range x && has_bundle_id id x.0) (row ∷ rows)
                && not (contains seen id))
      also id = elim (Bool-cases (row.0.bundle_id == id)) [
        | inl d ↦
            let unknown : contains seen id ≡ false =
              subst (λ x. contains seen x ≡ false) ((eq_iff row.0.bundle_id id).0 d) fresh in
            rw (d, e, unknown) refl
        | inr d ↦ rw (d, e) refl
      ]

  range_loop-IsRanged :
      (ranged : List (BundleRow × String)) (seen : List String)
      → All (λ row. is_some (p.parse_range row.1) ≡ true) ranged
      → IsRanged ranged seen (range_loop v p version ranged seen)
  range_loop-IsRanged [] seen h = record {
    rows = [];
    streamed = unfold range_loop stream_bundle_rows in refl;
    from_ranges = tt;
    members = λ id. refl;
    distinct = tt;
  }
  range_loop-IsRanged ((b, range) ∷ rows) seen h = elim (Bool-cases (contains seen b.bundle_id)) [
    | inl e ↦
        rw (range_loop-seen b range rows seen h.0 e)
          (IsRanged-skip (b, range) rows seen _ (inl e) (range_loop-IsRanged rows seen h.1))
    | inr e ↦ elim (Bool-cases (is_in_range (b, range))) [
      | inl d ↦
          rw (range_loop-new b range rows seen h.0 e, d)
            (IsRanged-take (b, range) rows seen _ e d
              (range_loop-IsRanged rows (b.bundle_id ∷ seen) h.1))
      | inr d ↦
          rw (range_loop-new b range rows seen h.0 e, d)
            (IsRanged-skip (b, range) rows seen _ (inr d) (range_loop-IsRanged rows seen h.1))
    ]
  ]

  contains-explicit_ids :
      (bs : List BundleRow) (seen : List String) (id : String)
      → contains (explicit_ids v p bs seen) id ≡ (any (has_bundle_id id) bs || contains seen id)
  unfolding explicit_ids contains
  contains-explicit_ids [] seen id = refl
  contains-explicit_ids (b ∷ bs) seen id =
      contains-explicit_ids bs (b.bundle_id ∷ seen) id
      ∙ or_swap (any (has_bundle_id id) bs) (b.bundle_id == id) (contains seen id)
    where
      or_swap : (x y z : Bool) → (x || (y || z)) ≡ ((y || x) || z)
      or_swap x y z = ground arith

-- Where all ranges parse, the successors are the bundles of the explicit rows and behind them those
-- of rows with a range that the version is in: one for each bundle id that such a row has and no
-- explicit row, and no id twice.
pub query_successors_streaming_lem :
    (v : SemVer) (p : Parsers v) (explicit : List BundleRow) (ranged : List (BundleRow × String))
    (version : v.Version)
    → All (λ (row : BundleRow × String). is_some (p.parse_range row.1) ≡ true) ranged
    → (rows : List BundleRow) × (query_successors_streaming v p explicit ranged version
        ≡ stream_bundle_rows v p explicit ++ stream_bundle_rows v p rows)
      × All (IsOfRange v p version ranged) rows
      × ((id : String)
          → any (has_bundle_id id) rows ≡ (
              any
                (λ (row : BundleRow × String).
                  is_in_range v p version row && has_bundle_id id row.0)
                ranged
              && not (any (has_bundle_id id) explicit)))
      × IsDistinct (map (λ (b : BundleRow). b.bundle_id) rows)
unfolding query_successors_streaming contains
query_successors_streaming_lem v p explicit ranged version h =
    let r = range_loop-IsRanged v p version ranged (explicit_ids v p explicit []) h in
    (
      r.rows,
      ap (λ ys. stream_bundle_rows v p explicit ++ ys) r.streamed,
      r.from_ranges,
      λ id.
          r.members id
          ∙ ap
              (λ x.
                any
                  (λ (row : BundleRow × String).
                    is_in_range v p version row && has_bundle_id id row.0)
                  ranged
                && not x)
              (contains-explicit_ids v p version explicit [] id ∙ or_nothing _),
      r.distinct,
    )
  where
    or_nothing : (x : Bool) → (x || false) ≡ x
    or_nothing true = refl
    or_nothing false = refl
