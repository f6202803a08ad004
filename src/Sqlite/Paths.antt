-- ===== src/Sqlite/Paths.antt =====
-- The paths of graphs as the keys that they are stored under (`graphPath`, catalog/v1/sqlite/content.go
-- and writer.go).
use library_olm.Prelude.{
  String, false, ◌||◌, List, [], ◌∷◌, Result, ok, >>=-eq-ok, guarded-eq-ok, All, has_char, join,
  split, split-join, ◌==◌, ◌≡◌, refl, ap, ◌∙◌, arith,
}
use library_olm.Sqlite.Tables.{WriteError}
use library_olm.Sqlite.Keys.{check_segments, graph_path, slash}

check_segments-eq-ok :
    (path : List String)
    → check_segments path ≡ ok tt
    → All (λ seg. has_char slash seg ≡ false) path
unfolding check_segments
check_segments-eq-ok [] h = tt
check_segments-eq-ok (seg ∷ path) h =
    let (good, rest) = guarded-eq-ok (seg == "" || has_char slash seg) _ (check_segments path) h in
    (ground arith, check_segments-eq-ok path rest)

-- A path is read back from the key that it is stored under, by splitting it.
pub split-graph_path :
    (seg : String) (path : List String) (key : String)
    → graph_path (seg ∷ path) ≡ ok key
    → split slash key ≡ seg ∷ path
unfolding graph_path
split-graph_path seg path key h =
    let (_, checked, e) = >>=-eq-ok (check_segments (seg ∷ path)) _ h in
    ap (λ k. split slash k) (key_of (ok (join slash (seg ∷ path))) refl e)
    ∙ split-join slash seg path (check_segments-eq-ok (seg ∷ path) checked)
  where
    key_of :
        (r : Result WriteError String)
        → r ≡ ok (join slash (seg ∷ path))
        → r ≡ ok key
        → key ≡ join slash (seg ∷ path)
    key_of r d e = cc
