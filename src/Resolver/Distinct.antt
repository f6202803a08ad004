-- ===== src/Resolver/Distinct.antt =====
-- What `collectBundles` gathers from the graphs' iterators.
use library_olm.Prelude.{
  String, ◌≡◌, refl, sym, ap, ◌∙◌, ◌||◌, Option, none, some, List, [], ◌∷◌, ◌++◌, map, Result, ok,
  err, ◌>>=◌, contains, contains-append, IsDistinct, All, All-append, IsDistinct-append, arith,
  eq_iff, ◌==◌, Bool-cases, inl, inr,
}
use mathlib.Core.Path.{fun_ext}
use library_olm.Bundle.{SemVer, Bundle}
use library_olm.Catalog.{Catalogs, BundleIdentity}
use library_olm.Resolver.Collect.{
  Collected, add_bundle, collect_seq, sequence, collect_graphs, collect_bundles,
}

module _ (v : SemVer) where
  abbrev pub ids : List (Bundle v) → List String
  ids bs = map (λ (b : Bundle v). b.id) bs

  -- The loop's state: `seen` holds the ids of `result`, where no id stands twice.
  record IsCollected (s : Collected v) : Type 0 where
    seen_iff : (i : String) → contains s.seen i ≡ contains (ids s.result) i
    distinct : IsDistinct (ids s.result)

  ids-append : (xs : List (Bundle v)) (b : Bundle v) → ids (xs ++ (b ∷ [])) ≡ ids xs ++ (b.id ∷ [])
  ids-append [] b = refl
  ids-append (x ∷ xs) b = ap (λ is. x.id ∷ is) (ids-append xs b)

  contains-ids-append :
      (xs : List (Bundle v)) (b : Bundle v) (i : String)
      → contains (ids (xs ++ (b ∷ []))) i ≡ (b.id == i || contains (ids xs) i)
  contains-ids-append xs b i =
      rw (ids-append xs b, contains-append (ids xs) (b.id ∷ []) i) (unfold contains in ground arith)

  module _ (b : Bundle v) (s : Collected v) (h : IsCollected s) where
    add_bundle-contains :
        (i : String)
        → contains (ids (add_bundle v b s).result) i ≡ (b.id == i || contains (ids s.result) i)
    unfolding add_bundle
    add_bundle-contains i = elim (Bool-cases (contains s.seen b.id)) [
      | inl old ↦ rw old (ground (arith, h.seen_iff b.id, eq_iff b.id i))
      | inr new ↦ rw new (contains-ids-append s.result b i)
    ]

    add_bundle-IsCollected : IsCollected (add_bundle v b s)
    unfolding add_bundle
    add_bundle-IsCollected = elim (Bool-cases (contains s.seen b.id)) [
      | inl old ↦ rw old h
      | inr new ↦ rw new (record {
        seen_iff =
            λ i. rw (contains-ids-append s.result b i, ← h.seen_iff i) (unfold contains in refl);
        distinct =
            rw (ids-append s.result b)
              (IsDistinct-append (ids s.result) b.id h.distinct (sym (h.seen_iff b.id) ∙ new));
      })
    ]

  add_bundle-All :
      (P : Bundle v → Type 0) (b : Bundle v) (s : Collected v)
      → P b
      → All P s.result
      → All P (add_bundle v b s).result
  unfolding add_bundle
  add_bundle-All P b s h k = elim (Bool-cases (contains s.seen b.id)) [
    | inl old ↦ rw old k
    | inr new ↦ rw new (All-append P s.result (b ∷ []) k (h, tt))
  ]

module _ (v : SemVer) (c : Catalogs v) where
  open c use {Graph, Error}

  -- The bundles among the yields of an iterator, and its first error.
  unfoldable pub yielded : List (Result Error (Bundle v)) → List (Bundle v)
  yielded [] = []
  yielded (ok b ∷ seq) = b ∷ yielded seq
  yielded (err e ∷ seq) = yielded seq

  unfoldable pub first_error : List (Result Error (Bundle v)) → Option Error
  first_error [] = none
  first_error (ok b ∷ seq) = first_error seq
  first_error (err e ∷ seq) = some e

  -- The yields of the graphs' iterators, one behind the other.
  unfoldable pub sequences : Option (BundleIdentity v) → List Graph → List (Result Error (Bundle v))
  sequences from [] = []
  sequences from (g ∷ graphs) = sequence v c from g ++ sequences from graphs

  collect_seq-append :
      (xs ys : List (Result Error (Bundle v))) (s : Collected v)
      → collect_seq v c (xs ++ ys) s ≡ (collect_seq v c xs s >>= λ t. collect_seq v c ys t)
  unfolding collect_seq
  collect_seq-append [] ys s = refl
  collect_seq-append (ok b ∷ xs) ys s = collect_seq-append xs ys (add_bundle v b s)
  collect_seq-append (err e ∷ xs) ys s = refl

  collect_graphs-sequences :
      (from : Option (BundleIdentity v)) (graphs : List Graph) (s : Collected v)
      → collect_graphs v c from graphs s ≡ collect_seq v c (sequences from graphs) s
  unfolding collect_graphs sequences
  collect_graphs-sequences from [] s = unfold collect_seq in refl
  collect_graphs-sequences from (g ∷ graphs) s =
      ap (λ k. collect_seq v c (sequence v c from g) s >>= k)
        (fun_ext (λ t. collect_graphs-sequences from graphs t))
      ∙ sym (collect_seq-append (sequence v c from g) (sequences from graphs) s)

  collect_seq_error :
      (seq : List (Result Error (Bundle v))) (s : Collected v) (e : Error)
      → first_error seq ≡ some e
      → collect_seq v c seq s ≡ err e
  unfolding collect_seq first_error
  collect_seq_error [] s e h = cc
  collect_seq_error (ok b ∷ seq) s e h = collect_seq_error seq (add_bundle v b s) e h
  collect_seq_error (err x ∷ seq) s e h = cc

  -- What the inner loop has done when no yield is an error.
  record IsGathered (seq : List (Result Error (Bundle v))) (s t : Collected v) : Type 1 where
    collected : IsCollected v t
    same_ids :
        (i : String)
        → contains (ids v t.result) i
          ≡ (contains (ids v s.result) i || contains (ids v (yielded seq)) i)
    from_yields : (P : Bundle v → Type 0) → All P (yielded seq) → All P s.result → All P t.result

  collect_seq-IsGathered :
      (seq : List (Result Error (Bundle v))) (s : Collected v)
      → IsCollected v s
      → first_error seq ≡ none
      → (t : Collected v) × (collect_seq v c seq s ≡ ok t) × IsGathered seq s t
  unfolding collect_seq first_error yielded
  collect_seq-IsGathered [] s h k = (
    s,
    refl,
    record {
      collected = h;
      same_ids = λ i. unfold contains in ground arith;
      from_yields = λ P _ q. q;
    },
  )
  collect_seq-IsGathered (ok b ∷ seq) s h k =
      let (t, e, g) =
        collect_seq-IsGathered seq (add_bundle v b s) (add_bundle-IsCollected v b s h) k in
      (
        t,
        e,
        record {
          collected = g.collected;
          same_ids = λ i.
              g.same_ids i ∙ (rw (add_bundle-contains v b s h i) (unfold contains in ground arith));
          from_yields = λ P ps q. g.from_yields P ps.1 (add_bundle-All v P b s ps.0 q);
        },
      )
  collect_seq-IsGathered (err e ∷ seq) s h k = cc

  -- What `collectBundles` returns, if an error is among the yields and if not.
  pub record IsUnion (from : Option (BundleIdentity v)) (graphs : List Graph)
      (bundles : List (Bundle v)) : Type 1 where
    pub distinct : IsDistinct (ids v bundles)
    pub same_ids :
        (i : String)
        → contains (ids v bundles) i ≡ contains (ids v (yielded (sequences from graphs))) i
    pub from_yields :
        (P : Bundle v → Type 0) → All P (yielded (sequences from graphs)) → All P bundles

  -- An error of an iterator is returned, the first one met; and where no iterator yields one, the
  -- bundles are returned with no id twice, with the ids of all that the iterators yield, and
  -- nothing but bundles that they yield.
  pub collect_bundles_lem :
      (graphs : List Graph) (from : Option (BundleIdentity v))
      → ((e : Error)
          → first_error (sequences from graphs) ≡ some e
          → collect_bundles v c graphs from ≡ err e)
        × (first_error (sequences from graphs) ≡ none
            → (bundles : List (Bundle v)) × (collect_bundles v c graphs from ≡ ok bundles)
              × IsUnion from graphs bundles)
  unfolding collect_bundles
  collect_bundles_lem graphs from = (
    λ e h.
        rw (collect_graphs-sequences from graphs, collect_seq_error (sequences from graphs) _ e h)
          refl,
    λ h.
        let (t, e, g) =
          collect_seq-IsGathered (sequences from graphs) (record { seen = []; result = [] })
            (record { seen_iff = λ i. refl; distinct = tt }) h in
        (
          t.result,
          rw (collect_graphs-sequences from graphs, e) refl,
          record {
            distinct = g.collected.distinct;
            same_ids = λ i. g.same_ids i ∙ (unfold contains in refl);
            from_yields = λ P ps. g.from_yields P ps tt;
          },
        ),
  )
