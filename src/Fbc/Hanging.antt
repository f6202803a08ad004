-- ===== src/Fbc/Hanging.antt =====
-- The channel between the walk and `batchWriter` (catalog/v1/fbc/internal/ingest.go), once the writer
-- has returned and nobody receives.
use mathlib.Core.Path.{subst}
use library_olm.Prelude.{
  ◌+◌, ◌≤◌, ◌<◌, true, Option, none, some, List, [], ◌∷◌, ◌++◌, length, length-append, leb, ok, err,
  ◌≡◌, refl, ap, sym, ◌∙◌, arith,
}
use library_olm.Fbc.Staging.{Staging, RawError, Insert}
use library_olm.Fbc.Ingest.{batch_size, flush}
use library_olm.Fbc.Pipeline.{
  channel_capacity, Status, running, stopped, Pipeline, Step, send, receive, fill, fail, finish,
  finish_failed, Reach, here, next, start, IsDone,
}
use library_olm.Fbc.Blocking.{append-cancel, shift, taken}

module _ (front rest : List Insert) (initial : Staging) (e : RawError)
    (whole : length front ≡ batch_size) (fails : flush front initial ≡ err e)
    (many : channel_capacity < length rest) where
  -- Before the first flush the batch is a part of `front`; after it, `rest` is in the channel or
  -- unsent.
  abbrev Pending : Status → Pipeline → Type 0
  Pending running s =
      (s.batch ++ (s.queue ++ s.unsent) ≡ front ++ rest)
      × (length s.batch < batch_size)
      × (s.staging ≡ initial)
  Pending (stopped none) s = ⊥
  Pending (stopped (some f)) s = length rest ≤ length s.queue + length s.unsent

  record IsHanging (s : Pipeline) : Type 0 where
    room : length s.queue ≤ channel_capacity
    pending : Pending s.writer s

  start-IsHanging : IsHanging (start (front ++ rest) initial)
  start-IsHanging = record { room = omega arith; pending = (refl, omega arith, refl) }

  -- the batch that is flushed first
  first_batch :
      (s : Pipeline) (row : Insert) (more : List Insert)
      → s.queue ≡ row ∷ more
      → leb batch_size (length (s.batch ++ (row ∷ []))) ≡ true
      → Pending running s
      → ((s.batch ++ (row ∷ [])) ≡ front) × ((more ++ s.unsent) ≡ rest)
  first_batch s row more q full (same, short, i) =
      append-cancel (s.batch ++ (row ∷ [])) (more ++ s.unsent) front rest
        (sym (taken s row more q) ∙ same) (ground (arith, length-append s.batch (row ∷ [])))

  running-Pending : {s : Pipeline} → s.writer ≡ running → IsHanging s → Pending running s
  running-Pending {s} r h = subst (λ w. Pending w s) r h.pending

  -- The last batch would have all the rows.
  too_short : (s : Pipeline) → s.writer ≡ running → s.unsent ≡ [] → s.queue ≡ [] → IsHanging s → ⊥
  too_short s r u q h =
      let (same, short, _) = running-Pending r h in
      omega (
        arith,
        ap length same,
        length-append s.batch (s.queue ++ s.unsent),
        length-append s.queue s.unsent,
        length-append front rest,
        ap length u,
        ap length q,
      )

  send-Pending :
      (s : Pipeline) (row : Insert) (more : List Insert)
      → s.unsent ≡ row ∷ more
      → (w : Status) → Pending w s
      → Pending w (record s { unsent = more; queue = s.queue ++ (row ∷ []) })
  send-Pending s row more u running (same, short, i) = (
    ap (λ zs. s.batch ++ zs) (shift s.queue more row)
        ∙ ap (λ zs. s.batch ++ (s.queue ++ zs)) (sym u)
        ∙ same,
    short,
    i,
  )
  send-Pending s row more u (stopped none) p = absurd p
  send-Pending s row more u (stopped (some f)) p =
      omega (arith, ap length u, length-append s.queue (row ∷ []))

  Step-IsHanging : {s t : Pipeline} → Step s t → IsHanging s → IsHanging t
  Step-IsHanging (send s row more u few) h = record {
    room = omega (arith, length-append s.queue (row ∷ []));
    pending = send-Pending s row more u s.writer h.pending;
  }
  Step-IsHanging (receive s row more r q few) h =
      let (same, short, i) = running-Pending r h in
      let s' : Pipeline = record s { queue = more; batch = s.batch ++ (row ∷ []) } in
      record {
        room = omega (arith, h.room, ap length q);
        pending =
            subst (λ w. Pending w s') (sym r) (sym (taken s row more q) ∙ same, ground arith, i);
      }
  Step-IsHanging (fill s row more st r q full ok_st) h =
      let p = running-Pending r h in
      let (same, _) = first_batch s row more q full p in
      let wrong : flush front initial ≡ ok st =
        sym (ap (λ zs. flush zs initial) same)
        ∙ ap (λ x. flush (s.batch ++ (row ∷ [])) x) (sym p.2)
        ∙ ok_st in
      absurd (cc)
  Step-IsHanging (fail s row more er r q full failed) h =
      let (_, left) = first_batch s row more q full (running-Pending r h) in
      record {
        room = omega (arith, h.room, ap length q);
        pending = omega (arith, ap length left, length-append more s.unsent);
      }
  Step-IsHanging (finish s st r u q ok_st) h = absurd (too_short s r u q h)
  Step-IsHanging (finish_failed s er r u q failed) h = absurd (too_short s r u q h)

  Reach-IsHanging : {s t : Pipeline} → Reach s t → IsHanging s → IsHanging t
  Reach-IsHanging here h = h
  Reach-IsHanging (next r st) h = Step-IsHanging st (Reach-IsHanging r h)

  IsHanging-IsDone : (s : Pipeline) (o : Option RawError) → IsHanging s → ¬ IsDone s o
  IsHanging-IsDone s o h done = at o (subst (λ w. Pending w s) done.has_stopped h.pending)
    where
      at : (o : Option RawError) → Pending (stopped o) s → ⊥
      at none p = p
      at (some f) p = omega (arith, h.room, ap length done.all_sent)

-- Where the first 500 rows of a walk hold one whose insert fails, and more than 256 rows follow, no
-- run returns, neither with an error nor without: the writer has stopped, the channel is full, and
-- the walk waits to send.
pub Reach-never-IsDone :
    (front rest : List Insert) (initial : Staging) (e : RawError)
    → length front ≡ batch_size
    → flush front initial ≡ err e
    → channel_capacity < length rest
    → (s : Pipeline) (o : Option RawError) → Reach (start (front ++ rest) initial) s
    → ¬ IsDone s o
Reach-never-IsDone front rest initial e whole fails many s o r =
    IsHanging-IsDone front rest initial e whole fails many s o (
      Reach-IsHanging front rest initial e whole fails many r
        (start-IsHanging front rest initial e whole fails many))
