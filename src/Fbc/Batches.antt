-- ===== src/Fbc/Batches.antt =====
-- The batches of `batchWriter` (catalog/v1/fbc/internal/ingest.go) against the inserts one by one.
use library_olm.Prelude.{
  ◌≤◌, ◌<◌, length-append, arith, Option, none, some, List, [], ◌∷◌, ◌++◌, length, leb, ok, err,
  ◌>>=◌, Result-cases, is_err, is_ok, Bool-cases, inl, inr, ◌≡◌, refl, ap, sym, ◌∙◌,
}
use mathlib.Core.List.{append_assoc, append-nil}
use library_olm.Fbc.Staging.{Staging, RawError, Insert}
use library_olm.Fbc.Ingest.{batch_size, flush, batch_writer}

pub flush-append :
    (xs ys : List Insert) (st : Staging) → flush (xs ++ ys) st ≡ (flush xs st >>= flush ys)
unfolding flush
flush-append [] ys st = refl
flush-append (f ∷ fs) ys st = elim (Result-cases (f st)) [
  | is_err e h ↦ rw h refl
  | is_ok st' h ↦ rw h (flush-append fs ys st')
]

-- The rows are inserted in their order. Where one fails, those in front of its batch are, and it is
-- one of its batch, which has at most as many rows as a batch may.
abbrev pub IsBatched : List Insert → Staging → Staging × Option RawError → Type 0
IsBatched rows st (st', none) = flush rows st ≡ ok st'
IsBatched rows st (st', some e) =
    (front back rest : List Insert) × (rows ≡ front ++ (back ++ rest))
    × (flush front st ≡ ok st')
    × (flush back st' ≡ err e)
    × (length back ≤ batch_size)

-- Rows that were flushed come in front.
IsBatched-flush :
    (full rows : List Insert) (st st' : Staging) (r : Staging × Option RawError)
    → flush full st ≡ ok st'
    → IsBatched rows st' r
    → IsBatched (full ++ rows) st r
IsBatched-flush full rows st st' (st'', none) h k = flush-append full rows st ∙ (rw h k)
IsBatched-flush full rows st st' (st'', some e) h
      (front, back, rest, split_rows, first, failed, few) =
    (
      full ++ front,
      back,
      rest,
      ap (λ zs. full ++ zs) split_rows ∙ sym (append_assoc full front (back ++ rest)),
      flush-append full front st ∙ (rw h first),
      failed,
      few,
    )

batch_writer_from :
    (batch rows : List Insert) (st : Staging)
    → length batch < batch_size
    → IsBatched (batch ++ rows) st (batch_writer batch rows st)
unfolding batch_writer
batch_writer_from batch [] st few = elim (Result-cases (flush batch st)) [
  | is_err e h ↦ rw h ([], batch, [], refl, unfold flush in refl, h, omega arith)
  | is_ok st' h ↦ rw (h, append-nil batch) h
]
batch_writer_from batch (r ∷ rows) st few =
    rw (sym (append_assoc batch (r ∷ []) rows))
      (elim (Bool-cases (leb batch_size (length (batch ++ (r ∷ []))))) [
        | inl t ↦ elim (Result-cases (flush (batch ++ (r ∷ [])) st)) [
          | is_err e h ↦
              rw (t, h)
                (
                  [],
                  batch ++ (r ∷ []),
                  rows,
                  refl,
                  unfold flush in refl,
                  h,
                  omega (arith, length-append batch (r ∷ [])),
                )
          | is_ok st' h ↦
              rw (t, h)
                (IsBatched-flush (batch ++ (r ∷ [])) rows st st' _ h
                  (batch_writer_from [] rows st' (omega arith)))
        ]
        | inr t ↦ rw t (batch_writer_from (batch ++ (r ∷ [])) rows st (ground arith))
      ])

-- `batchWriter` writes the rows that it receives as if one by one: all of them, in their order, where
-- it returns no error. Where it does, a prefix of the rows is written, and the error is that of the
-- rows behind it, of which it loses with the failing one at most one batch.
pub batch_writer-IsBatched :
    (rows : List Insert) (st : Staging) → IsBatched rows st (batch_writer [] rows st)
batch_writer-IsBatched rows st = batch_writer_from [] rows st (omega arith)
