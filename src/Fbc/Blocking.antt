-- ===== src/Fbc/Blocking.antt =====
-- The runs of the walk beside `batchWriter` (catalog/v1/fbc/internal/ingest.go): what they write.
use mathlib.Core.List.{append_assoc, append-nil}
use library_olm.Prelude.{none, List, [], ◌∷◌, ◌++◌, length, ok, ◌≡◌, refl, ap, sym, ◌∙◌, arith}
use library_olm.Fbc.Staging.{Staging, Insert}
use library_olm.Fbc.Ingest.{flush}
use library_olm.Fbc.Batches.{flush-append}
use library_olm.Fbc.Pipeline.{
  stopped, Pipeline, Step, send, receive, fill, fail, finish, finish_failed, Reach, here, next,
  start, IsDone,
}

pub append-cancel {ℓ} :
    {A : Type ℓ} (xs ys zs ws : List A)
    → xs ++ ys ≡ zs ++ ws
    → length xs ≡ length zs
    → (xs ≡ zs) × (ys ≡ ws)
append-cancel [] ys [] ws h e = (refl, h)
append-cancel [] ys (z ∷ zs) ws h e = absurd (omega arith)
append-cancel (x ∷ xs) ys [] ws h e = absurd (omega arith)
append-cancel (x ∷ xs) ys (z ∷ zs) ws h e =
    let (same, rest) = append-cancel xs ys zs ws (cc) (omega arith) in
    let head : x ≡ z = cc in (cc, rest)

-- One row on from one list to the next.
pub shift {ℓ} : {A : Type ℓ} (xs ys : List A) (a : A) → (xs ++ (a ∷ [])) ++ ys ≡ xs ++ (a ∷ ys)
shift xs ys a = append_assoc xs (a ∷ []) ys

-- The first row of the channel goes into the batch.
pub taken :
    (s : Pipeline) (row : Insert) (rest : List Insert)
    → s.queue ≡ row ∷ rest
    → s.batch ++ (s.queue ++ s.unsent) ≡ (s.batch ++ (row ∷ [])) ++ (rest ++ s.unsent)
taken s row rest e =
    ap (λ zs. s.batch ++ (zs ++ s.unsent)) e ∙ sym (shift s.batch (rest ++ s.unsent) row)

module _ (rows : List Insert) (initial : Staging) where
  -- Until the writer has stopped for good, the rows are those written, those of the batch, those in
  -- the channel and those to send; what was flushed is in the database.
  record IsAccounted (s : Pipeline) : Type 0 where
    flushed_rows : List Insert
    in_database : flush flushed_rows initial ≡ ok s.staging
    all_rows : rows ≡ flushed_rows ++ (s.batch ++ (s.queue ++ s.unsent))
    none_left : s.writer ≡ stopped none → s.batch ++ (s.queue ++ s.unsent) ≡ []

  IsAccounted-start : IsAccounted (start rows initial)
  IsAccounted-start = record {
    flushed_rows = [];
    in_database = unfold flush in refl;
    all_rows = refl;
    none_left = λ h. cc;
  }

  IsAccounted-Step : {s t : Pipeline} → Step s t → IsAccounted s → IsAccounted t
  IsAccounted-Step (send s row rest e few) i = record {
    flushed_rows = i.flushed_rows;
    in_database = i.in_database;
    all_rows = i.all_rows ∙ ap (λ zs. i.flushed_rows ++ zs) same;
    none_left = λ h. sym same ∙ i.none_left h;
  }
    where
      same : s.batch ++ (s.queue ++ s.unsent) ≡ s.batch ++ ((s.queue ++ (row ∷ [])) ++ rest)
      same =
          ap (λ zs. s.batch ++ (s.queue ++ zs)) e
          ∙ ap (λ zs. s.batch ++ zs) (sym (shift s.queue rest row))
  IsAccounted-Step (receive s row rest r e few) i = record {
    flushed_rows = i.flushed_rows;
    in_database = i.in_database;
    all_rows = i.all_rows ∙ ap (λ zs. i.flushed_rows ++ zs) (taken s row rest e);
    none_left = λ h. cc;
  }
  IsAccounted-Step (fill s row rest st r e full ok_st) i = record {
    flushed_rows = i.flushed_rows ++ (s.batch ++ (row ∷ []));
    in_database = flush-append i.flushed_rows _ initial ∙ (rw i.in_database ok_st);
    all_rows =
        i.all_rows
        ∙ ap (λ zs. i.flushed_rows ++ zs) (taken s row rest e)
        ∙ sym (append_assoc i.flushed_rows (s.batch ++ (row ∷ [])) (rest ++ s.unsent));
    none_left = λ h. cc;
  }
  IsAccounted-Step (fail s row rest er r e full failed) i = record {
    flushed_rows = i.flushed_rows;
    in_database = i.in_database;
    all_rows = i.all_rows ∙ ap (λ zs. i.flushed_rows ++ zs) (taken s row rest e);
    none_left = λ h. cc;
  }
  IsAccounted-Step (finish s st r u q ok_st) i = record {
    flushed_rows = i.flushed_rows ++ s.batch;
    in_database = flush-append i.flushed_rows s.batch initial ∙ (rw i.in_database ok_st);
    all_rows = i.all_rows ∙ sym (append_assoc i.flushed_rows s.batch (s.queue ++ s.unsent));
    none_left = λ h. cc;
  }
  IsAccounted-Step (finish_failed s er r u q failed) i = record {
    flushed_rows = i.flushed_rows;
    in_database = i.in_database;
    all_rows = i.all_rows;
    none_left = λ h. cc;
  }

  IsAccounted-Reach : {s t : Pipeline} → Reach s t → IsAccounted s → IsAccounted t
  IsAccounted-Reach here i = i
  IsAccounted-Reach (next r st) i = IsAccounted-Step st (IsAccounted-Reach r i)

-- However the walk and the writer are interleaved, a run that returns without an error has inserted
-- all the rows in their order.
pub Reach-flush :
    (rows : List Insert) (initial : Staging) (s : Pipeline)
    → Reach (start rows initial) s
    → IsDone s none
    → flush rows initial ≡ ok s.staging
Reach-flush rows initial s r done =
    let i = IsAccounted-Reach rows initial r (IsAccounted-start rows initial) in
    let whole : rows ≡ i.flushed_rows =
      i.all_rows
      ∙ ap (λ zs. i.flushed_rows ++ zs) (i.none_left done.has_stopped)
      ∙ append-nil i.flushed_rows in
    ap (λ zs. flush zs initial) whole ∙ i.in_database
