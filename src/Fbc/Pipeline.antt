-- ===== src/Fbc/Pipeline.antt =====
-- catalog/v1/fbc/internal/ingest.go: the walk and `batchWriter` run at once, with a channel between
-- them. A step is one of either side; the context is not cancelled.
use library_olm.Prelude.{
  ℕ, ◌<◌, ◌≡◌, true, false, Option, none, some, List, [], ◌∷◌, ◌++◌, length, leb, ok, err,
}
use library_olm.Fbc.Staging.{Staging, RawError, Insert}
use library_olm.Fbc.Ingest.{batch_size, flush}

-- the capacity of `rowCh`
abbrev pub channel_capacity : ℕ
channel_capacity = 256

pub data Status : Type 0 where
  running : Status
  stopped : Option RawError → Status

-- The rows that the walk has yet to send, those in the channel, the writer's batch and database.
pub record Pipeline : Type 0 where
  pub unsent : List Insert
  pub queue : List Insert
  pub batch : List Insert
  pub staging : Staging
  pub writer : Status

pub data Step : Pipeline → Pipeline → Type 0 where
  -- `rowCh <- row`
  send :
      (s : Pipeline) (row : Insert) (rest : List Insert)
      → s.unsent ≡ row ∷ rest
      → length s.queue < channel_capacity
      → Step s (record s { unsent = rest; queue = s.queue ++ (row ∷ []) })
  -- a row received into a batch that is not full
  receive :
      (s : Pipeline) (row : Insert) (rest : List Insert)
      → s.writer ≡ running
      → s.queue ≡ row ∷ rest
      → leb batch_size (length (s.batch ++ (row ∷ []))) ≡ false
      → Step s (record s { queue = rest; batch = s.batch ++ (row ∷ []) })
  -- a row that fills the batch, which is written
  fill :
      (s : Pipeline) (row : Insert) (rest : List Insert) (st : Staging)
      → s.writer ≡ running
      → s.queue ≡ row ∷ rest
      → leb batch_size (length (s.batch ++ (row ∷ []))) ≡ true
      → flush (s.batch ++ (row ∷ [])) s.staging ≡ ok st
      → Step s (record s { queue = rest; batch = []; staging = st })
  -- a row that fills the batch, whose transaction fails: the writer returns
  fail :
      (s : Pipeline) (row : Insert) (rest : List Insert) (e : RawError)
      → s.writer ≡ running
      → s.queue ≡ row ∷ rest
      → leb batch_size (length (s.batch ++ (row ∷ []))) ≡ true
      → flush (s.batch ++ (row ∷ [])) s.staging ≡ err e
      → Step s (record s { queue = rest; batch = s.batch ++ (row ∷ []); writer = stopped (some e) })
  -- the channel closed and empty: the last batch is written
  finish :
      (s : Pipeline) (st : Staging)
      → s.writer ≡ running
      → s.unsent ≡ []
      → s.queue ≡ []
      → flush s.batch s.staging ≡ ok st
      → Step s (record s { batch = []; staging = st; writer = stopped none })
  finish_failed :
      (s : Pipeline) (e : RawError)
      → s.writer ≡ running
      → s.unsent ≡ []
      → s.queue ≡ []
      → flush s.batch s.staging ≡ err e
      → Step s (record s { writer = stopped (some e) })

pub data Reach (s : Pipeline) : Pipeline → Type 0 where
  here : Reach s s
  next : {t u : Pipeline} → Reach s t → Step t u → Reach s u

abbrev pub start : List Insert → Staging → Pipeline
start rows st = record { unsent = rows; queue = []; batch = []; staging = st; writer = running }

-- `Ingest` returns once the walk has sent its rows and the writer has stopped.
pub record IsDone (s : Pipeline) (e : Option RawError) : Type 0 where
  pub all_sent : s.unsent ≡ []
  pub has_stopped : s.writer ≡ stopped e
