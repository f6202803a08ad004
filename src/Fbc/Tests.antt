-- ===== src/Fbc/Tests.antt =====
-- The theorems on catalog/v1/fbc at concrete blobs.
use mathlib.Core.List.{Perm}
use mathlib.Core.List.Perm
use library_olm.Prelude.{
  true, ◌∙◌, split, ℕ, zero, suc, String, none, List, [], ◌∷◌, ◌++◌, map, Map, ok, err, succeeds,
  ◌≡◌, refl, contains, any, keys, arith, join, has_char, keep,
}
use library_olm.Prelude.{IsDistinct, IsSorted}
use library_olm.Samples.{semver, parsers, declcfg, sample_channel}
use library_olm.Fbc.Staging.{Staging}
use library_olm.Fbc.Pipeline.{Pipeline}
use library_olm.Fbc.{
  key_violated, Insert, no_rows, insert_package, insert_channel, flush, batch_writer,
  channel_entries, package_bundles, package_channels, validate_package, merge_package_errors, send,
  receive, finish, Reach, here, next, start, IsDone, running, stopped, insert_entries, insert_entry,
}
use library_olm.Fbc.Validity.{validate_package_iff, is_valid_package}
use library_olm.Fbc.Accessor.{split_skips}
use library_olm.Fbc.Handler.{normalize_package}
use library_olm.Fbc.Calls.{recorder}
use library_olm.Fbc.Entries.{adds_edge}
use library_olm.Fbc.Updates.{normalize_package_lem, AreUpdates}
use library_olm.Fbc.Batches.{batch_writer-IsBatched, IsBatched}
use library_olm.Fbc.Blocking.{Reach-flush}
use library_olm.Fbc.Hanging.{Reach-never-IsDone}
use library_olm.Fbc.RoundTrip.{channel_entries-insert_channel, read_entry}
use library_olm.Fbc.Merging.{merge_package_errors_lem, package_of, by_package}

abbrev sample_staging : Staging
sample_staging = record no_rows {
  packages = record { package_name = "p"; ext_data = none } ∷ [];
  channels = record { name = "stable"; package_name = "p"; ext_data = none } ∷ [];
  entries =
      record {
        channel_name = "stable";
        package_name = "p";
        bundle_name = "p.v1";
        replaces = "p.v0";
        skips = "p.a,p.b";
        skip_range = "1";
      }
      ∷ [];
  bundles =
      record {
        name = "p.v1";
        package_name = "p";
        version = "1";
        release = "";
        image = "r/p:v1";
        ext_data = none;
      }
      ∷ [];
}

validate_package_iff_example :
    succeeds (validate_package semver parsers declcfg String String sample_staging "p")
    ≡ is_valid_package semver parsers declcfg String String
        (package_bundles semver parsers sample_staging "p")
        (package_channels semver parsers sample_staging "p")
validate_package_iff_example =
    validate_package_iff semver parsers declcfg String String sample_staging "p"

normalize_package_lem_example :
    AreUpdates semver parsers declcfg String String sample_staging "p"
      (normalize_package semver parsers declcfg String String
        (recorder String String)
        sample_staging
        "p"
        []).0
normalize_package_lem_example =
    normalize_package_lem semver parsers declcfg String String sample_staging "p"

-- That package is valid, and its one entry makes three edges.
edges_of_sample :
    any
      (adds_edge ("p" ∷ "stable" ∷ []) "p.b" "p.v1")
      (normalize_package semver parsers declcfg String String
        (recorder String String)
        sample_staging
        "p"
        []).0
    ≡ true
edges_of_sample =
    (normalize_package_lem semver parsers declcfg String String sample_staging "p").edges_added
      ("p" ∷ "stable" ∷ []) "p.b" "p.v1"
    ∙ (unfold package_bundles package_channels channel_entries split_skips split keep contains in
        refl)

abbrev sample_rows : List Insert
sample_rows = insert_package "p" none ∷ insert_package "q" none ∷ []

batch_writer-IsBatched_example : IsBatched sample_rows no_rows (batch_writer [] sample_rows no_rows)
batch_writer-IsBatched_example = batch_writer-IsBatched sample_rows no_rows

abbrev sample_run : List Insert
sample_run = insert_package "p" none ∷ []

abbrev one_package : Staging
one_package = record no_rows { packages = record { package_name = "p"; ext_data = none } ∷ [] }

abbrev sent : Pipeline
sent = record { unsent = []; queue = sample_run; batch = []; staging = no_rows; writer = running }

abbrev received : Pipeline
received = record {
  unsent = [];
  queue = [];
  batch = sample_run;
  staging = no_rows;
  writer = running;
}

abbrev finished : Pipeline
finished = record {
  unsent = [];
  queue = [];
  batch = [];
  staging = one_package;
  writer = stopped none;
}

-- The row is sent, received and written with the last batch.
sample-Reach : Reach (start sample_run no_rows) finished
unfolding flush insert_package
sample-Reach =
    next
      (next
        (next here
          (send (start sample_run no_rows) (insert_package "p" none) [] refl (omega arith)))
        (receive sent (insert_package "p" none) [] refl refl refl))
      (finish received one_package refl refl refl refl)

Reach-flush_example : flush sample_run no_rows ≡ ok one_package
Reach-flush_example =
    Reach-flush sample_run no_rows finished sample-Reach
      (record { all_sent = refl; has_stopped = refl })

abbrev same_rows : ℕ → List Insert
same_rows zero = []
same_rows (suc n) = insert_package "p" none ∷ same_rows n

flush-same_rows : flush (same_rows 500) no_rows ≡ err key_violated
unfolding flush insert_package
flush-same_rows = refl

-- Five hundred rows of one key, and 257 behind them.
Reach-never-IsDone_example : ¬ IsDone (start (same_rows 500 ++ same_rows 257) no_rows) none
Reach-never-IsDone_example =
    Reach-never-IsDone (same_rows 500) (same_rows 257) no_rows key_violated refl flush-same_rows
      (omega arith) (start (same_rows 500 ++ same_rows 257) no_rows) none here

abbrev with_channel : Staging
with_channel = record no_rows {
  channels = record { name = "stable"; package_name = "p"; ext_data = none } ∷ [];
  entries = sample_staging.entries;
}

insert-sample_channel : insert_channel sample_channel none no_rows ≡ ok with_channel
unfolding insert_channel insert_entries insert_entry join
insert-sample_channel = refl

channel_entries-insert_channel_example :
    Perm
      (channel_entries semver parsers with_channel "p" "stable")
      (map read_entry sample_channel.entries)
channel_entries-insert_channel_example =
    channel_entries-insert_channel semver parsers sample_channel none no_rows with_channel
      (λ rows. Perm.refl rows) (unfold keep in refl)
      (((refl, unfold has_char in refl), ((refl, unfold has_char in refl), tt)), tt)
      insert-sample_channel

abbrev sample_errors : List (Map (List String))
sample_errors = (("q", "y" ∷ "x" ∷ []) ∷ []) ∷ (("p", "z" ∷ []) ∷ ("q", "w" ∷ []) ∷ []) ∷ []

merge_package_errors_lem_example :
    ((name : String)
      → contains (map package_of (merge_package_errors (λ e. e) sample_errors)) name
        ≡ any (λ m. contains (keys m) name) sample_errors)
    × IsDistinct (map package_of (merge_package_errors (λ e. e) sample_errors))
    × IsSorted by_package (merge_package_errors (λ e. e) sample_errors)
merge_package_errors_lem_example = merge_package_errors_lem (λ e. e) sample_errors
