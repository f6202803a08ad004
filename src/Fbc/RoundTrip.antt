-- ===== src/Fbc/RoundTrip.antt =====
-- The entries of a channel, as ingest.go writes them and accessor.go reads them
-- (catalog/v1/fbc/internal).
use Prim.Native.String.compare
use text.Mathlib.TextLemmas.{cons-append}
use mathlib.Core.List.{append_assoc, append-nil, Perm}
use mathlib.Core.List.Perm
use mathlib.Core.Path.{subst}
use library_olm.Prelude.{
  String, Bool, false, ◌&&◌, Option, List, [], ◌∷◌, ◌++◌, map, any, keep, keep-append, All,
  has_char, join, split-join, Result, ok, err, >>=-eq-ok, guarded-eq-ok, ◌==◌, eq_refl, ◌≡◌, refl,
  ap, sym, ◌∙◌,
}
use library_olm.Bundle.{SemVer}
use library_olm.Sqlite.{Parsers}
use library_olm.Fbc.Blobs.{EntryBlob, ChannelBlob}
use library_olm.Fbc.Staging.{
  Staging, RawEntry, RawChannel, RawError, comma, raw_entry, same_entry, insert_entry,
  insert_entries, insert_channel,
}
use library_olm.Fbc.Accessor.{ChannelEntry, split_skips, channel_entry, channel_entries}

-- A bundle's name that can stand in the column `skips`.
abbrev pub IsSkip : String → Type 0
IsSkip s = (s == "" ≡ false) × (has_char comma s ≡ false)

join-ne-empty :
    (x : String) (xs : List String) → x == "" ≡ false → join comma (x ∷ xs) == "" ≡ false
unfolding join
join-ne-empty x [] h = h
join-ne-empty String.[] (y ∷ ys) h = cc
join-ne-empty (String.◌∷◌ c x) (y ∷ ys) h =
    rw (cons-append c x (String.◌∷◌ comma (join comma (y ∷ ys)))) (simp compare.cons-nil)

All-has_char : (xs : List String) → All IsSkip xs → All (λ y. has_char comma y ≡ false) xs
All-has_char [] h = tt
All-has_char (x ∷ xs) h = (h.0.1, All-has_char xs h.1)

pub split_skips-join : (xs : List String) → All IsSkip xs → split_skips (join comma xs) ≡ xs
unfolding split_skips
split_skips-join [] h = unfold join in refl
split_skips-join (x ∷ xs) h =
    rw (join-ne-empty x xs h.0.0) (split-join comma x xs (All-has_char (x ∷ xs) h))

entries-insert_entry :
    (row : RawEntry) (st st' : Staging)
    → insert_entry row st ≡ ok st'
    → st'.entries ≡ st.entries ++ (row ∷ [])
unfolding insert_entry
entries-insert_entry row st st' h =
    let (_, e) = guarded-eq-ok (any (same_entry row) st.entries) _ _ h in
    ap (λ (r : Result RawError Staging). entries_of st r) (sym e)
  where
    entries_of : Staging → Result RawError Staging → List RawEntry
    entries_of st (err f) = st.entries
    entries_of st (ok s) = s.entries

entries-insert_entries :
    (channel pkg : String) (es : List EntryBlob) (st st' : Staging)
    → insert_entries channel pkg es st ≡ ok st'
    → st'.entries ≡ st.entries ++ map (raw_entry channel pkg) es
unfolding insert_entries
entries-insert_entries channel pkg [] st st' h =
    let e : st ≡ st' = cc in rw (← e, append-nil st.entries) refl
entries-insert_entries channel pkg (e ∷ es) st st' h =
    let (st1, first, rest) = >>=-eq-ok (insert_entry (raw_entry channel pkg e) st) _ h in
    entries-insert_entries channel pkg es st1 st' rest
    ∙ ap (λ zs. zs ++ map (raw_entry channel pkg) es)
        (entries-insert_entry (raw_entry channel pkg e) st st1 first)
    ∙ append_assoc st.entries (raw_entry channel pkg e ∷ []) (map (raw_entry channel pkg) es)

-- The entry that is read of what was written.
abbrev pub read_entry : EntryBlob → ChannelEntry
read_entry e = record {
  name = e.name;
  replaces = e.replaces;
  skips = e.skips;
  skip_range = e.skip_range;
}

abbrev pub of_channel : String → String → RawEntry → Bool
of_channel pkg channel r = r.package_name == pkg && r.channel_name == channel

keep-raw_entry :
    (channel pkg : String) (es : List EntryBlob)
    → keep (of_channel pkg channel) (map (raw_entry channel pkg) es)
      ≡ map (raw_entry channel pkg) es
unfolding keep
keep-raw_entry channel pkg [] = refl
keep-raw_entry channel pkg (e ∷ es) =
    rw (eq_refl pkg, eq_refl channel)
      (ap (λ rs. raw_entry channel pkg e ∷ rs) (keep-raw_entry channel pkg es))

map-read_entry :
    (channel pkg : String) (es : List EntryBlob)
    → All (λ (e : EntryBlob). All IsSkip e.skips) es
    → map channel_entry (map (raw_entry channel pkg) es) ≡ map read_entry es
map-read_entry channel pkg [] h = refl
map-read_entry channel pkg (e ∷ es) h =
    rw (split_skips-join e.skips h.0)
      (ap (λ rs. read_entry e ∷ rs) (map-read_entry channel pkg es h.1))

-- A channel that is ingested into a staging database with no entries of it is read back with the
-- entries of the blob, each once, in the order that the query lists its rows in, if it lists them
-- all, and if the names that the entries skip are not empty and have no comma.
pub channel_entries-insert_channel :
    (v : SemVer) (p : Parsers v) (ch : ChannelBlob) (ext : Option String) (st st' : Staging)
    → ((rows : List RawEntry) → Perm (p.listed RawEntry rows) rows)
    → keep (of_channel ch.pkg ch.name) st.entries ≡ []
    → All (λ (e : EntryBlob). All IsSkip e.skips) ch.entries
    → insert_channel ch ext st ≡ ok st'
    → Perm (channel_entries v p st' ch.pkg ch.name) (map read_entry ch.entries)
unfolding insert_channel channel_entries
channel_entries-insert_channel v p ch ext st st' lists fresh skips h =
    subst (λ zs. Perm (map channel_entry (p.listed RawEntry (rows_of st'))) zs)
      (ap (map channel_entry) kept ∙ map-read_entry ch.name ch.pkg ch.entries skips)
      (Perm.map channel_entry (lists (rows_of st')))
  where
    rows_of : Staging → List RawEntry
    rows_of s = keep (of_channel ch.pkg ch.name) s.entries

    written : st'.entries ≡ st.entries ++ map (raw_entry ch.name ch.pkg) ch.entries
    written =
        let (_, e) =
          guarded-eq-ok
            (any (λ (r : RawChannel). r.package_name == ch.pkg && r.name == ch.name) st.channels) _
            _ h in
        entries-insert_entries ch.name ch.pkg ch.entries _ st' e

    kept : rows_of st' ≡ map (raw_entry ch.name ch.pkg) ch.entries
    kept =
        ap (keep (of_channel ch.pkg ch.name)) written
        ∙ keep-append (of_channel ch.pkg ch.name) st.entries _
        ∙ (rw fresh (keep-raw_entry ch.name ch.pkg ch.entries))
