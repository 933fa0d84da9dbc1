-- ===== src/Traffic/Ring/History.antt =====
-- The ring keeps the last buckets of the whole history of samples.
use native.Mathlib.Nat.{mod-lt}
use native.Mathlib.Decide.{dec_lt}
use wireguard_ui.Prelude.{
  ℕ, ◌+◌, ◌/◌, ◌%◌, ◌≤◌, ◌<◌, String, ◌≡◌, refl, ap, ◌∙◌, Option, none, some, List, [], ◌∷◌, nat_eq,
  length, arith, Bool-cases, Option-cases, inl, inr, get_elem?-replicate, length-replicate,
}
use wireguard_ui.Traffic.{
  Floats, Row, Counters, Slot, Sample, Cache, empty_bucket, new_cache, sample_between, store_sample,
  record_sample, read_totals, refresh_once,
}
use wireguard_ui.Traffic.Ring.{
  same_slot, div_mono, find, bucket_of, find-store_sample, length-store_sample,
}

module _ (fl : Floats) where
  -- A reading is its time and the devices, or `none` where they could not be read. The newest is
  -- first.
  abbrev pub Reading : Type 0
  Reading = ℕ × Option (List (List (String × Row)))

  -- The times do not decrease, up to a last one.
  abbrev pub IsUpTo : ℕ → List Reading → Type 0
  IsUpTo last [] = Unit
  IsUpTo last ((now, d) ∷ older) = (now ≤ last) × IsUpTo now older

  unfoldable pub run : ℕ → ℕ → List Reading → Cache fl
  unfolding refresh_once
  run ms n [] = new_cache fl ms n
  run ms n ((now, d) ∷ older) = refresh_once fl now d (run ms n older)

  -- The counters of the newest successful reading, and the samples of the history.
  unfoldable pub latest : List Reading → Counters
  latest [] = record { at = 0; rx = 0; tx = 0; peers = [] }
  latest ((now, none) ∷ older) = latest older
  latest ((now, some devices) ∷ older) = read_totals now devices

  abbrev pub add_taken : ℕ → Option (Sample fl) → List (ℕ × Sample fl) → List (ℕ × Sample fl)
  add_taken bid none history = history
  add_taken bid (some s) history = (bid, s) ∷ history

  unfoldable pub samples_of : ℕ → List Reading → List (ℕ × Sample fl)
  samples_of ms [] = []
  samples_of ms ((now, none) ∷ older) = samples_of ms older
  samples_of ms ((now, some devices) ∷ older) =
      add_taken (now / ms) (sample_between fl (latest older) (read_totals now devices))
        (samples_of ms older)

  -- The ring and the counters of a cache agree with a history, from one window before `cur` on.
  record Agrees (ms n : ℕ) (history : List (ℕ × Sample fl)) (k : Counters) (c : Cache fl) (cur : ℕ)
      : Type 0 where
    ms_kept : c.base_bucket_ms ≡ ms
    n_kept : c.max_base_buckets ≡ n
    long : length c.slots ≡ n
    prev_kept : c.prev ≡ k
    kept : (bid : ℕ) → cur < bid + n → find fl n c.slots bid ≡ bucket_of fl bid history
    future : (bid : ℕ) → cur < bid → bucket_of fl bid history ≡ none

  find-new_cache :
      (ms n bid : ℕ) → 0 < n → find fl n (new_cache fl ms n).slots bid ≡ bucket_of fl bid []
  unfolding find new_cache bucket_of
  find-new_cache ms n bid pos =
      let slot : Slot fl = record { id = 0; bucket = empty_bucket fl } in
      ground (arith, get_elem?-replicate n (bid % n) slot (mod-lt bid {m = n} pos))

  Agrees-store :
      (n cur now : ℕ) (history : List (ℕ × Sample fl)) (s : Sample fl) (slots : List (Slot fl))
      → 0 < n
      → length slots ≡ n
      → cur ≤ now
      → ((bid : ℕ) → cur < bid + n → find fl n slots bid ≡ bucket_of fl bid history)
      → ((bid : ℕ) → cur < bid → bucket_of fl bid history ≡ none)
      → (bid : ℕ) → now < bid + n
      → find fl n (store_sample fl n now s slots) bid ≡ bucket_of fl bid ((now, s) ∷ history)
  unfolding bucket_of
  Agrees-store n cur now history s slots pos len le kept future bid near =
      elim (Bool-cases (nat_eq now bid)) [
        | inl same ↦
            let e : now ≡ bid = ground arith in
            ground (
              arith,
              find-store_sample fl n now bid s slots pos len,
              kept now (omega arith),
              ap (λ b. bucket_of fl b history) e,
            )
        | inr other ↦ elim (Bool-cases (nat_eq (now % n) (bid % n))) [
          | inr apart ↦
              ground (arith, find-store_sample fl n now bid s slots pos len, kept bid (omega arith))
          | inl clash ↦ elim (dec_lt cur bid) [
            | yes later ↦
                ground (arith, find-store_sample fl n now bid s slots pos len, future bid later)
            | no past ↦
                absurd (ground (arith, same_slot n bid now pos (omega arith) near (ground arith)))
          ]
        ]
      ]

  future-cons :
      (cur now : ℕ) (history : List (ℕ × Sample fl)) (s : Sample fl)
      → cur ≤ now
      → ((bid : ℕ) → cur < bid → bucket_of fl bid history ≡ none)
      → (bid : ℕ) → now < bid
      → bucket_of fl bid ((now, s) ∷ history) ≡ none
  unfolding bucket_of
  future-cons cur now history s le future bid later = ground (arith, future bid (omega arith))

  Agrees-later :
      {ms n : ℕ} {history : List (ℕ × Sample fl)} {k : Counters} {c : Cache fl} (cur now : ℕ)
      → cur ≤ now
      → Agrees ms n history k c cur
      → Agrees ms n history k c now
  Agrees-later cur now le h = record {
    ms_kept = h.ms_kept;
    n_kept = h.n_kept;
    long = h.long;
    prev_kept = h.prev_kept;
    kept = λ bid near. h.kept bid (omega arith);
    future = λ bid later. h.future bid (omega arith);
  }

  Agrees-refresh :
      (ms n now last : ℕ) (d : Option (List (List (String × Row)))) (older : List Reading)
      (c : Cache fl)
      → 0 < n
      → 0 < ms
      → last ≤ now
      → Agrees ms n (samples_of ms older) (latest older) c (last / ms)
      → Agrees ms n
          (samples_of ms ((now, d) ∷ older))
          (latest ((now, d) ∷ older))
          (refresh_once fl now d c)
          (now / ms)
  unfolding refresh_once samples_of latest record_sample
  Agrees-refresh ms n now last none older c pos pos' le h =
      Agrees-later (last / ms) (now / ms) (div_mono ms last now pos' le) h
  Agrees-refresh ms n now last (some devices) older c pos pos' le h =
      let le' = div_mono ms last now pos' le in
      let h' = Agrees-later (last / ms) (now / ms) le' h in
      elim (Option-cases (sample_between fl (latest older) (read_totals now devices))) [
        | inl idle ↦
            let e' : sample_between fl c.prev (read_totals now devices) ≡ none =
              rw h'.prev_kept idle in
            rw (e', idle)
              (record {
                ms_kept = h'.ms_kept;
                n_kept = h'.n_kept;
                long = h'.long;
                prev_kept = refl;
                kept = h'.kept;
                future = h'.future;
              })
        | inr (s, e) ↦
            let e' : sample_between fl c.prev (read_totals now devices) ≡ some s =
              rw h'.prev_kept e in
            rw (e', e)
              (record {
                ms_kept = h'.ms_kept;
                n_kept = h'.n_kept;
                long =
                    length-store_sample fl c.max_base_buckets (now / c.base_bucket_ms) s c.slots
                    ∙ h'.long;
                prev_kept = refl;
                kept = λ bid near.
                    rw (h'.n_kept, h'.ms_kept)
                      (Agrees-store n (last / ms) (now / ms) (samples_of ms older) s c.slots pos
                        h.long le' h.kept h.future bid near);
                future = future-cons (last / ms) (now / ms) (samples_of ms older) s le' h.future;
              })
      ]

  new_cache-Agrees : (ms n : ℕ) → 0 < n → Agrees ms n [] (latest []) (new_cache fl ms n) 0
  unfolding new_cache bucket_of latest
  new_cache-Agrees ms n pos = record {
    ms_kept = refl;
    n_kept = refl;
    long = length-replicate n (record { id = 0; bucket = empty_bucket fl });
    prev_kept = refl;
    kept = λ bid near. find-new_cache ms n bid pos;
    future = λ bid later. ground arith;
  }

  run-Agrees :
      (ms n last : ℕ) (readings : List Reading)
      → 0 < n
      → 0 < ms
      → IsUpTo last readings
      → Agrees ms n (samples_of ms readings) (latest readings) (run ms n readings) (last / ms)
  unfolding run samples_of
  run-Agrees ms n last [] pos pos' o =
      Agrees-later 0 (last / ms) (omega arith) (new_cache-Agrees ms n pos)
  run-Agrees ms n last ((now, d) ∷ older) pos pos' (le, o) =
      Agrees-later (now / ms) (last / ms) (div_mono ms now last pos' le) (
        Agrees-refresh ms n now now d older (run ms n older) pos pos' (omega arith)
          (run-Agrees ms n now older pos pos' o))

  -- The ring refines the whole history: over any readings of the counters in the order of time,
  -- some of which may fail, from a new cache with a slot and a positive period on, the ring of `n`
  -- slots answers for every id of the last `n` bucket periods, up to any later time, with the
  -- bucket that all samples of that period add up to, and with none where there were none.
  pub find-run :
      (ms n last bid : ℕ) (readings : List Reading)
      → 0 < n
      → 0 < ms
      → IsUpTo last readings
      → last / ms < bid + n
      → find fl n (run ms n readings).slots bid ≡ bucket_of fl bid (samples_of ms readings)
  find-run ms n last bid readings pos pos' o near =
      let h = run-Agrees ms n last readings pos pos' o in h.kept bid near

  pub max_base_buckets-run :
      (ms n last : ℕ) (readings : List Reading)
      → 0 < n
      → 0 < ms
      → IsUpTo last readings
      → (run ms n readings).max_base_buckets ≡ n
  max_base_buckets-run ms n last readings pos pos' o =
      let h = run-Agrees ms n last readings pos pos' o in h.n_kept

  pub base_bucket_ms-run :
      (ms n last : ℕ) (readings : List Reading)
      → 0 < n
      → 0 < ms
      → IsUpTo last readings
      → (run ms n readings).base_bucket_ms ≡ ms
  base_bucket_ms-run ms n last readings pos pos' o =
      let h = run-Agrees ms n last readings pos pos' o in h.ms_kept
