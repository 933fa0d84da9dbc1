-- ===== src/Examples/Chart.antt =====
-- The traffic cache over three readings of one peer.
use wireguard_ui.Prelude.{
  ℕ, ◌+◌, ◌*◌, ◌/◌, String, ◌≡◌, refl, true, none, some, Option, List, [], ◌∷◌, get_elem?, ltb, leb,
  arith,
}
use wireguard_ui.Session.Values.{ℤ, pos, negsuc}
use wireguard_ui.Store.Table.{table, table-IsDriver}
use wireguard_ui.Traffic.{
  Floats, Row, Bucket, no_counters, new_cache, read_totals, record_sample, sample_between,
}
use wireguard_ui.Traffic.Ring.{find, bucket_of}
use wireguard_ui.Traffic.Ring.History.{Reading, IsUpTo, run, samples_of, find-run}
use wireguard_ui.Traffic.Series.{
  day, series_from, build_series, make_bars, add_group, new_sums, bar_of,
}
use wireguard_ui.Traffic.Series.Window.{make_bars_part}
use wireguard_ui.Traffic.Series.Refines.{build_series_refines}
use wireguard_ui.Traffic.Snapshot.{TrafficSnapshot, persist_snapshot, load_cache}
use wireguard_ui.Traffic.Snapshot.Restore.{load_cache-persist_snapshot}

abbrev whole : ℤ → ℕ
whole (pos n) = n
whole (negsuc n) = 0

-- Whole numbers in place of the floats.
abbrev wholes : Floats
wholes = record {
  F = ℕ;
  of_int = whole;
  add = λ a b. a + b;
  mul = λ a b. a * b;
  div = λ a b. a / b;
  lt = ltb;
  le = leb;
}

abbrev counted : ℕ → List (List (String × Row))
counted n = (("peer", record { rx = n; tx = n }) ∷ []) ∷ []

-- The newest first: the second reading fails.
abbrev readings : List (Reading wholes)
readings = (9000, some (counted 700)) ∷ (7000, none) ∷ (5000, some (counted 300)) ∷ []

abbrev period : ℕ
period = 4000

readings_ordered : IsUpTo wholes 9000 readings
readings_ordered = (omega arith, (omega arith, (omega arith, tt)))

find-run_example :
    find wholes 2 (run wholes period 2 readings).slots 2
    ≡ bucket_of wholes 2 (samples_of wholes period readings)
find-run_example =
    find-run wholes period 2 9000 2 readings (omega arith) (omega arith) readings_ordered
      (omega arith)

build_series_refines_example :
    build_series wholes (run wholes period 1440 readings) 9500 9000 day
    ≡ series_from wholes
        (λ bid. bucket_of wholes bid (samples_of wholes period readings))
        (run wholes period 1440 readings)
        9500
        9000
        day
build_series_refines_example =
    build_series_refines wholes period 1440 9000 9500 readings day (omega arith) (omega arith)
      readings_ordered

readings_sampled : (run wholes period 2 readings).has_delta_sample ≡ true
unfolding run sample_between read_totals record_sample
readings_sampled = refl

readings_saved :
    (persist_snapshot wholes (table (TrafficSnapshot wholes)) [] (run wholes period 2 readings)).1
    ≡ true
unfolding persist_snapshot run sample_between read_totals record_sample
readings_saved = refl

load_cache-persist_snapshot_example :
    load_cache wholes
      (table (TrafficSnapshot wholes))
      (persist_snapshot wholes (table (TrafficSnapshot wholes)) [] (run wholes period 2 readings)).0
      (new_cache wholes period 2)
    ≡ record (run wholes period 2 readings) { prev = no_counters }
load_cache-persist_snapshot_example =
    load_cache-persist_snapshot wholes (table-IsDriver (TrafficSnapshot wholes)) [] period 2
      readings readings_sampled readings_saved

-- The buckets of a month's window, as the history gives them from bucket 1 on.
abbrev look : ℕ → Option (Bucket wholes)
look k = bucket_of wholes (1 + k) (samples_of wholes period readings)

make_bars_part_example :
    (get_elem? (make_bars wholes look 24 0 60 [] 0).bars 1
      ≡ some (bar_of wholes (add_group wholes look 24 24 (new_sums wholes []))))
    × ((make_bars wholes look 24 0 60 [] 0).rows
        ≡ (add_group wholes look 0 1440 (new_sums wholes [])).totals)
make_bars_part_example = make_bars_part wholes look 24 60 1 0 (omega arith)
