-- ===== src/Traffic/Series/Refines.antt =====
-- The series is that of the whole history.
use mathlib.Core.Path.{fun_ext}
use wireguard_ui.Prelude.{
  ℕ, ◌+◌, ◌-◌, ◌/◌, ◌≤◌, ◌<◌, ◌≡◌, refl, Option, List, [], leb, Bool-cases, inl, inr, arith,
}
use wireguard_ui.Traffic.{Floats, Bucket, Cache, zero_float}
use wireguard_ui.Traffic.Ring.{find, bucket_of}
use wireguard_ui.Traffic.Ring.History.{
  Reading, IsUpTo, run, samples_of, find-run, max_base_buckets-run, base_bucket_ms-run,
}
use wireguard_ui.Traffic.Series.{
  Range, day, week, month, other, range_cfg, bid_at, place, make_bars, peak_from, respond,
  series_from, build_series,
}

-- Every window lies in the last 1440 base buckets.
window_small : (r : Range) → (range_cfg r).window ≤ 1440
window_small day = omega arith
window_small week = omega arith
window_small month = omega arith
window_small other = omega arith

module _ (fl : Floats) where
  place_same :
      (look look' : ℕ → Option (Bucket fl)) (cur window k : ℕ)
      → window ≤ 1440
      → ((bid : ℕ) → cur < bid + 1440 → look bid ≡ look' bid)
      → place fl look (bid_at cur window k) ≡ place fl look' (bid_at cur window k)
  place_same look look' cur window k small same = elim (Bool-cases (leb window (cur + 1 + k))) [
    | inr out ↦ rw out refl
    | inl inside ↦ rw inside (same (cur + 1 + k - window) (ground arith))
  ]

  series_from_same :
      (look look' : ℕ → Option (Bucket fl)) (c : Cache fl) (clock now_ms : ℕ) (r : Range)
      → ((bid : ℕ) → now_ms / c.base_bucket_ms < bid + 1440 → look bid ≡ look' bid)
      → series_from fl look c clock now_ms r ≡ series_from fl look' c clock now_ms r
  unfolding series_from
  series_from_same look look' c clock now_ms r same =
      let cur = now_ms / c.base_bucket_ms in
      let bars =
        fun_ext (λ k. place_same look look' cur (range_cfg r).window k (window_small r) same) in
      let peaks = fun_ext (λ k. place_same look look' cur 48 k (omega arith) same) in
      λ i.
        respond fl (range_cfg r).range
          (make_bars fl (bars i) (range_cfg r).factor 0 (range_cfg r).count [] (zero_float fl))
          (peak_from fl (peaks i) 0 48 (zero_float fl)) c clock

  -- The series at any time from the last reading on is the one that the whole history of samples
  -- gives, although the ring holds the buckets of the last periods only: over any readings in the
  -- order of time, some of which may fail, from a new cache with at least 1440 slots and a positive
  -- bucket period on.
  pub build_series_refines :
      (ms n now_ms clock : ℕ) (readings : List (Reading fl)) (r : Range)
      → 1440 ≤ n
      → 0 < ms
      → IsUpTo fl now_ms readings
      → build_series fl (run fl ms n readings) clock now_ms r
        ≡ series_from fl
            (λ bid. bucket_of fl bid (samples_of fl ms readings))
            (run fl ms n readings)
            clock
            now_ms
            r
  unfolding build_series
  build_series_refines ms n now_ms clock readings r big pos o =
      let c = run fl ms n readings in
      rw (max_base_buckets-run fl ms n now_ms readings (omega arith) pos o) (
        series_from_same (find fl n c.slots) (λ bid. bucket_of fl bid (samples_of fl ms readings)) c
          clock now_ms r
          (λ bid near.
            let near' : now_ms / ms < bid + 1440 =
              rw (base_bucket_ms-run fl ms n now_ms readings (omega arith) pos o) at near in
            find-run fl ms n now_ms bid readings (omega arith) pos o (omega arith)))
