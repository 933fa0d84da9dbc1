-- ===== src/Traffic/Snapshot/Restore.antt =====
-- What a snapshot restores.
use wireguard_ui.Prelude.{
  ℕ, suc, ◌≤◌, String, ◌≡◌, refl, ap, true, Option, none, some, List, [], ◌∷◌, map, length,
  length-append, length-replicate, ◌/◌, ◌∙◌, Option-cases, inl, inr, arith, eq_refl,
}
use wireguard_ui.Store.{Driver, IsDriver}
use wireguard_ui.Traffic.{
  Floats, Row, no_counters, Slot, Cache, new_cache, append_recent_window, sample_between,
  record_sample, refresh_once, read_totals,
}
use wireguard_ui.Traffic.Ring.{length-store_sample}
use wireguard_ui.Traffic.Ring.History.{Reading, run}
use wireguard_ui.Traffic.Snapshot.{
  TrafficSnapshot, to_snapshot, slots_of, is_fitting, apply_snapshot, load_cache, persist_snapshot,
}

length-map {ℓ κ} :
    {A : Type ℓ} {B : Type κ} (f : A → B) (xs : List A) → length (map f xs) ≡ length xs
length-map f [] = refl
length-map f (x ∷ xs) = ap suc (length-map f xs)

module _ (fl : Floats) where
  slots_of-map :
      (slots : List (Slot fl))
      → slots_of fl
          (map (λ s. s.id) slots)
          (map (λ s. s.bucket.rx_sum) slots)
          (map (λ s. s.bucket.rx_count) slots)
          (map (λ s. s.bucket.tx_sum) slots)
          (map (λ s. s.bucket.tx_count) slots)
          (map (λ s. s.bucket.tx_max) slots)
          (map (λ s. s.bucket.top_bps) slots)
          (map (λ s. s.bucket.top_key) slots)
          (map (λ s. s.bucket.peer_rx) slots)
          (map (λ s. s.bucket.peer_tx) slots)
        ≡ slots
  unfolding slots_of
  slots_of-map [] = refl
  slots_of-map (s ∷ slots) = ap (◌∷◌ s) (slots_of-map slots)

  -- What `refreshOnce` keeps of the arrays.
  pub record IsSized (ms n : ℕ) (c : Cache fl) : Type 0 where
    pub ms_kept : c.base_bucket_ms ≡ ms
    pub n_kept : c.max_base_buckets ≡ n
    pub long : length c.slots ≡ n
    pub few_rx : length c.recent_rx ≤ 15
    pub few_tx : length c.recent_tx ≤ 15

  is_fitting-to_snapshot :
      (ms n : ℕ) (c d : Cache fl)
      → IsSized ms n c
      → d.base_bucket_ms ≡ ms
      → d.max_base_buckets ≡ n
      → is_fitting fl d (to_snapshot fl c) ≡ true
  unfolding is_fitting to_snapshot
  is_fitting-to_snapshot ms n c d h em en = ground (
    arith,
    length-map (λ (s : Slot fl). s.id) c.slots,
    length-map (λ (s : Slot fl). s.bucket.rx_sum) c.slots,
    length-map (λ (s : Slot fl). s.bucket.rx_count) c.slots,
    length-map (λ (s : Slot fl). s.bucket.tx_sum) c.slots,
    length-map (λ (s : Slot fl). s.bucket.tx_count) c.slots,
    length-map (λ (s : Slot fl). s.bucket.tx_max) c.slots,
    length-map (λ (s : Slot fl). s.bucket.top_bps) c.slots,
    length-map (λ (s : Slot fl). s.bucket.top_key) c.slots,
  )

  pub new_cache-IsSized : (ms n : ℕ) → IsSized ms n (new_cache fl ms n)
  unfolding new_cache
  new_cache-IsSized ms n = record {
    ms_kept = refl;
    n_kept = refl;
    long = length-replicate n _;
    few_rx = omega arith;
    few_tx = omega arith;
  }

  few :
      (buf : List fl.F) (v : fl.F)
      → length buf ≤ 15
      → length (append_recent_window fl buf v 15) ≤ 15
  unfolding append_recent_window
  few [] v h = omega arith
  few (x ∷ buf) v h = ground (arith, length-append buf (v ∷ []))

  pub refresh_once-IsSized :
      (ms n now : ℕ) (d : Option (List (List (String × Row)))) (c : Cache fl)
      → IsSized ms n c
      → IsSized ms n (refresh_once fl now d c)
  unfolding refresh_once record_sample
  refresh_once-IsSized ms n now none c h = h
  refresh_once-IsSized ms n now (some devices) c h =
      elim (Option-cases (sample_between fl c.prev (read_totals now devices))) [
        | inl idle ↦ rw idle (record {
          ms_kept = h.ms_kept;
          n_kept = h.n_kept;
          long = h.long;
          few_rx = h.few_rx;
          few_tx = h.few_tx;
        })
        | inr (s, e) ↦ rw e (record {
          ms_kept = h.ms_kept;
          n_kept = h.n_kept;
          long =
              length-store_sample fl c.max_base_buckets (now / c.base_bucket_ms) s c.slots ∙ h.long;
          few_rx = few c.recent_rx s.rx_rate h.few_rx;
          few_tx = few c.recent_tx s.tx_rate h.few_tx;
        })
      ]

  run-IsSized : (ms n : ℕ) (readings : List (Reading fl)) → IsSized ms n (run fl ms n readings)
  unfolding run
  run-IsSized ms n [] = new_cache-IsSized ms n
  run-IsSized ms n ((now, d) ∷ older) =
      refresh_once-IsSized ms n now d (run fl ms n older) (run-IsSized ms n older)

  apply_snapshot-to_snapshot :
      (ms n : ℕ) (c d : Cache fl)
      → IsSized ms n c
      → d.base_bucket_ms ≡ ms
      → d.max_base_buckets ≡ n
      → apply_snapshot fl d (to_snapshot fl c) ≡ record c { prev = no_counters }
  unfolding apply_snapshot to_snapshot
  apply_snapshot-to_snapshot ms n c d h em en = ground (
    arith,
    is_fitting-to_snapshot ms n c d h em en,
    slots_of-map c.slots,
    h.few_rx,
    h.few_tx,
    h.ms_kept,
    h.n_kept,
  )

  -- After a restart the cache is what it was: on a driver with the stated laws, where the cache of any
  -- history of readings has a sample and is persisted without an error, the cache that the next start
  -- loads is the same but for the counters of the last reading, which are forgotten.
  pub load_cache-persist_snapshot :
      {D : Driver (TrafficSnapshot fl)} (laws : IsDriver D) (d : D.Dir) (ms n : ℕ)
      (readings : List (Reading fl))
      → (run fl ms n readings).has_delta_sample ≡ true
      → (persist_snapshot fl D d (run fl ms n readings)).1 ≡ true
      → load_cache fl D (persist_snapshot fl D d (run fl ms n readings)).0 (new_cache fl ms n)
        ≡ record (run fl ms n readings) { prev = no_counters }
  unfolding load_cache persist_snapshot
  load_cache-persist_snapshot {D} laws d ms n readings sampled saved =
      let c = run fl ms n readings in
      let s = to_snapshot fl c in
      let restored =
        apply_snapshot-to_snapshot ms n c (new_cache fl ms n) (run-IsSized ms n readings)
          (new_cache-IsSized ms n).ms_kept (new_cache-IsSized ms n).n_kept in
      ground (
        arith,
        laws.read-write d "traffic_cache" s "traffic_cache",
        eq_refl "traffic_cache",
        restored,
      )
