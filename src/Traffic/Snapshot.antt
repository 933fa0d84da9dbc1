-- ===== src/Traffic/Snapshot.antt =====
-- The traffic cache on disk: model/traffic_cache_snapshot.go, the copies of
-- handler/wg_traffic_cache.go, and the two methods of store/jsondb/jsondb.go.
pub mod Restore
use wireguard_ui.Prelude.{
  ℕ, zero, suc, ◌+◌, ◌-◌, String, Bool, true, false, not, ◌&&◌, Option, none, some, List, [], ◌∷◌,
  map, ◌==◌, ltb, nat_eq, length, drop, if◌then◌else◌,
}
use wireguard_ui.Store.{Driver}
use wireguard_ui.Traffic.{
  Floats, Bytes, Counters, no_counters, Bucket, Slot, Cache, recent_rate_window_samples,
}

abbrev pub snapshot_version : ℕ
snapshot_version = 1

module _ (fl : Floats) where
  open fl use {F}

  -- `TrafficCacheSnapshot`, whose arrays are the columns of the ring.
  pub record TrafficSnapshot : Type 0 where
    pub version : ℕ
    pub base_bucket_ms : ℕ
    pub max_base_buckets : ℕ
    pub base_bucket_id : List ℕ
    pub rx_sum : List F
    pub rx_count : List ℕ
    pub tx_sum : List F
    pub tx_count : List ℕ
    pub tx_max : List F
    pub top_bps : List F
    pub top_key : List String
    pub peer_rx : List Bytes
    pub peer_tx : List Bytes
    pub last_rx_rate : F
    pub last_tx_rate : F
    pub recent_rx : List F
    pub recent_tx : List F
    pub total_rx_bytes : ℕ
    pub total_tx_bytes : ℕ
    pub last_update : ℕ
    pub has_delta_sample : Bool

  -- `trafficCacheToSnapshotLocked`
  unfoldable pub to_snapshot : Cache fl → TrafficSnapshot
  to_snapshot c = record {
    version = snapshot_version;
    base_bucket_ms = c.base_bucket_ms;
    max_base_buckets = c.max_base_buckets;
    base_bucket_id = map (λ s. s.id) c.slots;
    rx_sum = map (λ s. s.bucket.rx_sum) c.slots;
    rx_count = map (λ s. s.bucket.rx_count) c.slots;
    tx_sum = map (λ s. s.bucket.tx_sum) c.slots;
    tx_count = map (λ s. s.bucket.tx_count) c.slots;
    tx_max = map (λ s. s.bucket.tx_max) c.slots;
    top_bps = map (λ s. s.bucket.top_bps) c.slots;
    top_key = map (λ s. s.bucket.top_key) c.slots;
    peer_rx = map (λ s. s.bucket.peer_rx) c.slots;
    peer_tx = map (λ s. s.bucket.peer_tx) c.slots;
    last_rx_rate = c.last_rx_rate;
    last_tx_rate = c.last_tx_rate;
    recent_rx = c.recent_rx;
    recent_tx = c.recent_tx;
    total_rx_bytes = c.total_rx_bytes;
    total_tx_bytes = c.total_tx_bytes;
    last_update = c.last_update;
    has_delta_sample = c.has_delta_sample;
  }

  -- The map at the front of a list, none past its end, and the rest.
  abbrev pub first : List Bytes → Bytes
  first [] = []
  first (m ∷ ms) = m

  abbrev pub rest : List Bytes → List Bytes
  rest [] = []
  rest (m ∷ ms) = ms

  -- The slots of the columns. The columns of the peers may be shorter than the others.
  unfoldable pub slots_of :
      List ℕ
      → List F
      → List ℕ
      → List F
      → List ℕ
      → List F
      → List F
      → List String
      → List Bytes
      → List Bytes
      → List (Slot fl)
  slots_of (id ∷ ids) (rs ∷ rss) (rc ∷ rcs) (ts ∷ tss) (tc ∷ tcs) (tm ∷ tms) (tb ∷ tbs) (tk ∷ tks)
        prs pts =
      record {
        id = id;
        bucket = record {
          rx_sum = rs;
          rx_count = rc;
          tx_sum = ts;
          tx_count = tc;
          tx_max = tm;
          top_bps = tb;
          top_key = tk;
          peer_rx = first prs;
          peer_tx = first pts;
        };
      }
      ∷ slots_of ids rss rcs tss tcs tms tbs tks (rest prs) (rest pts)
  slots_of _ _ _ _ _ _ _ _ _ _ = []

  abbrev pub last_samples : List F → List F
  last_samples xs =
      if ltb recent_rate_window_samples (length xs)
      then drop (length xs - recent_rate_window_samples) xs
      else xs

  -- Whether a snapshot fits the cache.
  unfoldable pub is_fitting : Cache fl → TrafficSnapshot → Bool
  is_fitting c s =
      let n = c.max_base_buckets in
      nat_eq s.version snapshot_version
      && (nat_eq s.max_base_buckets n && nat_eq s.base_bucket_ms c.base_bucket_ms)
      && (nat_eq (length s.base_bucket_id) n
          && nat_eq (length s.rx_sum) n
          && nat_eq (length s.rx_count) n
          && nat_eq (length s.tx_sum) n
          && nat_eq (length s.tx_count) n
          && nat_eq (length s.tx_max) n
          && nat_eq (length s.top_bps) n
          && nat_eq (length s.top_key) n)

  -- `applySnapshot`: the counters of the last sample are forgotten.
  unfoldable pub apply_snapshot : Cache fl → TrafficSnapshot → Cache fl
  unfolding is_fitting slots_of
  apply_snapshot c s = if not (is_fitting c s) then c else record c {
    slots =
        slots_of s.base_bucket_id s.rx_sum s.rx_count s.tx_sum s.tx_count s.tx_max s.top_bps
          s.top_key s.peer_rx s.peer_tx;
    last_rx_rate = s.last_rx_rate;
    last_tx_rate = s.last_tx_rate;
    recent_rx = last_samples s.recent_rx;
    recent_tx = last_samples s.recent_tx;
    total_rx_bytes = s.total_rx_bytes;
    total_tx_bytes = s.total_tx_bytes;
    last_update = s.last_update;
    has_delta_sample = s.has_delta_sample;
    prev = no_counters;
  }

  module _ (D : Driver TrafficSnapshot) where
    -- `LoadTrafficCacheSnapshot` at the start of `initTrafficCache`: a missing file, an error and a
    -- nil snapshot leave the cache as it is.
    unfoldable pub load_cache : D.Dir → Cache fl → Cache fl
    unfolding apply_snapshot
    load_cache d c = elim (D.read d "traffic_cache") [ none ↦ c | some s ↦ apply_snapshot c s ]

    -- `persistTrafficSnapshot` with `SaveTrafficCacheSnapshot`; `true` where there is no error.
    unfoldable pub persist_snapshot : D.Dir → Cache fl → D.Dir × Bool
    unfolding to_snapshot
    persist_snapshot d c =
        if not c.has_delta_sample
        then (d, true)
        else (let (d', written) = D.write d "traffic_cache" (to_snapshot c) in
            if written then (d', D.chmod d' "traffic_cache") else (d', false))
