-- ===== src/Traffic.antt =====
-- The traffic cache of handler/wg_traffic_cache.go: its buckets and counters, and one refresh.
pub mod Ring
pub mod Series
pub mod Snapshot
use wireguard_ui.Prelude.{
  ℕ, zero, suc, ◌+◌, ◌-◌, ◌/◌, ◌%◌, String, Bool, true, false, not, Option, none, some, List, [],
  ◌∷◌, ◌++◌, ◌==◌, ltb, leb, nat_eq, length, get_elem?, set, replicate, if◌then◌else◌,
}
use wireguard_ui.Session.Values.{ℤ, pos, negsuc}

-- `float64`: the numbers, the conversion of an integer, the operations and the tests of order. What
-- they compute is left open, so nothing here rests on rounding.
pub record Floats : Type 1 where
  pub F : Type 0
  pub of_int : ℤ → F
  pub add : F → F → F
  pub mul : F → F → F
  pub div : F → F → F
  pub lt : F → F → Bool
  pub le : F → F → Bool

-- `PeerTrafficRow`, with byte counters far below 2 ^ 63.
pub record Row : Type 0 where
  pub rx : ℕ
  pub tx : ℕ

-- A map from public keys is a list with one entry for a key, in the order of its iteration.
abbrev pub Rows : Type 0
Rows = List (String × Row)

abbrev pub Bytes : Type 0
Bytes = List (String × ℕ)

-- `a - b` of two counters.
abbrev pub sub : ℕ → ℕ → ℤ
sub a b = if leb b a then pos (a - b) else negsuc (b - a - 1)

unfoldable pub row_of : Rows → String → Option Row
row_of [] pk = none
row_of ((k, r) ∷ m) pk = if k == pk then some r else row_of m pk

-- `p := m[pk]; p.Rx += rx; p.Tx += tx; m[pk] = p`
unfoldable pub add_row : String → Row → Rows → Rows
add_row pk r [] = (pk, r) ∷ []
add_row pk r ((k, q) ∷ m) =
    let rest = add_row pk r m in
    if k == pk then (k, record { rx = q.rx + r.rx; tx = q.tx + r.tx }) ∷ m else (k, q) ∷ rest

-- `m[pk] += n`
unfoldable pub add_bytes : String → ℕ → Bytes → Bytes
add_bytes pk n [] = (pk, n) ∷ []
add_bytes pk n ((k, q) ∷ m) =
    let rest = add_bytes pk n m in if k == pk then (k, q + n) ∷ m else (k, q) ∷ rest

-- A sample of the kernel's counters: its time, the sums and the row of each peer.
pub record Counters : Type 0 where
  pub at : ℕ
  pub rx : ℕ
  pub tx : ℕ
  pub peers : Rows

abbrev pub no_counters : Counters
no_counters = record { at = 0; rx = 0; tx = 0; peers = [] }

-- The loop of `readTotalsFromKernel` over all peers of all devices, which `wgctrl` gives.
unfoldable pub tally : List (String × Row) → Counters → Counters
unfolding add_row
tally [] k = k
tally ((pk, r) ∷ peers) k =
    tally peers (record k { rx = k.rx + r.rx; tx = k.tx + r.tx; peers = add_row pk r k.peers })

unfoldable pub read_totals : ℕ → List (List (String × Row)) → Counters
unfolding tally
read_totals now devices = tally_devices devices (record no_counters { at = now })
  where
    tally_devices : List (List (String × Row)) → Counters → Counters
    tally_devices [] k = k
    tally_devices (d ∷ ds) k = tally_devices ds (tally d k)

abbrev pub recent_rate_window_samples : ℕ
recent_rate_window_samples = 15

module _ (fl : Floats) where
  open fl use {F, of_int, add, div, lt}

  abbrev pub zero_float : F
  zero_float = of_int (pos 0)

  -- What one slot of the ring holds beside its id: the entries of the source's arrays. A map of
  -- bytes that is nil or empty is `[]`.
  pub record Bucket : Type 0 where
    pub rx_sum : F
    pub rx_count : ℕ
    pub tx_sum : F
    pub tx_count : ℕ
    pub tx_max : F
    pub top_bps : F
    pub top_key : String
    pub peer_rx : Bytes
    pub peer_tx : Bytes

  pub record Slot : Type 0 where
    pub id : ℕ
    pub bucket : Bucket

  -- `resetBucket`
  unfoldable pub empty_bucket : Bucket
  empty_bucket = record {
    rx_sum = zero_float;
    rx_count = 0;
    tx_sum = zero_float;
    tx_count = 0;
    tx_max = zero_float;
    top_bps = zero_float;
    top_key = "";
    peer_rx = [];
    peer_tx = [];
  }

  -- The rates of one refresh, and the rows of the peers before and now.
  pub record Sample : Type 0 where
    pub dt : F
    pub rx_rate : F
    pub tx_rate : F
    pub before : Rows
    pub now : Rows

  -- `if x < 0 { x = 0 }`
  abbrev pub clamp : F → F
  clamp x = if lt x zero_float then zero_float else x

  pub record Top : Type 0 where
    pub bps : F
    pub key : String

  -- One round of the loop over the peers: the bucket and the most active peer so far. The difference
  -- of the counters stops at zero, as `drx` and `dtx` do.
  unfoldable pub add_peer : F → Rows → String → Row → Bucket × Top → Bucket × Top
  unfolding row_of add_bytes
  add_peer dt before pk r (b, top) = elim (row_of before pk) [
    | none ↦ (b, top)
    | some q ↦
        let total =
          add (clamp (div (of_int (sub r.rx q.rx)) dt)) (clamp (div (of_int (sub r.tx q.tx)) dt)) in
        (
          record b {
            peer_rx = if ltb q.rx r.rx then add_bytes pk (r.rx - q.rx) b.peer_rx else b.peer_rx;
            peer_tx = if ltb q.tx r.tx then add_bytes pk (r.tx - q.tx) b.peer_tx else b.peer_tx;
          },
          (if lt top.bps total then record { bps = total; key = pk } else top),
        )
  ]

  unfoldable pub add_peers : F → Rows → Rows → Bucket × Top → Bucket × Top
  unfolding add_peer
  add_peers dt before [] acc = acc
  add_peers dt before ((pk, r) ∷ rows) acc = add_peers dt before rows (add_peer dt before pk r acc)

  -- What a refresh adds to its bucket.
  unfoldable pub add_sample : Sample → Bucket → Bucket
  unfolding add_peers
  add_sample s b =
      let summed = record b {
        rx_sum = add b.rx_sum s.rx_rate;
        rx_count = suc b.rx_count;
        tx_sum = add b.tx_sum s.tx_rate;
        tx_count = suc b.tx_count;
        tx_max = if lt b.tx_max s.tx_rate then s.tx_rate else b.tx_max;
      } in
      let (b', top) =
        add_peers s.dt s.before s.now (summed, record { bps = zero_float; key = "" }) in
      if lt b'.top_bps top.bps then record b' { top_bps = top.bps; top_key = top.key } else b'

  pub record Cache : Type 0 where
    pub base_bucket_ms : ℕ
    pub max_base_buckets : ℕ
    pub slots : List Slot
    pub prev : Counters
    pub last_rx_rate : F
    pub last_tx_rate : F
    pub recent_rx : List F
    pub recent_tx : List F
    pub total_rx_bytes : ℕ
    pub total_tx_bytes : ℕ
    pub last_update : ℕ
    pub has_delta_sample : Bool

  -- The cache that `initTrafficCache` makes, whose ids are all zero.
  unfoldable pub new_cache : ℕ → ℕ → Cache
  unfolding empty_bucket
  new_cache ms n = record {
    base_bucket_ms = ms;
    max_base_buckets = n;
    slots = replicate n (record { id = 0; bucket = empty_bucket });
    prev = no_counters;
    last_rx_rate = zero_float;
    last_tx_rate = zero_float;
    recent_rx = [];
    recent_tx = [];
    total_rx_bytes = 0;
    total_tx_bytes = 0;
    last_update = 0;
    has_delta_sample = false;
  }

  -- `appendRecentWindow`
  unfoldable pub append_recent_window : List F → F → ℕ → List F
  append_recent_window buf v max_n =
      let longer = buf ++ v ∷ [] in if ltb max_n (length longer) then tail longer else longer
    where
      tail : List F → List F
      tail [] = []
      tail (x ∷ xs) = xs

  -- The rates between two samples of the counters: none at the first sample, and none where no time
  -- has passed.
  unfoldable pub sample_between : Counters → Counters → Option Sample
  sample_between before k =
      let dt = div (of_int (sub k.at before.at)) (of_int (pos 1000)) in
      if nat_eq before.at 0
      then none
      else if not (lt zero_float dt)
      then none
      else some (record {
        dt = dt;
        rx_rate = clamp (div (of_int (sub k.rx before.rx)) dt);
        tx_rate = clamp (div (of_int (sub k.tx before.tx)) dt);
        before = before.peers;
        now = k.peers;
      })

  -- `idxFor`, of an id that is not negative.
  abbrev pub idx_for : ℕ → ℕ → ℕ
  idx_for n bid = bid % n

  -- The slot of an id is reset if it holds another one, then the sample is added to it.
  unfoldable pub store_sample : ℕ → ℕ → Sample → List Slot → List Slot
  unfolding add_sample empty_bucket
  store_sample n bid s slots = elim (get_elem? slots (idx_for n bid)) [
    | none ↦ slots
    | some slot ↦ set slots (idx_for n bid) (record {
      id = bid;
      bucket = add_sample s (if nat_eq slot.id bid then slot.bucket else empty_bucket);
    })
  ]

  unfoldable pub record_sample : ℕ → Sample → Cache → Cache
  unfolding store_sample append_recent_window
  record_sample now s c = record c {
    last_rx_rate = s.rx_rate;
    last_tx_rate = s.tx_rate;
    recent_rx = append_recent_window c.recent_rx s.rx_rate recent_rate_window_samples;
    recent_tx = append_recent_window c.recent_tx s.tx_rate recent_rate_window_samples;
    slots = store_sample c.max_base_buckets (now / c.base_bucket_ms) s c.slots;
    has_delta_sample = true;
  }

  unfoldable pub take_sample : ℕ → Option Sample → Cache → Cache
  take_sample now none c = c
  take_sample now (some s) c = record_sample now s c

  -- `refreshOnce`, at a time, with the devices or `none` where they cannot be read.
  unfoldable pub refresh_once : ℕ → Option (List (List (String × Row))) → Cache → Cache
  unfolding take_sample
  refresh_once now none c = c
  refresh_once now (some devices) c =
      let k = read_totals now devices in
      let c' = take_sample now (sample_between c.prev k) c in
      record c' { total_rx_bytes = k.rx; total_tx_bytes = k.tx; prev = k; last_update = now }
