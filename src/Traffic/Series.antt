-- ===== src/Traffic/Series.antt =====
-- The series of a traffic chart: `buildSeries` of handler/wg_traffic_cache.go.
pub mod Refines
pub mod Window
use wireguard_ui.Prelude.{
  ℕ, zero, suc, ◌+◌, ◌-◌, ◌*◌, ◌/◌, String, Bool, true, false, ◌&&◌, ◌||◌, Option, none, some, List,
  [], ◌∷◌, map, ◌==◌, Ordering, ltb, leb, nat_eq, if◌then◌else◌,
}
use Prim.Native.String.{compare}
use wireguard_ui.Session.Values.{ℤ, pos, negsuc}
use wireguard_ui.Traffic.{Floats, Row, Rows, Bytes, Bucket, Slot, Cache, add_row, zero_float}
use wireguard_ui.Traffic.Ring.{find}

-- `TrafficRange`; `other` is any other text.
pub data Range : Type 0 where
  day week month other : Range

-- `rangeCfg`: the base buckets of the window, the bars, and the buckets of one bar; another range is
-- taken for a day.
pub record RangeConfig : Type 0 where
  pub range : Range
  pub window : ℕ
  pub count : ℕ
  pub factor : ℕ

abbrev pub range_cfg : Range → RangeConfig
range_cfg week = record { range = week; window = 336; count = 56; factor = 6 }
range_cfg month = record { range = month; window = 1440; count = 60; factor = 24 }
range_cfg _ = record { range = day; window = 48; count = 48; factor = 1 }

-- The age in seconds, which rounds towards zero where the clock was set back.
abbrev pub updated_age : ℕ → ℕ → ℤ
updated_age clock last =
    if leb last clock then pos ((clock - last) / 1000) else opposite ((last - clock) / 1000)
  where
    opposite : ℕ → ℤ
    opposite zero = pos 0
    opposite (suc n) = negsuc n

-- Whether a row stands before another one: by the bytes, downwards, then by the key.
abbrev pub is_before : String × Row → String × Row → Bool
is_before (j, p) (k, q) =
    if nat_eq (p.rx + p.tx) (q.rx + q.tx)
    then elim (compare j k) [ Ordering.lt ↦ true | _ ↦ false ]
    else ltb (q.rx + q.tx) (p.rx + p.tx)

insert_row : String × Row → Rows → Rows
insert_row e [] = e ∷ []
insert_row e (f ∷ rows) =
    let rest = insert_row e rows in if is_before f e then f ∷ rest else e ∷ f ∷ rows

-- `sort.Slice` by that order; the keys differ, so there is one result.
unfoldable pub sort_rows : Rows → Rows
unfolding insert_row
sort_rows [] = []
sort_rows (e ∷ rows) = insert_row e (sort_rows rows)

-- The loops over a bucket's maps.
unfoldable pub add_rx : Bytes → Rows → Rows
add_rx [] rows = rows
add_rx ((pk, n) ∷ m) rows = add_rx m (add_row pk (record { rx = n; tx = 0 }) rows)

unfoldable pub add_tx : Bytes → Rows → Rows
add_tx [] rows = rows
add_tx ((pk, n) ∷ m) rows = add_tx m (add_row pk (record { rx = 0; tx = n }) rows)

-- The peer with the most bytes of a group; of several such, the first in the list, where the source
-- takes the first in the random order of Go's iteration.
pub record TopRow : Type 0 where
  pub key : String
  pub row : Row

abbrev pub no_row : Row
no_row = record { rx = 0; tx = 0 }

unfoldable pub top_row : Rows → TopRow → TopRow
top_row [] t = t
top_row ((pk, r) ∷ rows) t =
    top_row rows
      (if ltb (t.row.rx + t.row.tx) (r.rx + r.tx) then record { key = pk; row = r } else t)

-- The id of the `k`-th base bucket of a window that ends with `cur`, if it is not negative: no slot
-- has a negative id.
abbrev pub bid_at : ℕ → ℕ → ℕ → Option ℕ
bid_at cur window k = if leb window (cur + 1 + k) then some (cur + 1 + k - window) else none

module _ (fl : Floats) where
  open fl use {F, of_int, add, mul, div, lt, le}

  -- The sums of a group of buckets, with the rows of its peers, and those of the whole window.
  pub record Sums : Type 0 where
    pub rx_sum : F
    pub rx_count : ℕ
    pub tx_sum : F
    pub tx_count : ℕ
    pub group : Rows
    pub totals : Rows

  pub record Bar : Type 0 where
    pub rx_avg : F
    pub tx_avg : F
    pub top : TopRow

  pub record SeriesResponse : Type 0 where
    pub range : Range
    pub buckets : List Bar
    pub peer_totals : Rows
    pub peer_current_totals : Rows
    pub max_total : F
    pub rx_rate_now : F
    pub tx_rate_now : F
    pub rx_rate_recent_max : F
    pub tx_rate_recent_max : F
    pub total_rx_bytes : ℕ
    pub total_tx_bytes : ℕ
    pub peak : F
    pub updated_age_secs : ℤ

  -- `maxFloatSlice`
  unfoldable pub max_float_slice : List F → F → F
  max_float_slice [] m = m
  max_float_slice (x ∷ xs) m = max_float_slice xs (if lt m x then x else m)

  unfoldable pub add_bucket : Option (Bucket fl) → Sums → Sums
  unfolding add_rx add_tx
  add_bucket none s = s
  add_bucket (some b) s = record {
    rx_sum = add s.rx_sum b.rx_sum;
    rx_count = s.rx_count + b.rx_count;
    tx_sum = add s.tx_sum b.tx_sum;
    tx_count = s.tx_count + b.tx_count;
    group = add_tx b.peer_tx (add_rx b.peer_rx s.group);
    totals = add_tx b.peer_tx (add_rx b.peer_rx s.totals);
  }

  abbrev pub average : F → ℕ → F
  average sum n = if ltb 0 n then div sum (of_int (pos n)) else zero_float fl

  -- The bars and the rows of the window so far, with the highest total rate.
  pub record Bars : Type 0 where
    pub bars : List Bar
    pub rows : Rows
    pub highest : F

  abbrev pub bar_of : Sums → Bar
  bar_of s = record {
    rx_avg = average s.rx_sum s.rx_count;
    tx_avg = average s.tx_sum s.tx_count;
    top = top_row s.group (record { key = ""; row = no_row });
  }

  abbrev pub new_sums : Rows → Sums
  new_sums rows = record {
    rx_sum = zero_float fl;
    rx_count = 0;
    tx_sum = zero_float fl;
    tx_count = 0;
    group = [];
    totals = rows;
  }

  -- The loops read the buckets of the window by their place in it.
  module _ (look : ℕ → Option (Bucket fl)) where
    -- The inner loop, from the `k`-th bucket on, over so many buckets.
    unfoldable pub add_group : ℕ → ℕ → Sums → Sums
    add_group k zero s = s
    add_group k (suc left) s = add_group (k + 1) left (add_bucket (look k) s)

    -- The loop over the bars.
    unfoldable pub make_bars : ℕ → ℕ → ℕ → Rows → F → Bars
    unfolding add_group
    make_bars factor k zero rows highest = record { bars = []; rows = rows; highest = highest }
    make_bars factor k (suc left) rows highest =
        let s = add_group k factor (new_sums rows) in
        let bar = bar_of s in
        let total = add bar.rx_avg bar.tx_avg in
        let rest =
          make_bars factor (k + factor) left s.totals
            (if lt highest total then total else highest) in
        record { bars = bar ∷ rest.bars; rows = rest.rows; highest = rest.highest }

  abbrev pub mbps : F → F
  mbps x = div (mul x (of_int (pos 8))) (of_int (pos 1_000_000))

  -- The peak of one bucket: its highest sample, or the average.
  unfoldable pub peak_of : Option (Bucket fl) → F → F
  peak_of none peak = peak
  peak_of (some b) peak =
      let sample =
        if le b.tx_max (zero_float fl) && ltb 0 b.tx_count
        then div b.tx_sum (of_int (pos b.tx_count))
        else b.tx_max in
      if lt peak (mbps sample) then mbps sample else peak

  module _ (look : ℕ → Option (Bucket fl)) where
    unfoldable pub peak_from : ℕ → ℕ → F → F
    unfolding peak_of
    peak_from k zero peak = peak
    peak_from k (suc left) peak = peak_from (k + 1) left (peak_of (look k) peak)

  abbrev pub place : (ℕ → Option (Bucket fl)) → Option ℕ → Option (Bucket fl)
  place look none = none
  place look (some bid) = look bid

  -- The response, from the bars, the peak and the fields of the cache.
  unfoldable pub respond : Range → Bars → F → Cache fl → ℕ → SeriesResponse
  unfolding max_float_slice sort_rows
  respond range made peak c clock = record {
    range = range;
    buckets = made.bars;
    peer_totals = sort_rows made.rows;
    peer_current_totals = sort_rows c.prev.peers;
    max_total = if le made.highest (zero_float fl) then of_int (pos 1) else made.highest;
    rx_rate_now = c.last_rx_rate;
    tx_rate_now = c.last_tx_rate;
    rx_rate_recent_max = max_float_slice c.recent_rx (zero_float fl);
    tx_rate_recent_max = max_float_slice c.recent_tx (zero_float fl);
    total_rx_bytes = c.total_rx_bytes;
    total_tx_bytes = c.total_tx_bytes;
    peak =
        if le peak (zero_float fl) && lt (zero_float fl) c.last_tx_rate
        then mbps c.last_tx_rate
        else peak;
    updated_age_secs = if nat_eq c.last_update 0 then pos 0 else updated_age clock c.last_update;
  }

  -- The series, from what finds the bucket of an id, at a time; `clock` is that of the age.
  unfoldable pub series_from : (ℕ → Option (Bucket fl)) → Cache fl → ℕ → ℕ → Range → SeriesResponse
  unfolding make_bars peak_from respond
  series_from look c clock now_ms r =
      let cfg = range_cfg r in
      let cur = now_ms / c.base_bucket_ms in
      let made =
        make_bars (λ k. place look (bid_at cur cfg.window k)) cfg.factor 0 cfg.count []
          (zero_float fl) in
      let peak = peak_from (λ k. place look (bid_at cur 48 k)) 0 48 (zero_float fl) in
      respond cfg.range made peak c clock

  unfoldable pub build_series : Cache fl → ℕ → ℕ → Range → SeriesResponse
  unfolding series_from find
  build_series c clock now_ms r = series_from (find fl c.max_base_buckets c.slots) c clock now_ms r
