-- ===== src/Traffic/Ring.antt =====
-- The slots of the ring, and the bucket that a history of samples makes of an id.
pub mod History
use native.Mathlib.Nat.{
  mod-add-mod, mod-eq_of_lt, mod-eq-sub-mod, mod-lt, div-mul-le_self, le-div_iff_mul-le,
}
use native.Mathlib.Decide.{dec_lt}
use wireguard_ui.Prelude.{
  ℕ, ◌+◌, ◌-◌, ◌/◌, ◌%◌, ◌≤◌, ◌<◌, String, ◌≡◌, refl, ap, ◌∙◌, Option, none, some, List, [], ◌∷◌,
  nat_eq, length, get_elem?, if◌then◌else◌, arith, Bool-cases, Option-cases, inl, inr,
  get_elem?-set, length-set, get_elem?_in, get_elem?-replicate, length-replicate,
}
use wireguard_ui.Traffic.{
  Floats, Row, Counters, Bucket, Slot, Sample, Cache, empty_bucket, add_sample, new_cache,
  sample_between, idx_for, store_sample, record_sample, read_totals, refresh_once,
}

-- Two numbers less than `n` apart with the same remainder are equal.
mod_close : (n a k : ℕ) → 0 < n → k < n → (a + k) % n ≡ a % n → k ≡ 0
mod_close n a k pos close e =
    let r = mod-lt a {m = n} pos in
    let shift : (a % n + k) % n ≡ a % n = mod-add-mod a n k ∙ e in
    elim (dec_lt (a % n + k) n) [
      | yes p ↦ omega (arith, mod-eq_of_lt p)
      | no p ↦ omega (
        arith,
        mod-eq-sub-mod {n = a % n + k} {m = n} (omega arith),
        mod-eq_of_lt {n = a % n + k - n} {m = n} (omega arith),
      )
    ]

pub same_slot : (n a b : ℕ) → 0 < n → a ≤ b → b < a + n → b % n ≡ a % n → a ≡ b
same_slot n a b pos le close e =
    let back : a + (b - a) ≡ b = omega arith in
    omega (arith, mod_close n a (b - a) pos (omega arith) (rw back e))

pub div_mono : (m a b : ℕ) → 0 < m → a ≤ b → a / m ≤ b / m
div_mono m a b pos h = (le-div_iff_mul-le pos).1 (omega (arith, div-mul-le_self a m))

module _ (fl : Floats) where
  -- The bucket of an id, if its slot holds that id.
  unfoldable pub find : ℕ → List (Slot fl) → ℕ → Option (Bucket fl)
  find n slots bid = elim (get_elem? slots (idx_for fl n bid)) [
    | none ↦ none
    | some slot ↦ if nat_eq slot.id bid then some slot.bucket else none
  ]

  abbrev pub or_empty : Option (Bucket fl) → Bucket fl
  or_empty none = empty_bucket fl
  or_empty (some b) = b

  -- The bucket of an id over a history of samples with their ids, the newest first, in which the
  -- bucket of id zero is there from the start.
  unfoldable pub bucket_of : ℕ → List (ℕ × Sample fl) → Option (Bucket fl)
  bucket_of bid [] = if nat_eq 0 bid then some (empty_bucket fl) else none
  bucket_of bid ((b, s) ∷ older) =
      let rest = bucket_of bid older in
      if nat_eq b bid then some (add_sample fl s (or_empty rest)) else rest

  pub find-store_sample :
      (n bid b : ℕ) (s : Sample fl) (slots : List (Slot fl))
      → 0 < n
      → length slots ≡ n
      → find n (store_sample fl n bid s slots) b ≡ (
          if nat_eq bid b
          then some (add_sample fl s (or_empty (find n slots bid)))
          else if nat_eq (bid % n) (b % n)
          then none
          else find n slots b)
  unfolding find store_sample
  find-store_sample n bid b s slots pos len =
      let r : bid % n < n = mod-lt bid {m = n} pos in
      let (slot, at) = get_elem?_in slots (bid % n) (omega arith) in
      elim (Bool-cases (nat_eq bid b)) [
        | inl same ↦
            let e : bid ≡ b = ground arith in
            ground (
              arith,
              ap (λ (t : ℕ). t % n) e,
              get_elem?-set slots (bid % n) (b % n) (record {
                id = bid;
                bucket =
                    add_sample fl s (if nat_eq slot.id bid then slot.bucket else empty_bucket fl);
              }),
            )
        | inr other ↦ ground (
          arith,
          get_elem?-set slots (bid % n) (b % n) (record {
            id = bid;
            bucket = add_sample fl s (if nat_eq slot.id bid then slot.bucket else empty_bucket fl);
          }),
        )
      ]

  pub length-store_sample :
      (n bid : ℕ) (s : Sample fl) (slots : List (Slot fl))
      → length (store_sample fl n bid s slots) ≡ length slots
  unfolding store_sample
  length-store_sample n bid s slots = elim (Option-cases (get_elem? slots (bid % n))) [
    | inl out ↦ ground arith
    | inr (slot, at) ↦ ground (
      arith,
      length-set slots (bid % n) (record {
        id = bid;
        bucket = add_sample fl s (if nat_eq slot.id bid then slot.bucket else empty_bucket fl);
      }),
    )
  ]
