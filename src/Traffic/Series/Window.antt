-- ===== src/Traffic/Series/Window.antt =====
-- The bars part the window: none of its buckets is left out or counted twice.
use wireguard_ui.Prelude.{
  ℕ, zero, suc, ◌+◌, ◌*◌, ◌<◌, ◌≡◌, refl, sym, ap, ◌∙◌, Option, none, some, [], get_elem?, arith,
}
use wireguard_ui.Traffic.{Floats, Rows, Bucket}
use wireguard_ui.Traffic.Series.{Sums, add_bucket, bar_of, new_sums, add_group, make_bars}

module _ (fl : Floats) where
  -- The sums of a group without those of the window.
  abbrev of_group : Sums fl → Sums fl
  of_group s = record s { totals = [] }

  of_group-add_bucket :
      (b : Option (Bucket fl)) (s s' : Sums fl)
      → of_group s ≡ of_group s'
      → of_group (add_bucket fl b s) ≡ of_group (add_bucket fl b s')
  unfolding add_bucket
  of_group-add_bucket none s s' e = e
  of_group-add_bucket (some b) s s' e = ap (λ (x : Sums fl). of_group (add_bucket fl (some b) x)) e

  totals-add_bucket :
      (b : Option (Bucket fl)) (s s' : Sums fl)
      → s.totals ≡ s'.totals
      → (add_bucket fl b s).totals ≡ (add_bucket fl b s').totals
  unfolding add_bucket
  totals-add_bucket none s s' e = e
  totals-add_bucket (some b) s s' e =
      ap (λ (rows : Rows). (add_bucket fl (some b) (new_sums fl rows)).totals) e

  module _ (look : ℕ → Option (Bucket fl)) where
    of_group-add_group :
        (k left : ℕ) (s s' : Sums fl)
        → of_group s ≡ of_group s'
        → of_group (add_group fl look k left s) ≡ of_group (add_group fl look k left s')
    unfolding add_group
    of_group-add_group k zero s s' e = e
    of_group-add_group k (suc left) s s' e =
        of_group-add_group (k + 1) left (add_bucket fl (look k) s) (add_bucket fl (look k) s')
          (of_group-add_bucket (look k) s s' e)

    totals-add_group :
        (k left : ℕ) (s s' : Sums fl)
        → s.totals ≡ s'.totals
        → (add_group fl look k left s).totals ≡ (add_group fl look k left s').totals
    unfolding add_group
    totals-add_group k zero s s' e = e
    totals-add_group k (suc left) s s' e =
        totals-add_group (k + 1) left (add_bucket fl (look k) s) (add_bucket fl (look k) s')
          (totals-add_bucket (look k) s s' e)

    add_group-add :
        (k a b : ℕ) (s : Sums fl)
        → add_group fl look k (a + b) s ≡ add_group fl look (k + a) b (add_group fl look k a s)
    unfolding add_group
    add_group-add k zero b s =
        let same : 0 + b ≡ b = omega arith in
        let there : k ≡ k + 0 = omega arith in
        ap (λ (m : ℕ). add_group fl look k m s) same ∙ ap (λ (j : ℕ). add_group fl look j b s) there
    add_group-add k (suc a) b s =
        let more : suc a + b ≡ suc (a + b) = omega arith in
        let there : k + 1 + a ≡ k + suc a = omega arith in
        let s₁ = add_bucket fl (look k) s in
        ap (λ (m : ℕ). add_group fl look k m s) more
        ∙ add_group-add (k + 1) a b s₁
        ∙ ap (λ (j : ℕ). add_group fl look j b (add_group fl look (k + 1) a s₁)) there

    rows-make_bars :
        (factor k count : ℕ) (rows : Rows) (highest : fl.F)
        → (make_bars fl look factor k count rows highest).rows
          ≡ (add_group fl look k (count * factor) (new_sums fl rows)).totals
    unfolding make_bars add_group
    rows-make_bars factor k zero rows highest =
        let nothing : 0 ≡ 0 * factor = omega arith in
        ap (λ (m : ℕ). (add_group fl look k m (new_sums fl rows)).totals) nothing
    rows-make_bars factor k (suc count) rows highest =
        let s = add_group fl look k factor (new_sums fl rows) in
        let all : factor + count * factor ≡ suc count * factor = omega arith in
        rows-make_bars factor (k + factor) count s.totals _
        ∙ totals-add_group (k + factor) (count * factor) (new_sums fl s.totals) s refl
        ∙ ap (λ (x : Sums fl). x.totals)
            (sym (add_group-add k factor (count * factor) (new_sums fl rows)))
        ∙ ap (λ (m : ℕ). (add_group fl look k m (new_sums fl rows)).totals) all

    bars-make_bars :
        (factor k count i : ℕ) (rows : Rows) (highest : fl.F)
        → i < count
        → get_elem? (make_bars fl look factor k count rows highest).bars i
          ≡ some (bar_of fl (add_group fl look (k + i * factor) factor (new_sums fl [])))
    unfolding make_bars
    bars-make_bars factor k zero i rows highest h = absurd (omega arith)
    bars-make_bars factor k (suc count) zero rows highest h =
        let there : k ≡ k + 0 * factor = omega arith in
        ap (λ (x : Sums fl). some (bar_of fl x))
          (of_group-add_group k factor (new_sums fl rows) (new_sums fl []) refl)
        ∙ ap (λ (j : ℕ). some (bar_of fl (add_group fl look j factor (new_sums fl [])))) there
    bars-make_bars factor k (suc count) (suc i) rows highest h =
        let there : k + factor + i * factor ≡ k + suc i * factor = omega arith in
        bars-make_bars factor (k + factor) count i _ _ (omega arith)
        ∙ ap (λ (j : ℕ). some (bar_of fl (add_group fl look j factor (new_sums fl [])))) there

    -- Over the buckets of the window, from place 0 on, every bar within the count shows its own
    -- `factor` buckets and no others, and the peers' rows of the series are those of one sum over all
    -- the buckets of the bars: no bucket is left out or counted twice.
    pub make_bars_part :
        (factor count i : ℕ) (highest : fl.F)
        → i < count
        → (get_elem? (make_bars fl look factor 0 count [] highest).bars i
            ≡ some (bar_of fl (add_group fl look (i * factor) factor (new_sums fl []))))
          × ((make_bars fl look factor 0 count [] highest).rows
              ≡ (add_group fl look 0 (count * factor) (new_sums fl [])).totals)
    make_bars_part factor count i highest h =
        let there : 0 + i * factor ≡ i * factor = omega arith in
        (
          bars-make_bars factor 0 count i [] highest h
              ∙ ap (λ (j : ℕ). some (bar_of fl (add_group fl look j factor (new_sums fl []))))
                  there,
          rows-make_bars factor 0 count [] highest,
        )
