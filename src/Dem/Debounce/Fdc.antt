-- ===== src/Dem/Debounce/Fdc.antt =====
-- The fault detection counter of ISO 14229-1: [passed threshold, failed threshold] goes to [-128, 127].
use plug_and_play_autosar.Common.{
  ℕ, suc, ◌*◌, ◌-◌, ◌/◌, ◌≤◌, ◌<◌, ℤ, pos, negsuc, ◌≤ℤ◌, ◌+ℤ◌, ◌-ℤ◌, ◌*ℤ◌, ◌/ℤ◌, to_sint8,
  to_sint8_of_range, ◌≡◌, ap, ◌∙◌, ap₂, refl, arith, int_laws, pos_part, neg_part, sub_ℕ,
}
use native.Mathlib.Nat.{mul-div_cancel}
use plug_and_play_autosar.Dem.Types.{CounterBased}
use plug_and_play_autosar.Dem.Debounce.{
  div_signed, uds_test_passed_threshold, uds_fdc_range, fdc_internal_to_uds_fdc,
}
use plug_and_play_autosar.Dem.Debounce.Counter.{IsCounterConfig, InThresholds}

-- The quotient that the code takes, before the cast.
abbrev scaled : ℕ → ℕ → ℤ
scaled d r = (pos uds_fdc_range *ℤ pos d +ℤ uds_test_passed_threshold *ℤ pos r) /ℤ r

pos-mul : (a b : ℕ) → pos a *ℤ pos b ≡ pos (a * b)
unfolding ◌*ℤ◌
pos-mul a b = ground arith

negsuc-mul : (a b : ℕ) → negsuc a *ℤ pos b ≡ sub_ℕ 0 (suc a * b)
unfolding ◌*ℤ◌
negsuc-mul a b = ground arith

pos-add-sub : (a b : ℕ) → pos a +ℤ sub_ℕ 0 b ≡ sub_ℕ a b
unfolding ◌+ℤ◌
pos-add-sub a b = ground arith

parts-sub : (a b : ℕ) → (pos_part (sub_ℕ a b) ≡ a - b) × (neg_part (sub_ℕ a b) ≡ b - a)
parts-sub a b = ground arith

sub-div : (a b r : ℕ) → sub_ℕ a b /ℤ r ≡ sub_ℕ ((a - b) / r) ((b - a) / r)
unfolding ◌/ℤ◌
sub-div a b r = ap₂ (λ x y. sub_ℕ (x / r) (y / r)) (parts-sub a b).0 (parts-sub a b).1

scaled_lem : (d r : ℕ) → scaled d r ≡ sub_ℕ ((255 * d - 128 * r) / r) ((128 * r - 255 * d) / r)
scaled_lem d r = rw (pos-mul, negsuc-mul, pos-add-sub) (sub-div (255 * d) (128 * r) r)

up-le : (d r : ℕ) → 0 < r → d ≤ r → (255 * d - 128 * r) / r ≤ 127
up-le d r p h = grind arith

down-le : (d r : ℕ) → 0 < r → (128 * r - 255 * d) / r ≤ 128
down-le d r p = grind arith

scaled_range : (d r : ℕ) → 0 < r → d ≤ r → (negsuc 127 ≤ℤ scaled d r) × (scaled d r ≤ℤ pos 127)
scaled_range d r p h = rw scaled_lem (ground (arith, up-le d r p h, down-le d r p))

div_mono : (a b r : ℕ) → a ≤ b → a / r ≤ b / r
div_mono a b r h = grind arith

scaled_mono : (d e r : ℕ) → d ≤ e → scaled d r ≤ℤ scaled e r
scaled_mono d e r h =
    rw (scaled_lem d r, scaled_lem e r)
      (ground (
        arith,
        div_mono (255 * d - 128 * r) (255 * e - 128 * r) r,
        div_mono (128 * r - 255 * e) (128 * r - 255 * d) r,
      ))

-- The quotient is a whole number at either end of the range.
whole : (a b k r : ℕ) → 0 < r → a - b ≡ k * r → (a - b) / r ≡ k
whole a b k r p e = rw e (mul-div_cancel k p)

scaled_ends : (r : ℕ) → 0 < r → (scaled 0 r ≡ negsuc 127) × (scaled r r ≡ pos 127)
scaled_ends r p = (
  rw scaled_lem (
      ground (
        arith,
        whole (128 * r) (255 * 0) 128 r p (omega arith),
        whole (255 * 0) (128 * r) 0 r p (omega arith),
      )),
  rw scaled_lem (
      ground (
        arith,
        whole (255 * r) (128 * r) 127 r p (omega arith),
        whole (128 * r) (255 * r) 0 r p (omega arith),
      )),
)

-- Where the counter and the failed threshold stand above the passed threshold.
abbrev height : ℤ → CounterBased → ℕ
height fdc v = pos_part (fdc -ℤ v.passed_threshold)

pos_of_nonneg : (x : ℤ) → pos 0 ≤ℤ x → x ≡ pos (pos_part x)
pos_of_nonneg (pos n) h = refl
pos_of_nonneg (negsuc n) h = absurd (omega arith)

pos_part_mono : (x y : ℤ) → x ≤ℤ y → pos_part x ≤ pos_part y
pos_part_mono x y h = ground arith

height_self : (v : CounterBased) → height v.passed_threshold v ≡ 0
unfolding ◌-ℤ◌
height_self v = ground arith

div_signed_lem :
    (x y : ℤ) (d r : ℕ)
    → x ≡ pos d
    → y ≡ pos r
    → div_signed (pos uds_fdc_range *ℤ x +ℤ uds_test_passed_threshold *ℤ y) y ≡ scaled d r
div_signed_lem x y d r p q = rw (p, q)

module _ (v : CounterBased) (c : IsCounterConfig v) where
  height_lem :
      (fdc : ℤ) → v.passed_threshold ≤ℤ fdc → fdc -ℤ v.passed_threshold ≡ pos (height fdc v)
  height_lem fdc h = pos_of_nonneg (fdc -ℤ v.passed_threshold) (omega int_laws)

  range_pos : 0 < height v.failed_threshold v
  range_pos = omega int_laws

  height_mono : (f g : ℤ) → v.passed_threshold ≤ℤ f → f ≤ℤ g → height f v ≤ height g v
  height_mono f g h k =
      pos_part_mono (f -ℤ v.passed_threshold) (g -ℤ v.passed_threshold) (omega int_laws)

  fdc_lem :
      (fdc : ℤ)
      → InThresholds v fdc
      → fdc_internal_to_uds_fdc fdc v ≡ scaled (height fdc v) (height v.failed_threshold v)
  unfolding fdc_internal_to_uds_fdc
  fdc_lem fdc h =
      let r = height v.failed_threshold v in
      let d = height fdc v in
      let fits =
        scaled_range d r range_pos
          (height_mono fdc v.failed_threshold h.above_passed h.below_failed) in
      ap to_sint8 (
        div_signed_lem _ _ d r (height_lem fdc h.above_passed)
          (height_lem v.failed_threshold (omega arith)))
      ∙ to_sint8_of_range (scaled d r) fits.0 fits.1

  -- The failed and the passed threshold have the counters 127 and -128, and between them a higher
  -- internal counter never has a lower one: no cast wraps.
  pub fdc_internal_to_uds_fdc_scales :
      (f g : ℤ)
      → InThresholds v f
      → InThresholds v g
      → f ≤ℤ g
      → (negsuc 127 ≤ℤ fdc_internal_to_uds_fdc f v)
        × (fdc_internal_to_uds_fdc f v ≤ℤ fdc_internal_to_uds_fdc g v)
        × (fdc_internal_to_uds_fdc g v ≤ℤ pos 127)
        × (fdc_internal_to_uds_fdc v.passed_threshold v ≡ negsuc 127)
        × (fdc_internal_to_uds_fdc v.failed_threshold v ≡ pos 127)
  fdc_internal_to_uds_fdc_scales f g hf hg le =
      let r = height v.failed_threshold v in
      rw
        (
          fdc_lem f hf,
          fdc_lem g hg,
          fdc_lem v.passed_threshold (omega arith),
          fdc_lem v.failed_threshold (omega arith),
        )
        (
          (scaled_range (height f v) r range_pos
              (height_mono f v.failed_threshold hf.above_passed hf.below_failed)).0,
          scaled_mono (height f v) (height g v) r (height_mono f g hf.above_passed le),
          (scaled_range (height g v) r range_pos
              (height_mono g v.failed_threshold hg.above_passed hg.below_failed)).1,
          ap (λ d. scaled d r) (height_self v) ∙ (scaled_ends r range_pos).0,
          (scaled_ends r range_pos).1,
        )
