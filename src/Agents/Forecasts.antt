-- ===== src/Agents/Forecasts.antt =====
-- Clamped values stay between the bounds, and a forecast made of a finite spread is a legal one.
use the_council.Prelude.{◌≡◌, Bool, true, false, some, inl, inr, Bool-cases, arith, if◌then◌else◌}
use the_council.Floats.{
  Float, nought, of_nat, unit_float, signed_unit_float, or_zero, ◌⊗◌, ◌<?◌, ◌=?◌,
}
use the_council.Floats.Laws.{IsIeee}
use the_council.Result.{ok}
use the_council.Schemas.Enums.{Direction, short, flat, long}
use the_council.Schemas.Signal.{check_direction}
use the_council.Agents.Signals.{clamp, direction_for, is_flat}

module _ {F : Type 0} ⦃f : Float F⦄ (laws : IsIeee F) where
  -- What holds of the bounds and of what lies between them holds of a clamped value.
  clamp_keeps :
      (p : F → Bool) (v lower upper : F)
      → p lower ≡ true
      → p upper ≡ true
      → ((lower <? v) ≡ true → (v <? upper) ≡ true → p v ≡ true)
      → p (clamp v lower upper) ≡ true
  clamp_keeps p v lower upper low high between = elim (Bool-cases (v <? upper)) [
    | inl below ↦ elim (Bool-cases (lower <? v)) [
      | inl above ↦ rw (below, above) (between above below)
      | inr under ↦ rw (below, under) low
    ]
    | inr beyond ↦ elim (Bool-cases (lower <? upper)) [
      | inl order ↦ rw (beyond, order) high
      | inr other ↦ rw (beyond, other) low
    ]
  ]

  pub clamp_unit : (v : F) → unit_float (clamp v (f.scientific 5 2) (of_nat 1)) ≡ true
  clamp_unit v =
      clamp_keeps unit_float v (f.scientific 5 2) (of_nat 1) laws.unit_low laws.unit_one
        (λ above below. ground (
          arith,
          laws.between_finite (f.scientific 5 2) v (of_nat 1) above below,
          laws.le_trans nought (f.scientific 5 2) v (ground (arith, laws.unit_low))
              (laws.lt_le (f.scientific 5 2) v above),
          laws.lt_le v (of_nat 1) below,
        ))

  clamp_signed : (v : F) → signed_unit_float (clamp v (f.neg (of_nat 1)) (of_nat 1)) ≡ true
  clamp_signed v =
      clamp_keeps signed_unit_float v (f.neg (of_nat 1)) (of_nat 1) laws.signed_minus_one
        laws.signed_one
        (λ above below. ground (
          arith,
          laws.between_finite (f.neg (of_nat 1)) v (of_nat 1) above below,
          laws.lt_le (f.neg (of_nat 1)) v above,
          laws.lt_le v (of_nat 1) below,
        ))

  -- A forecast that `check_signal` has nothing against.
  pub record IsForecast (direction : Direction) (expected exposure : F) : Type 0 where
    pub finite : f.is_finite expected ≡ true
    pub bounded : signed_unit_float exposure ≡ true
    pub sided : check_direction direction (some expected) ≡ ok tt

  pub irreflexive : (nought {F = F} <? nought) ≡ false
  irreflexive = elim (Bool-cases (nought {F = F} <? nought)) [
    | inl less ↦ laws.lt_asym nought nought less
    | inr other ↦ other
  ]

  zero-IsForecast : IsForecast flat nought nought
  zero-IsForecast = record {
    finite = ground (arith, laws.unit_zero);
    bounded = laws.signed_zero;
    sided = ground (arith, laws.eq_refl nought (ground (arith, laws.unit_zero)));
  }

  or_zero_below : (x : F) → (x <? nought) ≡ false → (or_zero (some x) <? nought) ≡ false
  or_zero_below x h = elim (Bool-cases (x =? nought)) [
    | inl zero_ ↦ rw zero_ irreflexive
    | inr other ↦ rw other h
  ]

  or_zero_above : (x : F) → (nought <? x) ≡ false → (nought <? or_zero (some x)) ≡ false
  or_zero_above x h = elim (Bool-cases (x =? nought)) [
    | inl zero_ ↦ rw zero_ irreflexive
    | inr other ↦ rw other h
  ]

  long-IsForecast :
      (x exposure : F)
      → f.is_finite x ≡ true
      → signed_unit_float exposure ≡ true
      → (nought <? x ⊗ of_nat 20) ≡ true
      → IsForecast long x exposure
  long-IsForecast x exposure finite bounded up = record {
    finite = finite;
    bounded = bounded;
    sided = ground (
      arith,
      or_zero_below x (elim (Bool-cases (x <? nought)) [
        | inl less ↦ cc (laws.twenty_neg x less, up)
        | inr other ↦ other
      ]),
    );
  }

  short-IsForecast :
      (x exposure : F)
      → f.is_finite x ≡ true
      → signed_unit_float exposure ≡ true
      → (nought <? x ⊗ of_nat 20) ≡ false
      → IsForecast short x exposure
  short-IsForecast x exposure finite bounded down = record {
    finite = finite;
    bounded = bounded;
    sided = ground (
      arith,
      or_zero_above x (elim (Bool-cases (nought <? x)) [
        | inl more ↦ cc (laws.twenty_pos x more, down)
        | inr other ↦ other
      ]),
    );
  }

  -- The forecast of a finite spread is one, whichever way it goes.
  abbrev pub Forecasts : F → Direction × F → Type 0
  Forecasts x (direction, exposure) =
      IsForecast direction (if is_flat direction then nought else x) exposure

  pub direction_for-Forecasts :
      (x : F) → f.is_finite x ≡ true → Forecasts x (direction_for (x ⊗ of_nat 20))
  unfolding direction_for
  direction_for-Forecasts x finite = elim (Bool-cases (f.abs (x ⊗ of_nat 20) <? f.scientific 5 2)) [
    | inl small ↦ rw small zero-IsForecast
    | inr large ↦ elim (Bool-cases (nought <? x ⊗ of_nat 20)) [
      | inl up ↦ rw (large, up) (long-IsForecast x _ finite (clamp_signed (x ⊗ of_nat 20)) up)
      | inr down ↦
          rw (large, down) (short-IsForecast x _ finite (clamp_signed (x ⊗ of_nat 20)) down)
    ]
  ]
