-- ===== src/Trading.antt =====
-- What risk/governor.py and execution/paper.py both compute: the sign of a side, the adverse
-- slippage of a fill, and whether a quantity strictly falls in size.
use the_council.Prelude.{
  Bool, true, false, ◌&&◌, if◌then◌else◌, Option, none, some, List, String, ◌==◌, find?,
}
use the_council.Floats.{Float, nought, of_nat, fmax, ◌⊖◌, ◌⊗◌, ◌⊘◌, ◌<?◌, ◌≤?◌}
use the_council.Schemas.Enums.{OrderSide, buy, sell}
use the_council.Schemas.Order.{Position}

module _ {F : Type 0} ⦃f : Float F⦄ where
  abbrev pub quantity_abs_tolerance : F
  quantity_abs_tolerance = f.scientific 1 12

  abbrev pub notional_abs_tolerance : F
  notional_abs_tolerance = f.scientific 1 9

  abbrev pub exposure_abs_tolerance : F
  exposure_abs_tolerance = f.scientific 1 12

  abbrev pub direction : OrderSide → F
  direction buy = of_nat 1
  direction sell = f.neg (of_nat 1)

  abbrev pub is_flat : F → Bool
  is_flat quantity = f.abs quantity ≤? quantity_abs_tolerance

  -- `max(0.0, direction * (fill_price / reference_price - 1) * 10_000)`.
  unfoldable pub adverse_slippage : OrderSide → F → F → F
  adverse_slippage side fill_price reference_price =
      fmax nought (direction side ⊗ (fill_price ⊘ reference_price ⊖ of_nat 1) ⊗ of_nat 10_000)

  unfoldable pub strictly_reduces : F → F → Bool
  strictly_reduces current prospective =
      if is_flat current
      then false
      else if is_flat prospective
      then true
      else nought <? current ⊗ prospective
        && f.abs prospective <? f.abs current ⊖ quantity_abs_tolerance

  -- The quantity held of a symbol, 0.0 if there is no position.
  abbrev pub find_position : String → List (Position F) → Option (Position F)
  find_position symbol = find? (λ p. p.symbol == symbol)

  abbrev pub held_quantity : Option (Position F) → F
  held_quantity none = nought
  held_quantity (some p) = p.quantity

  -- A quantity within the tolerance is exactly zero.
  abbrev pub settle : F → F
  settle q = if is_flat q then nought else q

  abbrev pub signed_quantity : OrderSide → F → F
  signed_quantity buy q = q
  signed_quantity sell q = f.neg q
