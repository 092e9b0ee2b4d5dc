-- ===== src/Learning/Scopes.antt =====
-- Scopes and adaptive weights of learning/models.py, and the weights that a profile's entries give.
use the_council.Prelude.{
  ℕ, ◌+◌, Bool, true, false, ◌&&◌, if◌then◌else◌, Option, none, some, List, [], ◌∷◌, String, ◌==◌,
  eqb, ltb, map,
}
use the_council.Prelude.Sort.{str_leb, sort_by}
use the_council.Floats.{Float, nought, of_nat, ◌⊕◌, ◌⊖◌, ◌⊗◌, ◌≤?◌, ◌=?◌}
use the_council.Result.{Result, ok, ◌>>◌, guard, invalid_field}
use the_council.Dict.{Dict, get, put}
use the_council.Schemas.Market.{is_some}

pub record WeightScope : Type 0 where
  pub asset_class : Option String
  pub symbol : Option String
  pub regime : Option String
  pub horizon_bars : Option ℕ

pub record AdaptiveWeight (F : Type 0) : Type 0 where
  pub long_term : F
  pub recent : F
  pub recent_mix : F

pub record ScopedAgentWeight (F : Type 0) : Type 0 where
  pub agent_id : String
  pub scope : WeightScope
  pub weight : AdaptiveWeight F

-- The market that a scope is matched with.
pub record Occasion : Type 0 where
  pub asset_class : Option String
  pub symbol : String
  pub regime : Option String
  pub horizon_bars : ℕ

abbrev pub same_text : Option String → Option String → Bool
same_text none none = true
same_text (some a) (some b) = a == b
same_text _ _ = false

abbrev pub same_bars : Option ℕ → Option ℕ → Bool
same_bars none none = true
same_bars (some m) (some n) = eqb m n
same_bars _ _ = false

-- `==` on scopes, field by field.
abbrev pub same_scope : WeightScope → WeightScope → Bool
same_scope a b =
    same_text a.asset_class b.asset_class
    && same_text a.symbol b.symbol
    && same_text a.regime b.regime
    && same_bars a.horizon_bars b.horizon_bars

abbrev counted : Bool → ℕ
counted true = 1
counted false = 0

unfoldable pub specificity : WeightScope → ℕ
specificity s =
    counted (is_some s.asset_class)
    + counted (is_some s.symbol)
    + counted (is_some s.regime)
    + counted (is_some s.horizon_bars)

abbrev text_or_empty : Option String → String
text_or_empty none = ""
text_or_empty (some s) = s

abbrev bars_or_zero : Option ℕ → ℕ
bars_or_zero none = 0
bars_or_zero (some n) = n

abbrev text_order : String → String → Bool → Bool
text_order a b rest = if a == b then rest else str_leb b a

abbrev number_order : ℕ → ℕ → Bool → Bool
number_order m n rest = if eqb m n then rest else ltb n m

-- `_scope_key(a) > _scope_key(b)`.
unfoldable pub outranks : WeightScope → WeightScope → Bool
outranks a b = number_order (specificity a) (specificity b) (
    text_order (text_or_empty a.asset_class) (text_or_empty b.asset_class) (
      text_order (text_or_empty a.symbol) (text_or_empty b.symbol) (
        text_order (text_or_empty a.regime) (text_or_empty b.regime)
          (ltb (bars_or_zero b.horizon_bars) (bars_or_zero a.horizon_bars)))))

-- A part of a scope that is set must be the market's.
abbrev wants : Option String → Option String → Bool
wants none value = true
wants (some a) value = same_text (some a) value

abbrev wants_bars : Option ℕ → ℕ → Bool
wants_bars none bars = true
wants_bars (some n) bars = eqb n bars

unfoldable pub scope_matches : Occasion → WeightScope → Bool
scope_matches o s =
    wants s.asset_class o.asset_class
    && wants s.symbol (some o.symbol)
    && wants s.regime o.regime
    && wants_bars s.horizon_bars o.horizon_bars

module _ {F : Type 0} where
  abbrev take_if :
      Bool → ScopedAgentWeight F → Dict (ScopedAgentWeight F) → Dict (ScopedAgentWeight F)
  take_if true entry matched = put entry.agent_id entry matched
  take_if false entry matched = matched

  -- `current is None or _scope_key(entry.scope) > _scope_key(current.scope)`.
  abbrev pub is_better : ScopedAgentWeight F → Option (ScopedAgentWeight F) → Bool
  is_better entry none = true
  is_better entry (some current) = outranks entry.scope current.scope

  -- The loop over the entries, with what is matched so far.
  abbrev pub match_all :
      Occasion
      → Dict (ScopedAgentWeight F)
      → List (ScopedAgentWeight F)
      → Dict (ScopedAgentWeight F)
  match_all o matched [] = matched
  match_all o matched (entry ∷ entries) =
      match_all o
        (take_if (scope_matches o entry.scope && is_better entry (get entry.agent_id matched)) entry
          matched)
        entries

module _ {F : Type 0} ⦃f : Float F⦄ where
  -- The field constraints of `AdaptiveWeight`.
  unfoldable pub are_weights : AdaptiveWeight F → Bool
  are_weights w =
      f.is_finite w.long_term
      && nought ≤? w.long_term
      && w.long_term ≤? of_nat 4
      && f.is_finite w.recent
      && nought ≤? w.recent
      && w.recent ≤? of_nat 4
      && f.is_finite w.recent_mix
      && nought ≤? w.recent_mix
      && w.recent_mix ≤? f.scientific 5 1

  unfoldable pub validate_weight : AdaptiveWeight F → Result (AdaptiveWeight F)
  validate_weight w = guard (are_weights w) invalid_field >> ok w

  -- `==` on weights.
  abbrev pub same_weight : AdaptiveWeight F → AdaptiveWeight F → Bool
  same_weight a b =
      a.long_term =? b.long_term && a.recent =? b.recent && a.recent_mix =? b.recent_mix

  abbrev pub effective : AdaptiveWeight F → F
  effective w = w.long_term ⊗ (of_nat 1 ⊖ w.recent_mix) ⊕ w.recent ⊗ w.recent_mix

  -- `WeightProfile.resolve` on the profile's entries.
  unfoldable pub resolve : Occasion → List (ScopedAgentWeight F) → Dict F
  resolve o entries =
      map (λ (e : String × ScopedAgentWeight F). (e.0, effective e.1.weight))
        (sort_by (λ (e : String × ScopedAgentWeight F). e.0) (match_all o [] entries))
