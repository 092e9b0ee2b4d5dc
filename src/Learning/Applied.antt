-- ===== src/Learning/Applied.antt =====
-- `apply_changes` and `reduced_changes` of learning/profiles.py.
use the_council.Prelude.{
  ℕ, Bool, true, false, ◌&&◌, Option, none, some, List, [], ◌∷◌, String, ◌==◌, all, any,
}
use Prim.Native.String.{◌++◌}
use the_council.Floats.{Float, of_nat, ◌⊕◌, ◌⊘◌}
use the_council.Result.{Result, ok, ◌>>=◌, ◌>>◌, guard, traverse, weight_differs, undeclared_scope}
use the_council.Learning.Scopes.{
  WeightScope, ScopedAgentWeight, same_scope, same_weight, validate_weight,
}
use the_council.Learning.Models.{
  WeightProfile, WeightChange, validate_profile, generation_name, learning_schema_version,
}

module _ {F : Type 0} where
  abbrev pub is_for : String → WeightScope → WeightChange F → Bool
  is_for agent scope c = c.agent_id == agent && same_scope c.scope scope

  abbrev or_first : Option (WeightChange F) → Bool → WeightChange F → Option (WeightChange F)
  or_first (some last) test c = some last
  or_first none true c = some c
  or_first none false c = none

  -- `replacements.get(identity)`: of several changes the last.
  abbrev pub replacement : String → WeightScope → List (WeightChange F) → Option (WeightChange F)
  replacement agent scope [] = none
  replacement agent scope (c ∷ changes) =
      or_first (replacement agent scope changes) (is_for agent scope c) c

  -- `applied == set(replacements)`, since what is applied is a replacement.
  abbrev pub are_declared : List (ScopedAgentWeight F) → List (WeightChange F) → Bool
  are_declared entries changes =
      all
        (λ (c : WeightChange F).
          any (λ (e : ScopedAgentWeight F). is_for e.agent_id e.scope c) entries)
        changes

module _ {F : Type 0} ⦃f : Float F⦄ where
  abbrev pub applied_to :
      ScopedAgentWeight F → Option (WeightChange F) → Result (ScopedAgentWeight F)
  applied_to entry none = ok entry
  applied_to entry (some change) = do
    guard (same_weight change.current entry.weight) weight_differs
    ok (record entry { weight = change.proposed })

  unfoldable pub applied_entries :
      List (WeightChange F) → List (ScopedAgentWeight F) → Result (List (ScopedAgentWeight F))
  applied_entries changes entries =
      traverse (λ (e : ScopedAgentWeight F). applied_to e (replacement e.agent_id e.scope changes))
        entries

  -- `apply_changes`, with the generation that its callers give or leave out.
  unfoldable pub apply_changes :
      (identity : WeightProfile F → String)
      → WeightProfile F
      → List (WeightChange F)
      → (created_at : ℕ) → (scoring_version : String) → (generation : ℕ) → Result (WeightProfile F)
  apply_changes identity base changes created_at scoring_version generation = do
    entries ← applied_entries changes base.entries
    guard (are_declared base.entries changes) undeclared_scope
    validate_profile identity (record {
      schema_version = learning_schema_version;
      generation = generation;
      generation_id = generation_name generation;
      parent_generation_id = some base.generation_id;
      created_at = created_at;
      entries = entries;
      scoring_version = scoring_version;
      profile_id = "";
    })

  abbrev halfway : F → F → F
  halfway a b = (a ⊕ b) ⊘ of_nat 2

  unfoldable pub reduced_change : WeightChange F → Result (WeightChange F)
  reduced_change c = do
    proposed ← validate_weight (record {
      long_term = halfway c.current.long_term c.proposed.long_term;
      recent = halfway c.current.recent c.proposed.recent;
      recent_mix = c.proposed.recent_mix;
    })
    ok (record c { proposed = proposed; reason = c.reason ++ " Reduced by Teacher validation." })

  unfoldable pub reduced_changes : List (WeightChange F) → Result (List (WeightChange F))
  reduced_changes changes = traverse reduced_change changes
