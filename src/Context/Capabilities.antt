-- ===== src/Context/Capabilities.antt =====
-- `ContextCapability` of context/models.py, and its frozen sets. A set is the test of its members.
use the_council.Prelude.{
  ◌≡◌, refl, Bool, true, false, not, ◌&&◌, ◌||◌, List, [], ◌∷◌, String, ◌==◌, map, all, select,
  arith,
}

pub data ContextCapability : Type 0 where
  price_history benchmark_performance sector_classification relative_strength : ContextCapability
  correlations realized_volatility market_breadth rates_and_yields : ContextCapability
  macro_indicators event_calendar : ContextCapability

abbrev pub capability_value : ContextCapability → String
capability_value price_history = "price_history"
capability_value benchmark_performance = "benchmark_performance"
capability_value sector_classification = "sector_classification"
capability_value relative_strength = "relative_strength"
capability_value correlations = "correlations"
capability_value realized_volatility = "realized_volatility"
capability_value market_breadth = "market_breadth"
capability_value rates_and_yields = "rates_and_yields"
capability_value macro_indicators = "macro_indicators"
capability_value event_calendar = "event_calendar"

-- Members of a `StrEnum` are equal if their texts are.
abbrev pub is_capability : ContextCapability → ContextCapability → Bool
is_capability a b = capability_value a == capability_value b

-- Every member, in the order of the texts.
abbrev pub capabilities : List ContextCapability
capabilities =
    benchmark_performance ∷ correlations ∷ event_calendar ∷ macro_indicators ∷ market_breadth
    ∷ price_history ∷ rates_and_yields ∷ realized_volatility ∷ relative_strength
    ∷ sector_classification ∷ []

abbrev pub Capabilities : Type 0
Capabilities = ContextCapability → Bool

abbrev pub no_capabilities : Capabilities
no_capabilities c = false

abbrev pub only : ContextCapability → Capabilities
only a c = is_capability a c

-- `s | t`, `s & t` and `s - t`.
abbrev pub union : Capabilities → Capabilities → Capabilities
union s t c = s c || t c

abbrev pub meet : Capabilities → Capabilities → Capabilities
meet s t c = s c && t c

abbrev pub minus : Capabilities → Capabilities → Capabilities
minus s t c = s c && not (t c)

-- `not s`.
unfoldable pub is_none : Capabilities → Bool
is_none s = all (λ c. not (s c)) capabilities

-- `s == t`.
unfoldable pub same_capabilities : Capabilities → Capabilities → Bool
same_capabilities s t = is_none (minus s t) && is_none (minus t s)

-- `sorted(item.value for item in s)`.
unfoldable pub names : Capabilities → List String
names s = map capability_value (select s capabilities)

-- A set is empty if and only if no capability is in it.
pub is_none-absent : (s : Capabilities) (c : ContextCapability) → is_none s ≡ true → s c ≡ false
unfolding is_none
is_none-absent s price_history h = ground arith
is_none-absent s benchmark_performance h = ground arith
is_none-absent s sector_classification h = ground arith
is_none-absent s relative_strength h = ground arith
is_none-absent s correlations h = ground arith
is_none-absent s realized_volatility h = ground arith
is_none-absent s market_breadth h = ground arith
is_none-absent s rates_and_yields h = ground arith
is_none-absent s macro_indicators h = ground arith
is_none-absent s event_calendar h = ground arith

pub absent-is_none : (s : Capabilities) → ((c : ContextCapability) → s c ≡ false) → is_none s ≡ true
unfolding is_none
absent-is_none s h = all_not capabilities
  where
    all_not : (cs : List ContextCapability) → all (λ c. not (s c)) cs ≡ true
    all_not [] = refl
    all_not (c ∷ cs) = ground (arith, h c, all_not cs)

-- What is missing of a set is in the set.
pub minus-minus : (s t : Capabilities) → is_none (minus (minus s t) s) ≡ true
minus-minus s t = absent-is_none (minus (minus s t) s) (λ c. ground arith)

pub alike-same :
    (s t : Capabilities) → ((c : ContextCapability) → s c ≡ t c) → same_capabilities s t ≡ true
unfolding same_capabilities
alike-same s t h = ground (
  arith,
  absent-is_none (minus s t) (λ c. ground (arith, h c)),
  absent-is_none (minus t s) (λ c. ground (arith, h c)),
)
