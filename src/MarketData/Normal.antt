-- ===== src/MarketData/Normal.antt =====
-- What `normalize_and_assess` keeps of the bars it is given.
use mathlib.Core.Path.{subst}
use the_council.Prelude.{
  arith, ℕ, ◌+◌, ◌≡◌, refl, true, ◌||◌, Option, none, some, List, [], ◌∷◌, ◌++◌, All, length,
  length-append, eqb, eqb_iff, find?, sym,
}
use the_council.Prelude.Numbers.{mem_number, sort_at, insert_at}
use the_council.Floats.{Float}
use the_council.Result.{ok, >>=-eq-ok, ok-injective}
use the_council.Schemas.Market.{MarketBar}
use the_council.MarketData.Quality.{Kept, opens, keep, keep_against, keep_all}

module _ {F : Type 0} where
  abbrev pub opened : MarketBar F → ℕ
  opened bar = bar.opened_at

  abbrev pub Lasts : ℕ → MarketBar F → Type 0
  Lasts duration bar = bar.closed_at ≡ bar.opened_at + duration

  All-append :
      (P : MarketBar F → Type 0) (xs ys : List (MarketBar F))
      → All P xs
      → All P ys
      → All P (xs ++ ys)
  All-append P [] ys h k = k
  All-append P (x ∷ xs) ys (h, hs) k = (h, All-append P xs ys hs k)

  All-insert_at :
      (P : MarketBar F → Type 0) (x : MarketBar F) (xs : List (MarketBar F))
      → P x
      → All P xs
      → All P (insert_at opened x xs)
  All-insert_at P x [] p h = (p, tt)
  All-insert_at P x (y ∷ ys) p (h, hs) = ground (arith, All-insert_at P x ys p hs)

  pub All-sort_at :
      (P : MarketBar F → Type 0) (xs : List (MarketBar F)) → All P xs → All P (sort_at opened xs)
  All-sort_at P [] h = tt
  All-sort_at P (x ∷ xs) (h, hs) = All-insert_at P x (sort_at opened xs) h (All-sort_at P xs hs)

  mem-append :
      (t : ℕ) (xs ys : List (MarketBar F))
      → mem_number t (opens (xs ++ ys)) ≡ (mem_number t (opens xs) || mem_number t (opens ys))
  mem-append t [] ys = refl
  mem-append t (x ∷ xs) ys = ground (arith, mem-append t xs ys)

  mem-insert_at :
      (t : ℕ) (x : MarketBar F) (xs : List (MarketBar F))
      → mem_number t (opens (insert_at opened x xs)) ≡ mem_number t (opens (x ∷ xs))
  mem-insert_at t x [] = refl
  mem-insert_at t x (y ∷ ys) = ground (arith, mem-insert_at t x ys)

  pub mem-sort_at :
      (t : ℕ) (xs : List (MarketBar F))
      → mem_number t (opens (sort_at opened xs)) ≡ mem_number t (opens xs)
  mem-sort_at t [] = refl
  mem-sort_at t (x ∷ xs) = ground (arith, mem-insert_at t x (sort_at opened xs), mem-sort_at t xs)

  length-insert_at :
      (x : MarketBar F) (xs : List (MarketBar F)) → length (insert_at opened x xs) ≡ 1 + length xs
  length-insert_at x [] = refl
  length-insert_at x (y ∷ ys) = ground (arith, length-insert_at x ys)

  pub length-sort_at : (xs : List (MarketBar F)) → length (sort_at opened xs) ≡ length xs
  length-sort_at [] = refl
  length-sort_at (x ∷ xs) = omega (arith, length-insert_at x (sort_at opened xs), length-sort_at xs)

  mem-find :
      (t : ℕ) (xs : List (MarketBar F)) (p : MarketBar F)
      → find? (λ k. eqb k.opened_at t) xs ≡ some p
      → mem_number t (opens xs) ≡ true
  mem-find t [] p h = absurd (cc)
  mem-find t (x ∷ xs) p h = ground (arith, mem-find t xs p)

-- How a state of the loop, and with it a list of bars, goes over into another.
pub record IsKept {F : Type 0} (duration : ℕ) (before : Kept F) (bars : List (MarketBar F))
    (after : Kept F) : Type 1 where
  pub covered :
      (t : ℕ)
      → mem_number t (opens after.0) ≡ (mem_number t (opens before.0) || mem_number t (opens bars))
  pub rows : length after.0 + after.1 ≡ length before.0 + before.1 + length bars
  pub given : (P : MarketBar F → Type 0) → All P before.0 → All P bars → All P after.0
  pub lasting : All (Lasts duration) before.0 → All (Lasts duration) after.0

module _ {F : Type 0} ⦃f : Float F⦄ (duration : ℕ) where
  keep_against-IsKept :
      (kept : List (MarketBar F)) (duplicates : ℕ) (bar : MarketBar F) (after : Kept F)
      (found : Option (MarketBar F))
      → find? (λ k. eqb k.opened_at bar.opened_at) kept ≡ found
      → keep_against duration (kept, duplicates) bar found ≡ ok after
      → IsKept duration (kept, duplicates) (bar ∷ []) after
  keep_against-IsKept kept duplicates bar (after, n) (some p) e h =
      let known = mem-find bar.opened_at kept p e in
      let (same, count) = kept_same in
      record {
        covered = λ t. ground (arith, eqb_iff bar.opened_at t);
        rows = ground arith;
        given = λ P old new. subst (All P) (sym same) old;
        lasting = λ old. subst (All (Lasts duration)) (sym same) old;
      }
    where
      kept_same : (after ≡ kept) × (n ≡ duplicates + 1)
      kept_same = ground arith
  keep_against-IsKept kept duplicates bar (after, n) none e h =
      let (added, count, last) = kept_new in
      record {
        covered = λ t. rw (added, mem-append t kept (bar ∷ [])) refl;
        rows = rw (added, count, length-append kept (bar ∷ [])) (ground arith);
        given = λ P old new. subst (All P) (sym added) (All-append P kept (bar ∷ []) old new);
        lasting = λ old.
            subst (All (Lasts duration)) (sym added)
              (All-append (Lasts duration) kept (bar ∷ []) old (last, tt));
      }
    where
      kept_new : (after ≡ kept ++ bar ∷ []) × (n ≡ duplicates) × Lasts duration bar
      kept_new = ground arith

  keep-IsKept :
      (before : Kept F) (bar : MarketBar F) (after : Kept F)
      → keep duration before bar ≡ ok after
      → IsKept duration before (bar ∷ []) after
  unfolding keep
  keep-IsKept (kept, duplicates) bar after h =
      keep_against-IsKept kept duplicates bar after
        (find? (λ k. eqb k.opened_at bar.opened_at) kept) refl h

  IsKept-trans :
      (a b c : Kept F) (bar : MarketBar F) (bars : List (MarketBar F))
      → IsKept duration a (bar ∷ []) b
      → IsKept duration b bars c
      → IsKept duration a (bar ∷ bars) c
  IsKept-trans a b c bar bars h k = record {
    covered = λ t. ground (arith, h.covered t, k.covered t);
    rows = omega (arith, h.rows, k.rows);
    given = λ P old (p, ps). k.given P (h.given P old (p, tt)) ps;
    lasting = λ old. k.lasting (h.lasting old);
  }

  pub keep_all-IsKept :
      (before : Kept F) (bars : List (MarketBar F)) (after : Kept F)
      → keep_all duration before bars ≡ ok after
      → IsKept duration before bars after
  unfolding keep_all
  keep_all-IsKept before [] after h =
      let e = ok-injective h in
      subst (λ a. IsKept duration before [] a) e
        (record {
          covered = λ t. ground arith;
          rows = omega arith;
          given = λ P old new. old;
          lasting = λ old. old;
        })
  keep_all-IsKept before (bar ∷ bars) after h =
      let (next, first, rest) = >>=-eq-ok (keep duration before bar) _ h in
      IsKept-trans before next after bar bars (keep-IsKept before bar next first)
        (keep_all-IsKept next bars after rest)
