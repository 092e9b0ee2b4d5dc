-- ===== src/MarketData/Coverage.antt =====
-- What the report of `normalize_and_assess` tells of the bars that are returned with it.
use native.Mathlib.Nat.{mod-add-div'}
use the_council.Prelude.{
  arith, ℕ, ◌+◌, ◌*◌, ◌<◌, ◌≡◌, refl, sym, true, Option, some, List, [], ◌∷◌, ◌++◌, All, length, ap,
  ◌∙◌, ◌/◌, ◌%◌, none, ◌-◌, ◌≤◌,
}
use the_council.Prelude.Numbers.{mem_number, is_ascending, sort_at}
use mathlib.Core.Path.{subst}
use the_council.Floats.{Float}
use the_council.Result.{ok, >>=-eq-ok, guard-eq-ok, ok-injective, guard, invalid_field}
use the_council.Schemas.Market.{MarketBar}
use the_council.MarketData.Models.{DataGap, DataQualityReport}
use the_council.MarketData.Quality.{
  opens, keep_all, find_gaps, gap_between, validate_gap, assess, range_of, missing_of,
  normalize_and_assess, is_complete, is_forward, expected_of,
}
use the_council.MarketData.Normal.{
  opened, Lasts, All-sort_at, mem-sort_at, length-sort_at, keep_all-IsKept,
}

missing-append : (gs hs : List DataGap) → missing_of (gs ++ hs) ≡ missing_of gs + missing_of hs
missing-append [] hs = omega arith
missing-append (g ∷ gs) hs = omega (arith, missing-append gs hs)

module _ {F : Type 0} (duration : ℕ) where
  -- Each bar opens when the one before it has lasted.
  abbrev pub Contiguous : List (MarketBar F) → Type 0
  Contiguous [] = Unit
  Contiguous (a ∷ []) = Unit
  Contiguous (a ∷ b ∷ bars) = (b.opened_at ≡ a.opened_at + duration) × Contiguous (b ∷ bars)

  module _ (positive : 0 < duration) where
    gap_between_lem :
        (a b : MarketBar F) (gaps : List DataGap)
        → gap_between duration a b ≡ ok gaps
        → (a.opened_at < b.opened_at) × (missing_of gaps ≡ 0 → b.opened_at ≡ a.opened_at + duration)
    unfolding gap_between validate_gap
    gap_between_lem a b gaps h = ground arith

    find_gaps_lem :
        (bars : List (MarketBar F)) (gaps : List DataGap)
        → find_gaps duration bars ≡ ok gaps
        → (is_ascending (opens bars) ≡ true) × (missing_of gaps ≡ 0 → Contiguous bars)
    unfolding find_gaps
    find_gaps_lem [] gaps h = (refl, λ m. tt)
    find_gaps_lem (a ∷ []) gaps h = (refl, λ m. tt)
    find_gaps_lem (a ∷ b ∷ bars) gaps h =
        let (first, one, h1) = >>=-eq-ok (gap_between duration a b) _ h in
        let (later, rest, h2) = >>=-eq-ok (find_gaps duration (b ∷ bars)) _ h1 in
        let (here, step) = gap_between_lem a b first one in
        let (ascending, contiguous) = find_gaps_lem (b ∷ bars) later rest in
        let total : missing_of gaps ≡ missing_of first + missing_of later =
          cc (ok-injective h2, missing-append first later) in
        (
          ground (arith, here, ascending),
          λ m. (step (omega (arith, total, m)), contiguous (omega (arith, total, m))),
        )

whole_quotient : (n d q : ℕ) → n % d ≡ 0 → q ≡ n / d → q * d ≡ n
whole_quotient n d q h e = rw e (omega (arith, mod-add-div' n d, h))

complete_range :
    {F : Type 0} (duration : ℕ) (ordered : List (MarketBar F)) (gaps : List DataGap)
    (request_start request_end : Option ℕ) (range : Option (ℕ × ℕ))
    → range_of request_start request_end ≡ ok range
    → is_forward range ≡ true
    → is_complete duration range ordered gaps ≡ true
    → (start : ℕ) × (end : ℕ) × (request_start ≡ some start)
      × (request_end ≡ some end)
      × (start + length ordered * duration ≡ end)
      × (missing_of gaps ≡ 0)
unfolding is_complete expected_of
complete_range duration ordered gaps none none range r w c = absurd (ground arith)
complete_range duration ordered gaps none (some e) range r w c = absurd (cc)
complete_range duration ordered gaps (some s) none range r w c = absurd (cc)
complete_range duration ordered gaps (some s) (some e) none r w c = absurd (cc)
complete_range duration ordered gaps (some s) (some e) (some (a, b)) r w c =
    let same : (a ≡ s) × (b ≡ e) × (a ≤ b) = ground arith in
    let tests : ((b - a) % duration ≡ 0)
        × (length ordered ≡ (b - a) / duration)
        × (missing_of gaps ≡ 0) =
      ground arith in
    let fill = whole_quotient (b - a) duration (length ordered) tests.0 tests.1 in
    (s, e, refl, refl, omega (arith, fill, same), tests.2)

-- What `normalize_and_assess` returns, told of what it was given.
pub record IsNormalized {F : Type 0} (supplied : List (MarketBar F)) (duration : ℕ)
    (ordered : List (MarketBar F)) (report : DataQualityReport) : Type 1 where
  pub covered : (t : ℕ) → mem_number t (opens ordered) ≡ mem_number t (opens supplied)
  pub ascending : is_ascending (opens ordered) ≡ true
  pub given : (P : MarketBar F → Type 0) → All P supplied → All P ordered
  pub lasting : All (Lasts duration) ordered
  pub rows : report.output_rows + report.duplicate_rows_removed ≡ length supplied
  pub output_rows : report.output_rows ≡ length ordered
  pub gapless : missing_of report.gaps ≡ 0 → Contiguous duration ordered

pub record IsCovered {F : Type 0} (duration : ℕ) (request_start request_end : Option ℕ)
    (ordered : List (MarketBar F)) : Type 0 where
  pub start : ℕ
  pub end : ℕ
  pub start_given : request_start ≡ some start
  pub end_given : request_end ≡ some end
  pub contiguous : Contiguous duration ordered
  pub lasting : All (Lasts duration) ordered
  pub full : start + length ordered * duration ≡ end

module _ {F : Type 0} ⦃f : Float F⦄ (supplied : List (MarketBar F)) (duration : ℕ)
    (input_rows request_start request_end : Option ℕ) (ordered : List (MarketBar F))
    (report : DataQualityReport) where
  record Parts : Type 0 where
    kept : List (MarketBar F)
    duplicates : ℕ
    gaps : List DataGap
    range : Option (ℕ × ℕ)
    looped : keep_all duration ([], 0) supplied ≡ ok (kept, duplicates)
    sorted : ordered ≡ sort_at opened kept
    scanned : find_gaps duration ordered ≡ ok gaps
    ranged : range_of request_start request_end ≡ ok range
    forward : is_forward range ≡ true
    same_gaps : report.gaps ≡ gaps
    same_output : report.output_rows ≡ length ordered
    same_duplicates : report.duplicate_rows_removed ≡ duplicates
    same_complete : report.coverage_complete ≡ is_complete duration range ordered gaps

  parts :
      normalize_and_assess supplied duration input_rows request_start request_end
        ≡ ok (ordered, report)
      → Parts
  unfolding normalize_and_assess assess
  parts h =
      let ((kept, duplicates), looped, h1) = >>=-eq-ok (keep_all duration ([], 0) supplied) _ h in
      let (gaps, scanned, h2) = >>=-eq-ok (find_gaps duration (sort_at opened kept)) _ h1 in
      let (range, ranged, h3) = >>=-eq-ok (range_of request_start request_end) _ h2 in
      let (r, assessed, h4) =
        >>=-eq-ok (assess duration input_rows supplied (sort_at opened kept) duplicates gaps range)
          _ h3 in
      let same : (sort_at opened kept, r) ≡ (ordered, report) = ok-injective h4 in
      let (u, forward, h5) = >>=-eq-ok (guard (is_forward range) invalid_field) _ assessed in
      let told = ok-injective h5 in
      let first : sort_at opened kept ≡ ordered = ap (λ x. x.0) same in
      let second : r ≡ report = ap (λ x. x.1) same in
      record {
        kept = kept;
        duplicates = duplicates;
        gaps = gaps;
        range = range;
        looped = looped;
        sorted = sym first;
        scanned = subst (λ o. find_gaps duration o ≡ ok gaps) first scanned;
        ranged = ranged;
        forward = guard-eq-ok _ _ u forward;
        same_gaps = sym (ap (λ x. x.gaps) second) ∙ sym (ap (λ x. x.gaps) told);
        same_output =
            sym (ap (λ x. x.output_rows) second)
            ∙ sym (ap (λ x. x.output_rows) told)
            ∙ ap length first;
        same_duplicates =
            sym (ap (λ x. x.duplicate_rows_removed) second)
            ∙ sym (ap (λ x. x.duplicate_rows_removed) told);
        same_complete =
            sym (ap (λ x. x.coverage_complete) second)
            ∙ sym (ap (λ x. x.coverage_complete) told)
            ∙ ap (λ o. is_complete duration range o gaps) first;
      }

  module _ (positive : 0 < duration)
      (h : normalize_and_assess supplied duration input_rows request_start request_end
        ≡ ok (ordered, report)) where
    -- For intervals that are not empty: the bars that come back open in strictly ascending order, at
    -- just the times at which a given bar opens, and are given bars; each lasts one interval; with the
    -- duplicates that the report counts they are as many as were given; and unless the report names a
    -- gap, each opens when the one before it has lasted.
    pub normalize_and_assess-IsNormalized : IsNormalized supplied duration ordered report
    normalize_and_assess-IsNormalized =
        let p = parts h in
        let k = keep_all-IsKept duration ([], 0) supplied (p.kept, p.duplicates) p.looped in
        let scan = find_gaps_lem duration positive ordered p.gaps p.scanned in
        record {
          covered =
              λ t. ap (λ o. mem_number t (opens o)) p.sorted ∙ mem-sort_at t p.kept ∙ k.covered t;
          ascending = scan.0;
          given = λ P all. subst (All P) (sym p.sorted) (All-sort_at P p.kept (k.given P tt all));
          lasting =
              subst (All (Lasts duration)) (sym p.sorted)
                (All-sort_at (Lasts duration) p.kept (k.lasting tt));
          rows = omega (
            arith,
            k.rows,
            p.same_output,
            p.same_duplicates,
            ap length p.sorted,
            length-sort_at p.kept,
          );
          output_rows = p.same_output;
          gapless = λ m. scan.1 (ap missing_of (sym p.same_gaps) ∙ m);
        }

    -- For intervals that are not empty: if the report calls the coverage complete, a range was asked
    -- for, the bars are contiguous, each lasts one interval, and they are as many as make up the range.
    pub complete-IsCovered :
        report.coverage_complete ≡ true → IsCovered duration request_start request_end ordered
    complete-IsCovered c =
        let p = parts h in
        let (start, end, s, e, full, none_missing) =
          complete_range duration ordered p.gaps request_start request_end p.range p.ranged
            p.forward (sym p.same_complete ∙ c) in
        let normal = normalize_and_assess-IsNormalized in
        record {
          start = start;
          end = end;
          start_given = s;
          end_given = e;
          contiguous = normal.gapless (ap missing_of p.same_gaps ∙ none_missing);
          lasting = normal.lasting;
          full = full;
        }
