-- ===== src/Money/Tiers.antt =====
-- What the commission calculator pays: the tier it chooses, the bounds of a percentage, and whose
-- rate applies.
use native.Mathlib.Nat.{le_refl}
use mathlib.Core.List.{Memᴰ}
use mathlib.Core.Option.{some-injective}
use mathlib.Core.Path.{subst}
use build_affiliate.Common.{
  ℕ, ◌*◌, ◌≤◌, ◌<◌, ◌≡◌, sym, refl, ◌⊎◌, inl, inr, true, false, Option, none, some, List, [], ◌∷◌,
  arith, leb, All, ◌↔◌, Bool-cases, All-weaken, length,
}
use build_affiliate.Common.Ratio.{
  Ratio, percent_of, max_ratio, min_ratio, le_ratio, round_ratio, round_ratio_mono, min_ratio_den,
  max_ratio_den, min-le_right, le-min, le-max_right,
}
use build_affiliate.Common.Sorting.{
  sort_by, IsSorted, sort_by-IsSorted, All-sort_by_back, All-sort_by, length-sort_by,
}
use build_affiliate.Money.Commission.{
  Tier, tier_key, pick_tier, first_tier, chosen_tier, override_of, CommissionStructure,
  tiered_percentage, percentage_of, calculate_commission, RelationshipLike, approved, campaign,
  affiliate_override, resolve_commission_structure,
}

-- `t` is the right tier for a count of prior sales: it is one of the tiers; its threshold is reached,
-- or no tier's is and `t` is a lowest one; and no tier with a higher threshold is reached.
pub record IsRightTier (prior : ℕ) (tiers : List Tier) (t : Tier) : Type 0 where
  pub offered : Memᴰ t tiers
  pub reached :
      (t.min_sales ≤ prior)
      ⊎ (All (λ u. prior < u.min_sales) tiers × All (λ u. t.min_sales ≤ u.min_sales) tiers)
  pub best : All (λ u. u.min_sales ≤ prior → u.min_sales ≤ t.min_sales) tiers

above :
    (prior m : ℕ) (ts : List Tier)
    → prior < m
    → All (λ u. m ≤ u.min_sales) ts
    → All (λ u. prior < u.min_sales) ts
above prior m [] h a = tt
above prior m (t ∷ ts) h a = (omega (arith, a.0), above prior m ts h a.1)

pick_tier_hit :
    (prior : ℕ) (c t : Tier) (ts : List Tier)
    → leb t.min_sales prior ≡ true
    → pick_tier prior c (t ∷ ts) ≡ pick_tier prior t ts
unfolding pick_tier
pick_tier_hit prior c t ts h = rw h

pick_tier_miss :
    (prior : ℕ) (c t : Tier) (ts : List Tier)
    → leb t.min_sales prior ≡ false
    → pick_tier prior c (t ∷ ts) ≡ pick_tier prior c ts
unfolding pick_tier
pick_tier_miss prior c t ts h = rw h

abbrev IsBestFrom : ℕ → Tier → List Tier → Tier → Type 0
IsBestFrom prior c ts r =
    (c.min_sales ≤ r.min_sales)
    × All (λ u. u.min_sales ≤ prior → u.min_sales ≤ r.min_sales) ts
    × ((r.min_sales ≤ prior) ⊎ (r ≡ c))

from_hit :
    (prior : ℕ) (c t : Tier) (ts : List Tier) (r : Tier)
    → t.min_sales ≤ prior
    → c.min_sales ≤ t.min_sales
    → IsBestFrom prior t ts r
    → IsBestFrom prior c (t ∷ ts) r
from_hit prior c t ts r hit low (grows, best, end) =
    (omega arith, ((λ _. grows), best), elim end [ inl e ↦ inl e | inr e ↦ inl (rw e hit) ])

from_miss :
    (prior : ℕ) (c t : Tier) (ts : List Tier) (r : Tier)
    → prior < t.min_sales
    → IsBestFrom prior c ts r
    → IsBestFrom prior c (t ∷ ts) r
from_miss prior c t ts r miss (grows, best, end) =
    (grows, ((λ hit. absurd (omega arith)), best), end)

-- Past the chosen tier of a sorted list nothing better comes unless it is reached.
pick_tier_best :
    (prior : ℕ) (c : Tier) (ts : List Tier)
    → All (λ u. c.min_sales ≤ u.min_sales) ts
    → IsSorted tier_key ts
    → IsBestFrom prior c ts (pick_tier prior c ts)
pick_tier_best prior c [] low sorted =
    (unfold pick_tier in omega arith, tt, inr (unfold pick_tier in refl))
pick_tier_best prior c (t ∷ ts) low sorted = elim (Bool-cases (leb t.min_sales prior)) [
  | inl hit ↦
      subst (IsBestFrom prior c (t ∷ ts)) (sym (pick_tier_hit prior c t ts hit))
        (from_hit prior c t ts _ (ground arith) low.0 (pick_tier_best prior t ts sorted.0 sorted.1))
  | inr miss ↦
      subst (IsBestFrom prior c (t ∷ ts)) (sym (pick_tier_miss prior c t ts miss))
        (from_miss prior c t ts _ (ground arith) (pick_tier_best prior c ts low.1 sorted.1))
]

offered_each : (tiers : List Tier) → All (λ u. Memᴰ u tiers) tiers
offered_each [] = tt
offered_each (t ∷ ts) = (Memᴰ.head refl, All-weaken _ _ ts (λ u. Memᴰ.tail) (offered_each ts))

-- The loop returns one of the tiers that it is given.
pick_tier-keeps :
    (P : Tier → Type 0) (prior : ℕ) (c : Tier) (ts : List Tier)
    → P c
    → All P ts
    → P (pick_tier prior c ts)
pick_tier-keeps P prior c [] pc h = unfold pick_tier in pc
pick_tier-keeps P prior c (t ∷ ts) pc h = elim (Bool-cases (leb t.min_sales prior)) [
  | inl hit ↦ subst P (sym (pick_tier_hit prior c t ts hit)) (pick_tier-keeps P prior t ts h.0 h.1)
  | inr miss ↦
      subst P (sym (pick_tier_miss prior c t ts miss)) (pick_tier-keeps P prior c ts pc h.1)
]

first_tier-keeps :
    (P : Tier → Type 0) (prior : ℕ) (ts : List Tier) {t : Tier}
    → All P ts
    → first_tier prior ts ≡ some t
    → P t
first_tier-keeps P prior [] h chosen = cc
first_tier-keeps P prior (c ∷ ts) h chosen =
    subst P (some-injective _ _ chosen) (pick_tier-keeps P prior c (c ∷ ts) h.0 h)

first_tier-some :
    (prior : ℕ) (ts : List Tier) → 0 < length ts → (t : Tier) × (first_tier prior ts ≡ some t)
first_tier-some prior [] h = absurd (omega (arith, h))
first_tier-some prior (c ∷ ts) h = (pick_tier prior c (c ∷ ts), refl)

first_tier_right :
    (prior : ℕ) (ts : List Tier) {t : Tier}
    → IsSorted tier_key ts
    → first_tier prior ts ≡ some t
    → IsRightTier prior ts t
first_tier_right prior [] sorted h = cc
first_tier_right prior (c ∷ ts) {t} sorted h =
    let low : All (λ u. c.min_sales ≤ u.min_sales) (c ∷ ts) = (le_refl c.min_sales, sorted.0) in
    let (grows, best, end) = pick_tier_best prior c (c ∷ ts) low sorted in
    let same : pick_tier prior c (c ∷ ts) ≡ t = cc in
    subst (IsRightTier prior (c ∷ ts)) same (record {
      offered = pick_tier-keeps _ prior c (c ∷ ts) (Memᴰ.head refl) (offered_each (c ∷ ts));
      reached = elim (Bool-cases (leb c.min_sales prior)) [
        | inl hit ↦ inl (elim end [ inl r ↦ r | inr e ↦ rw e (ground arith) ])
        | inr miss ↦ elim end [
          | inl r ↦ inl r
          | inr e ↦ inr (
            above prior c.min_sales (c ∷ ts) (ground arith) low,
            subst (λ (x : Tier). All (λ u. x.min_sales ≤ u.min_sales) (c ∷ ts)) (sym e) low,
          )
        ]
      ];
      best = best;
    })

chosen-IsRightTier :
    (prior : ℕ) (tiers : List Tier) {t : Tier}
    → chosen_tier tiers prior ≡ some t
    → IsRightTier prior tiers t
unfolding chosen_tier
chosen-IsRightTier prior tiers {t} h =
    let right =
      first_tier_right prior (sort_by tier_key tiers) (sort_by-IsSorted tier_key tiers) h in
    record {
      offered =
          first_tier-keeps _ prior (sort_by tier_key tiers)
            (All-sort_by tier_key _ tiers (offered_each tiers)) h;
      reached = elim right.reached [
        | inl r ↦ inl r
        | inr (low, least) ↦
            inr (All-sort_by_back tier_key _ tiers low, All-sort_by_back tier_key _ tiers least)
      ];
      best = All-sort_by_back tier_key _ tiers right.best;
    }

-- A tiered commission of at least one tier, in whatever order the tiers are, is the percentage of one
-- of them, rounded to cents: of the one with the highest threshold that the count of prior sales
-- reaches, and, if it reaches none, of one with the lowest threshold.
pub chosen_tier_right :
    (prior : ℕ) (order : Ratio) (first : Tier) (rest : List Tier)
    → (t : Tier) × IsRightTier prior (first ∷ rest) t
      × (calculate_commission (tiered_percentage (first ∷ rest)) order prior
          ≡ some (round_ratio (percent_of order t.percentage)))
unfolding calculate_commission chosen_tier
chosen_tier_right prior order first rest =
    let (t, chosen) =
      first_tier-some prior (sort_by tier_key (first ∷ rest))
        (omega (arith, length-sort_by tier_key (first ∷ rest))) in
    (
      t,
      chosen-IsRightTier prior (first ∷ rest) chosen,
      rw (calculate_commission, chosen_tier, chosen) refl,
    )

-- The amount of a percentage structure with both bounds stays between them, rounded to cents; where
-- the bounds contradict each other the maximum wins. Denominators are positive.
percentage_within :
    (percentage low high order : Ratio) (prior : ℕ) {amount : ℕ}
    → 0 < low.den
    → 0 < high.den
    → 0 < order.den * percentage.den * 100
    → calculate_commission (percentage_of percentage (some low) (some high)) order prior
      ≡ some amount
    → (amount ≤ round_ratio high) × (le_ratio low high ≡ true → round_ratio low ≤ amount)
unfolding calculate_commission
percentage_within percentage low high order prior {amount} pl ph po h =
    let x = percent_of order percentage in
    let floor = max_ratio x low in
    let floor_den = max_ratio_den x low po pl in
    let same : round_ratio (min_ratio floor high) ≡ amount = some-injective _ _ h in
    rw (← same) (
      round_ratio_mono (min_ratio floor high) high (min_ratio_den floor high floor_den ph) ph
          (min-le_right floor high),
      λ fits.
          round_ratio_mono low (min_ratio floor high) pl (min_ratio_den floor high floor_den ph)
            (le-min low floor high (le-max_right x low) fits),
    )

-- A custom rate is used exactly when the relationship is APPROVED and its override is one that the
-- schema accepts; in every other case the campaign's own structure applies.
override_exactly_when :
    {Json : Type 0} (default : CommissionStructure) (r : RelationshipLike Json)
    (parse : Json → Option CommissionStructure) (s : CommissionStructure)
    → ((resolve_commission_structure default (some r) parse ≡ (s, affiliate_override))
        ↔ ((r.status ≡ approved) × (override_of parse r.custom_commission ≡ some s)))
      × (resolve_commission_structure default none parse ≡ (default, campaign))
      × ((resolve_commission_structure default (some r) parse).1 ≡ campaign
          → (resolve_commission_structure default (some r) parse).0 ≡ default)
unfolding resolve_commission_structure
override_exactly_when default r parse s = ((ground arith, ground arith), refl, ground arith)
