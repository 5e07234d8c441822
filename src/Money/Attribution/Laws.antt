-- ===== src/Money/Attribution/Laws.antt =====
-- What an attribution is: shares of distinct links that add up to one.
use mathlib.Core.List.{Memᴰ}
use mathlib.Core.Path.{subst}
use build_affiliate.Common.{
  ℕ, suc, ◌≤◌, ◌<◌, ◌≡◌, refl, ◌≢◌, ◌⊎◌, List, [], ◌∷◌, map, arith, ◌==◌, length, All, Bool-cases,
  inl, inr, ==_iff, ap, sym,
}
use build_affiliate.Common.Sorting.{
  sort_by, IsSorted, sort_by-IsSorted, All-sort_by_back, All-sort_by, length-sort_by,
}
use build_affiliate.Money.Attribution.{
  AttributionModel, AttributionClick, AttributionShare, first_click, last_click, linear, click_time,
  share_of, set_click, dedup_from, last_of, attribute, attribute_sorted,
}

-- Every share is `1 / n`, where `n` is how many there are: together they are exactly one.
abbrev pub IsWhole : List AttributionShare → Type 0
IsWhole shares = All (λ s. (s.share.num ≡ 1) × (s.share.den ≡ length shares)) shares

shares_of-whole :
    (n : ℕ) (cs : List AttributionClick)
    → All (λ s. (s.share.num ≡ 1) × (s.share.den ≡ n)) (map (share_of n) cs)
shares_of-whole n [] = tt
shares_of-whole n (c ∷ cs) = ((refl, refl), shares_of-whole n cs)

length-shares : (n : ℕ) (cs : List AttributionClick) → length (map (share_of n) cs) ≡ length cs
length-shares n [] = refl
length-shares n (c ∷ cs) = ap suc (length-shares n cs)

sorted-IsWhole :
    (model : AttributionModel) (cs : List AttributionClick) → IsWhole (attribute_sorted model cs)
sorted-IsWhole first_click [] = tt
sorted-IsWhole first_click (c ∷ cs) = ((refl, refl), tt)
sorted-IsWhole last_click [] = tt
sorted-IsWhole last_click (c ∷ cs) = ((refl, refl), tt)
sorted-IsWhole linear cs =
    let unique = dedup_from [] cs in
    subst
      (λ (n : ℕ).
        All (λ s. (s.share.num ≡ 1) × (s.share.den ≡ n)) (map (share_of (length unique)) unique))
      (sym (length-shares (length unique) unique)) (shares_of-whole (length unique) unique)

-- The links of a list of clicks are distinct.
abbrev pub DistinctLinks : List AttributionClick → Type 0
DistinctLinks [] = Unit
DistinctLinks (c ∷ cs) = All (λ d. c.tracking_link_id ≢ d.tracking_link_id) cs × DistinctLinks cs

set_click_other :
    (l : ℕ) (c : AttributionClick) (ds : List AttributionClick)
    → l ≢ c.tracking_link_id
    → All (λ d. l ≢ d.tracking_link_id) ds
    → All (λ d. l ≢ d.tracking_link_id) (set_click c ds)
unfolding set_click
set_click_other l c [] n h = (n, tt)
set_click_other l c (d ∷ ds) n h = elim (Bool-cases (c.tracking_link_id == d.tracking_link_id)) [
  | inl same ↦ rw same (n, h.1)
  | inr other ↦ rw other (h.0, set_click_other l c ds n h.1)
]

All-ne_eq :
    (l m : ℕ) (ds : List AttributionClick)
    → l ≡ m
    → All (λ d. m ≢ d.tracking_link_id) ds
    → All (λ d. l ≢ d.tracking_link_id) ds
All-ne_eq l m ds e h = subst (λ (k : ℕ). All (λ d. k ≢ d.tracking_link_id) ds) (sym e) h

set_click-distinct :
    (c : AttributionClick) (ds : List AttributionClick)
    → DistinctLinks ds
    → DistinctLinks (set_click c ds)
unfolding set_click
set_click-distinct c [] h = (tt, tt)
set_click-distinct c (d ∷ ds) h = elim (Bool-cases (c.tracking_link_id == d.tracking_link_id)) [
  | inl same ↦
      rw same (All-ne_eq c.tracking_link_id d.tracking_link_id ds ((==_iff _ _).0 same) h.0, h.1)
  | inr other ↦
      rw other
        (set_click_other d.tracking_link_id c ds (ground arith) h.0, set_click-distinct c ds h.1)
]

-- A link is among those of the clicks.
abbrev pub HasLink : ℕ → List AttributionClick → Type 0
HasLink l [] = ⊥
HasLink l (d ∷ ds) = (l ≡ d.tracking_link_id) ⊎ HasLink l ds

set_click-HasLink :
    (l : ℕ) (c : AttributionClick) (ds : List AttributionClick)
    → HasLink l (c ∷ ds)
    → HasLink l (set_click c ds)
unfolding set_click
set_click-HasLink l c [] h = h
set_click-HasLink l c (d ∷ ds) h = elim (Bool-cases (c.tracking_link_id == d.tracking_link_id)) [
  | inl same ↦ rw same (replaced ((==_iff _ _).0 same) h)
  | inr other ↦ rw other (kept (set_click-HasLink l c ds) h)
]
  where
    replaced : c.tracking_link_id ≡ d.tracking_link_id → HasLink l (c ∷ d ∷ ds) → HasLink l (c ∷ ds)
    replaced e (inl x) = inl x
    replaced e (inr (inl x)) = inl (cc)
    replaced e (inr (inr x)) = inr x

    kept :
        (HasLink l (c ∷ ds) → HasLink l (set_click c ds))
        → HasLink l (c ∷ d ∷ ds)
        → (l ≡ d.tracking_link_id) ⊎ HasLink l (set_click c ds)
    kept ih (inl x) = inr (ih (inl x))
    kept ih (inr (inl x)) = inl x
    kept ih (inr (inr x)) = inr (ih (inr x))

dedup_from-HasLink :
    (l : ℕ) (ds cs : List AttributionClick)
    → HasLink l ds ⊎ HasLink l cs
    → HasLink l (dedup_from ds cs)
unfolding dedup_from
dedup_from-HasLink l ds [] (inl h) = h
dedup_from-HasLink l ds [] (inr h) = absurd h
dedup_from-HasLink l ds (c ∷ cs) (inl h) =
    dedup_from-HasLink l (set_click c ds) cs (inl (set_click-HasLink l c ds (inr h)))
dedup_from-HasLink l ds (c ∷ cs) (inr (inl e)) =
    dedup_from-HasLink l (set_click c ds) cs (inl (set_click-HasLink l c ds (inl e)))
dedup_from-HasLink l ds (c ∷ cs) (inr (inr h)) = dedup_from-HasLink l (set_click c ds) cs (inr h)

dedup_from-distinct :
    (ds cs : List AttributionClick) → DistinctLinks ds → DistinctLinks (dedup_from ds cs)
unfolding dedup_from
dedup_from-distinct ds [] h = h
dedup_from-distinct ds (c ∷ cs) h =
    dedup_from-distinct (set_click c ds) cs (set_click-distinct c ds h)

-- The same two notions for shares.
abbrev pub DistinctShares : List AttributionShare → Type 0
DistinctShares [] = Unit
DistinctShares (s ∷ ss) = All (λ t. s.tracking_link_id ≢ t.tracking_link_id) ss × DistinctShares ss

abbrev pub HasShare : ℕ → List AttributionShare → Type 0
HasShare l [] = ⊥
HasShare l (s ∷ ss) = (l ≡ s.tracking_link_id) ⊎ HasShare l ss

shares_ne :
    (n l : ℕ) (cs : List AttributionClick)
    → All (λ d. l ≢ d.tracking_link_id) cs
    → All (λ t. l ≢ t.tracking_link_id) (map (share_of n) cs)
shares_ne n l [] h = tt
shares_ne n l (c ∷ cs) h = (h.0, shares_ne n l cs h.1)

shares_distinct :
    (n : ℕ) (cs : List AttributionClick) → DistinctLinks cs → DistinctShares (map (share_of n) cs)
shares_distinct n [] h = tt
shares_distinct n (c ∷ cs) h = (shares_ne n c.tracking_link_id cs h.0, shares_distinct n cs h.1)

has_share : (n l : ℕ) (cs : List AttributionClick) → HasLink l cs → HasShare l (map (share_of n) cs)
has_share n l [] h = h
has_share n l (c ∷ cs) (inl e) = inl e
has_share n l (c ∷ cs) (inr h) = inr (has_share n l cs h)

-- Under every model each share is one divided by the number of shares, so that the shares of a
-- conversion with any click add up to exactly one.
attribute-IsWhole :
    (model : AttributionModel) (cs : List AttributionClick) → IsWhole (attribute model cs)
unfolding attribute
attribute-IsWhole model [] = tt
attribute-IsWhole model (c ∷ cs) = sorted-IsWhole model (sort_by click_time (c ∷ cs))

All-have_link : (cs : List AttributionClick) → All (λ d. HasLink d.tracking_link_id cs) cs
All-have_link [] = tt
All-have_link (c ∷ cs) = (inl refl, weaken cs (All-have_link cs))
  where
    weaken :
        (ds : List AttributionClick)
        → All (λ d. HasLink d.tracking_link_id cs) ds
        → All (λ d. HasLink d.tracking_link_id (c ∷ cs)) ds
    weaken [] h = tt
    weaken (d ∷ ds) h = (inr h.0, weaken ds h.1)

linked_shares :
    (cs ds : List AttributionClick)
    → All (λ d. HasLink d.tracking_link_id cs) ds
    → All (λ d. HasShare d.tracking_link_id (attribute_sorted linear cs)) ds
linked_shares cs [] h = tt
linked_shares cs (d ∷ ds) h = (
  has_share (length (dedup_from [] cs)) d.tracking_link_id (dedup_from [] cs)
      (dedup_from-HasLink d.tracking_link_id [] cs (inr h.0)),
  linked_shares cs ds h.1,
)

-- The linear model gives each clicked link one share: no link has two, and none is left out.
linear_by_link :
    (cs : List AttributionClick)
    → DistinctShares (attribute linear cs)
      × All (λ c. HasShare c.tracking_link_id (attribute linear cs)) cs
unfolding attribute
linear_by_link [] = (tt, tt)
linear_by_link (c ∷ cs) =
    let sorted = sort_by click_time (c ∷ cs) in
    (
      shares_distinct (length (dedup_from [] sorted)) (dedup_from [] sorted)
          (dedup_from-distinct [] sorted tt),
      All-sort_by_back click_time _ (c ∷ cs) (linked_shares sorted sorted (All-have_link sorted)),
    )

-- FIRST_CLICK and LAST_CLICK credit one click in full: one that no click precedes, or follows.
abbrev pub CreditsOne :
    (AttributionClick → AttributionClick → Type 0)
    → List AttributionClick
    → List AttributionShare
    → Type 0
CreditsOne R cs shares =
    (x : AttributionClick) × (shares ≡ share_of 1 x ∷ []) × Memᴰ x cs × All (R x) cs

last_of_max :
    (c : AttributionClick) (cs : List AttributionClick)
    → IsSorted click_time (c ∷ cs)
    → All (λ d. d.timestamp ≤ (last_of c cs).timestamp) (c ∷ cs)
last_of_max c [] h = (omega arith, tt)
last_of_max c (d ∷ ds) h = let rest = last_of_max d ds h.1 in (omega (arith, h.0.0, rest.0), rest)

last_of_mem : (c : AttributionClick) (cs : List AttributionClick) → Memᴰ (last_of c cs) (c ∷ cs)
last_of_mem c [] = Memᴰ.head refl
last_of_mem c (d ∷ ds) = Memᴰ.tail (last_of_mem d ds)

All-mem : (cs : List AttributionClick) → All (λ d. Memᴰ d cs) cs
All-mem [] = tt
All-mem (c ∷ cs) = (Memᴰ.head refl, weaken cs (All-mem cs))
  where
    weaken : (ds : List AttributionClick) → All (λ d. Memᴰ d cs) ds → All (λ d. Memᴰ d (c ∷ cs)) ds
    weaken [] h = tt
    weaken (d ∷ ds) h = (Memᴰ.tail h.0, weaken ds h.1)

mem_of_all :
    (P : AttributionClick → Type 0) {x : AttributionClick} (cs : List AttributionClick)
    → All P cs
    → Memᴰ x cs
    → P x
mem_of_all P [] h m = absurd (elim m [ ])
mem_of_all P (c ∷ cs) h (Memᴰ.head e) = subst P (sym e) h.0
mem_of_all P (c ∷ cs) h (Memᴰ.tail m) = mem_of_all P cs h.1 m

single_sorted :
    (cs : List AttributionClick)
    → 0 < length cs
    → IsSorted click_time cs
    → CreditsOne (λ x d. x.timestamp ≤ d.timestamp) cs (attribute_sorted first_click cs)
      × CreditsOne (λ x d. d.timestamp ≤ x.timestamp) cs (attribute_sorted last_click cs)
single_sorted [] p h = elim p [ ]
single_sorted (c ∷ cs) p h = (
  (c, refl, Memᴰ.head refl, (omega arith, h.0)),
  (last_of c cs, refl, last_of_mem c cs, last_of_max c cs h),
)

-- Both single-touch models credit one click in full: the first-click model one that no click
-- precedes, and the last-click model one that no click follows.
single_touch :
    (c : AttributionClick) (cs : List AttributionClick)
    → CreditsOne (λ x d. x.timestamp ≤ d.timestamp) (c ∷ cs) (attribute first_click (c ∷ cs))
      × CreditsOne (λ x d. d.timestamp ≤ x.timestamp) (c ∷ cs) (attribute last_click (c ∷ cs))
unfolding attribute
single_touch c cs =
    let sorted = sort_by click_time (c ∷ cs) in
    let (first, last) =
      single_sorted sorted (omega (arith, length-sort_by click_time (c ∷ cs)))
        (sort_by-IsSorted click_time (c ∷ cs)) in
    let members = All-sort_by click_time (λ d. Memᴰ d (c ∷ cs)) (c ∷ cs) (All-mem (c ∷ cs)) in
    (
      (
        first.0,
        first.1,
        mem_of_all (λ d. Memᴰ d (c ∷ cs)) sorted members first.2,
        All-sort_by_back click_time _ (c ∷ cs) first.3,
      ),
      (
        last.0,
        last.1,
        mem_of_all (λ d. Memᴰ d (c ∷ cs)) sorted members last.2,
        All-sort_by_back click_time _ (c ∷ cs) last.3,
      ),
    )
