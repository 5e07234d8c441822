-- ===== src/Bisect/Examples.antt =====
-- The theorem on bisection at a batch of five with two poison items.
use build_affiliate.Common.{
  ℕ, ◌≡◌, refl, Bool, not, Option, none, some, List, [], ◌∷◌, any, ltb, Bool-cases, inl, inr,
  if◌then◌else◌,
}
use build_affiliate.Bisect.{bisect_commit}
use build_affiliate.Bisect.Isolation.{is_none, bisect_isolates}

abbrev is_poison : ℕ → Bool
is_poison n = ltb 10 n

abbrev commit : List ℕ → Option ℕ
commit batch = if any is_poison batch then some 1 else none

commit_fails : (b : List ℕ) → is_none (commit b) ≡ not (any is_poison b)
commit_fails b = elim (Bool-cases (any is_poison b)) [
  | inl bad_ ↦ rw bad_ refl
  | inr good_ ↦ rw good_ refl
]

bisect_isolates_example :
    (bisect_commit commit (1 ∷ 20 ∷ 3 ∷ 4 ∷ 50 ∷ [])).succeeded ≡ 1 ∷ 3 ∷ 4 ∷ []
bisect_isolates_example =
    (bisect_isolates is_poison commit (1 ∷ 20 ∷ 3 ∷ 4 ∷ 50 ∷ []) commit_fails).0
