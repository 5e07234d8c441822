-- ===== src/Common/Lists.antt =====
-- Lists measured by native numbers, list sums and the Boolean searches that the services use.
use Prim.Native.Nat.{ℕ, zero, suc, ◌+◌, ◌<◌, ◌≤◌}
use mathlib.Core.Path.{◌≡◌, refl}
use mathlib.Core.Bool.{Bool, true, false, ◌&&◌, ◌||◌, cond}
use mathlib.Core.List.{List, [], ◌∷◌, ◌++◌}
use mathlib.Core.Option
use mathlib.Core.Option.{Option, none, some}
use mathlib.Core.Logic.{inl, inr}
use native.Mathlib.Omega.{arith}
use build_affiliate.Common.Tests.{Bool-cases}

module _ {ℓ} {A : Type ℓ} where
  abbrev pub length : List A → ℕ
  length [] = 0
  length (x ∷ xs) = suc (length xs)

  abbrev pub take : ℕ → List A → List A
  take zero xs = []
  take (suc n) [] = []
  take (suc n) (x ∷ xs) = x ∷ take n xs

  abbrev pub drop : ℕ → List A → List A
  drop zero xs = xs
  drop (suc n) [] = []
  drop (suc n) (x ∷ xs) = drop n xs

  abbrev pub any : (A → Bool) → List A → Bool
  any p [] = false
  any p (x ∷ xs) = p x || any p xs

  abbrev pub all : (A → Bool) → List A → Bool
  all p [] = true
  all p (x ∷ xs) = p x && all p xs

  -- `Array.prototype.filter`.
  abbrev pub filter : (A → Bool) → List A → List A
  filter p [] = []
  filter p (x ∷ xs) = cond (p x) (x ∷ filter p xs) (filter p xs)

  -- `Array.prototype.find`, and `findFirst` of a table.
  abbrev pub find : (A → Bool) → List A → Option A
  find p [] = none
  find p (x ∷ xs) = cond (p x) (some x) (find p xs)

  -- The rows of a table that a predicate selects, each rewritten: `updateMany`.
  abbrev pub update_where : (A → Bool) → (A → A) → List A → List A
  update_where p f [] = []
  update_where p f (x ∷ xs) = cond (p x) (f x) x ∷ update_where p f xs

  abbrev pub sum_of : (A → ℕ) → List A → ℕ
  sum_of f [] = 0
  sum_of f (x ∷ xs) = f x + sum_of f xs

  abbrev pub count : (A → Bool) → List A → ℕ
  count p xs = length (filter p xs)

  abbrev pub All {κ} : (A → Type κ) → List A → Type κ
  All P [] = Unit
  All P (x ∷ xs) = P x × All P xs

  pub append_assoc : (xs ys zs : List A) → xs ++ ys ++ zs ≡ xs ++ (ys ++ zs)
  append_assoc [] ys zs = refl
  append_assoc (x ∷ xs) ys zs = λ i. x ∷ append_assoc xs ys zs i

  pub append-nil : (xs : List A) → xs ++ [] ≡ xs
  append-nil [] = refl
  append-nil (x ∷ xs) = λ i. x ∷ append-nil xs i

  pub length-append : (xs ys : List A) → length (xs ++ ys) ≡ length xs + length ys
  length-append [] ys = omega arith
  length-append (x ∷ xs) ys = omega (arith, length-append xs ys)

  pub length-update_where :
      (p : A → Bool) (f : A → A) (xs : List A) → length (update_where p f xs) ≡ length xs
  length-update_where p f [] = refl
  length-update_where p f (x ∷ xs) = omega (arith, length-update_where p f xs)

  pub find-holds : (p : A → Bool) (xs : List A) {y : A} → find p xs ≡ some y → p y ≡ true
  find-holds p [] h = cc
  find-holds p (x ∷ xs) {y} h = ground (arith, find-holds p xs {y = y})

module _ {ℓ} {A : Type ℓ} where
  pub filter-congr :
      (p q : A → Bool) (xs : List A) → All (λ x. p x ≡ q x) xs → filter p xs ≡ filter q xs
  filter-congr p q [] h = refl
  filter-congr p q (x ∷ xs) h = ground (arith, filter-congr p q xs h.1)

  pub update_where-congr :
      (p q : A → Bool) (f : A → A) (xs : List A)
      → All (λ x. p x ≡ q x) xs
      → update_where p f xs ≡ update_where q f xs
  update_where-congr p q f [] h = refl
  update_where-congr p q f (x ∷ xs) h = ground (arith, update_where-congr p q f xs h.1)

  -- What holds of the selected elements holds of every element that is selected.
  pub All-filter :
      (P : A → Type 0) (q : A → Bool) (xs : List A)
      → All P (filter q xs)
      → All (λ x. q x ≡ true → P x) xs
  All-filter P q [] h = tt
  All-filter P q (x ∷ xs) h = elim (Bool-cases (q x)) [
    | inl in_ ↦ let h' = rw in_ at h in ((λ _. h'.0), All-filter P q xs h'.1)
    | inr out_ ↦ let h' = rw out_ at h in ((λ yes_. cc), All-filter P q xs h')
  ]

  pub All-weaken : (P Q : A → Type 0) (xs : List A) → ((x : A) → P x → Q x) → All P xs → All Q xs
  All-weaken P Q [] f h = tt
  All-weaken P Q (x ∷ xs) f h = (f x h.0, All-weaken P Q xs f h.1)

  -- Rewriting the rows that a test selects, by a change that the test does not see.
  pub find-update_where :
      (p : A → Bool) (f : A → A) (xs : List A)
      → ((x : A) → p (f x) ≡ p x)
      → find p (update_where p f xs) ≡ Option.map f (find p xs)
  find-update_where p f [] h = refl
  find-update_where p f (x ∷ xs) h = elim (Bool-cases (p x)) [
    | inl in_ ↦ rw (in_, h, in_)
    | inr out_ ↦ rw (out_, out_) (find-update_where p f xs h)
  ]

  -- A search succeeds where something is counted.
  pub count-find : (p : A → Bool) (xs : List A) → 0 < count p xs → (x : A) × (find p xs ≡ some x)
  count-find p [] h = absurd (omega (arith, h))
  count-find p (x ∷ xs) h = elim (Bool-cases (p x)) [
    | inl in_ ↦ (x, rw in_ refl)
    | inr out_ ↦ let later = count-find p xs (rw out_ at h) in (later.0, rw out_ later.1)
  ]

  -- What a search finds is counted by every test that it passes.
  pub find-count :
      (p q : A → Bool) (xs : List A) {y : A} → find p xs ≡ some y → q y ≡ true → 0 < count q xs
  find-count p q [] h yes_ = cc
  find-count p q (x ∷ xs) {y} h yes_ = ground (arith, find-count p q xs {y = y})

  -- Two searches that find a row of one key find the same row.
  pub find_unique :
      (k p q : A → Bool) (xs : List A) {y z : A}
      → count k xs ≤ 1
      → find p xs ≡ some y
      → k y ≡ true
      → find q xs ≡ some z
      → k z ≡ true
      → y ≡ z
  find_unique k p q [] once hy ky hz kz = cc
  find_unique k p q (x ∷ xs) {y} {z} once hy ky hz kz = ground (
    arith,
    find-count p k xs {y = y},
    find-count q k xs {y = z},
    find_unique k p q xs {y = y} {z = z},
  )

  -- A search that finds nothing is of an update that does nothing.
  pub update_where-none :
      (p : A → Bool) (f : A → A) (xs : List A) → find p xs ≡ none → update_where p f xs ≡ xs
  update_where-none p f [] h = refl
  update_where-none p f (x ∷ xs) h = ground (arith, update_where-none p f xs)

  pub count-append : (p : A → Bool) (xs ys : List A) → count p (xs ++ ys) ≡ count p xs + count p ys
  count-append p [] ys = omega arith
  count-append p (x ∷ xs) ys = ground (arith, count-append p xs ys)

  -- What a search finds after an update of other rows that the search does not see.
  pub find-updated :
      (p q : A → Bool) (f : A → A) (xs : List A) {y : A}
      → ((x : A) → p (f x) ≡ p x)
      → find p xs ≡ some y
      → find p (update_where q f xs) ≡ some (cond (q y) (f y) y)
  find-updated p q f [] same found = cc
  find-updated p q f (x ∷ xs) {y} same found =
      ground (arith, same x, find-updated p q f xs {y = y} same)
