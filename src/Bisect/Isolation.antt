-- ===== src/Bisect/Isolation.antt =====
-- A batch fails because of the poison items in it: `bisectCommit` (bisect.ts) separates them.
use mathlib.Core.Path.{subst}
use build_affiliate.Common.{
  ℕ, zero, suc, ◌+◌, ◌/◌, ◌≤◌, ◌<◌, ◌≡◌, refl, Bool, true, false, not, Option, none, some, List, [],
  ◌∷◌, ◌++◌, any, filter, length, take, drop, arith, ap, sym, ◌∙◌, Bool-cases, inl, inr,
  append_assoc, append-nil,
}
use build_affiliate.Bisect.{BisectResult, conclude, attempt, nothing_done, bisect_commit}

abbrev pub is_none {ℓ} : {A : Type ℓ} → Option A → Bool
is_none none = true
is_none (some _) = false

abbrev pub items_of : {A E : Type 0} → List (A × E) → List A
items_of [] = []
items_of ((x, e) ∷ fs) = x ∷ items_of fs

items_of-append :
    {A E : Type 0} (fs : List (A × E)) (x : A) (e : E)
    → items_of (fs ++ (x, e) ∷ []) ≡ items_of fs ++ x ∷ []
items_of-append [] x e = refl
items_of-append ((y, f) ∷ fs) x e = λ i. y ∷ items_of-append fs x e i

module _ {A : Type 0} where
  filter-append : (p : A → Bool) (xs ys : List A) → filter p (xs ++ ys) ≡ filter p xs ++ filter p ys
  filter-append p [] ys = refl
  filter-append p (x ∷ xs) ys = elim (Bool-cases (p x)) [
    | inl in_ ↦ rw in_ (ap (λ (zs : List A). x ∷ zs) (filter-append p xs ys))
    | inr out_ ↦ rw out_ (filter-append p xs ys)
  ]

  take-append_drop : (n : ℕ) (xs : List A) → take n xs ++ drop n xs ≡ xs
  take-append_drop zero xs = refl
  take-append_drop (suc n) [] = refl
  take-append_drop (suc n) (x ∷ xs) = ap (λ (zs : List A). x ∷ zs) (take-append_drop n xs)

  length-take : (n : ℕ) (xs : List A) → n ≤ length xs → length (take n xs) ≡ n
  length-take zero xs h = refl
  length-take (suc n) [] h = absurd (omega arith)
  length-take (suc n) (x ∷ xs) h = omega (arith, length-take n xs (omega arith))

  length-drop : (n : ℕ) (xs : List A) → n ≤ length xs → length (drop n xs) + n ≡ length xs
  length-drop zero xs h = omega arith
  length-drop (suc n) [] h = absurd (omega arith)
  length-drop (suc n) (x ∷ xs) h = omega (arith, length-drop n xs (omega arith))

  none_poisoned :
      (p : A → Bool) (xs : List A)
      → any p xs ≡ false
      → (filter (λ x. not (p x)) xs ≡ xs) × (filter p xs ≡ [])
  none_poisoned p [] h = (refl, refl)
  none_poisoned p (x ∷ xs) h =
      let (here, later) : (p x ≡ false) × (any p xs ≡ false) = (ground arith, ground arith) in
      let (kept, none_) = none_poisoned p xs later in
      rw here (ap (λ (zs : List A). x ∷ zs) kept, none_)

module _ {A E : Type 0} (poison : A → Bool) (commit : List A → Option E) where
  -- What an attempt at a batch adds to a result.
  abbrev Adds : List A → BisectResult A E → BisectResult A E → Type 0
  Adds batch r r' =
      (r'.succeeded ≡ r.succeeded ++ filter (λ x. not (poison x)) batch)
      × (items_of r'.failed ≡ items_of r.failed ++ filter poison batch)

  Adds-append :
      (b c : List A) (r s t : BisectResult A E) → Adds b r s → Adds c s t → Adds (b ++ c) r t
  Adds-append b c r s t h k = (
    k.0
        ∙ ap (λ (zs : List A). zs ++ filter (λ x. not (poison x)) c) h.0
        ∙ append_assoc r.succeeded _ _
        ∙ ap (λ (zs : List A). r.succeeded ++ zs) (sym (filter-append (λ x. not (poison x)) b c)),
    k.1
        ∙ ap (λ (zs : List A). zs ++ filter poison c) h.1
        ∙ append_assoc (items_of r.failed) _ _
        ∙ ap (λ (zs : List A). items_of r.failed ++ zs) (sym (filter-append poison b c)),
  )

  conclude-Adds :
      (o : Option E) (batch : List A) (r halves : BisectResult A E)
      → is_none o ≡ not (any poison batch)
      → (2 ≤ length batch → Adds batch r halves)
      → 0 < length batch
      → Adds batch r (conclude commit o batch r halves)
  conclude-Adds none batch r halves h k p =
      let (kept, none_) = none_poisoned poison batch (ground arith) in
      rw (kept, none_) (refl, sym (append-nil (items_of r.failed)))
  conclude-Adds (some e) [] r halves h k p = elim p [ ]
  conclude-Adds (some e) (x ∷ []) r halves h k p =
      let bad : poison x ≡ true = ground arith in
      rw bad (sym (append-nil r.succeeded), items_of-append r.failed x e)
  conclude-Adds (some e) (x ∷ y ∷ ys) r halves h k p = k (omega arith)

  attempt-Adds :
      ((b : List A) → is_none (commit b) ≡ not (any poison b))
      → (fuel : ℕ) (batch : List A) (r : BisectResult A E) → 0 < length batch
      → length batch ≤ fuel
      → Adds batch r (attempt commit fuel batch r)
  unfolding attempt
  attempt-Adds h zero batch r p q = absurd (omega arith)
  attempt-Adds h (suc fuel) batch r p q =
      let tried = record r { attempts = r.attempts + 1 } in
      let mid = length batch / 2 in
      let first = attempt commit fuel (take mid batch) tried in
      let last = attempt commit fuel (drop mid batch) first in
      conclude-Adds (commit batch) batch tried last (h batch)
        (λ two.
          let front = length-take mid batch (omega arith) in
          let back = length-drop mid batch (omega arith) in
          subst (λ (b : List A). Adds b tried last) (take-append_drop mid batch)
            (Adds-append (take mid batch) (drop mid batch) tried first last
              (attempt-Adds h fuel (take mid batch) tried (omega arith) (omega arith))
              (attempt-Adds h fuel (drop mid batch) first (omega arith) (omega arith))))
        p

-- If a batch fails to commit exactly when it holds a poison item, the items that are not poison are
-- committed, in their order, and exactly the poison ones are reported as failed, in theirs: none is
-- lost and none is committed twice, and the halving ends.
pub bisect_isolates :
    {A E : Type 0} (poison : A → Bool) (commit : List A → Option E) (items : List A)
    → ((b : List A) → is_none (commit b) ≡ not (any poison b))
    → ((bisect_commit commit items).succeeded ≡ filter (λ x. not (poison x)) items)
      × (items_of (bisect_commit commit items).failed ≡ filter poison items)
unfolding bisect_commit
bisect_isolates poison commit [] h = (refl, refl)
bisect_isolates poison commit (x ∷ items) h =
    attempt-Adds poison commit h (length (x ∷ items)) (x ∷ items) (nothing_done commit)
      (omega arith) (omega arith)
