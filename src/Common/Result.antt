-- ===== src/Common/Result.antt =====
-- Operations that may throw. A thrown error leaves the database as it was, since what an operation
-- writes it writes in one transaction: the store of a failed call is the one before it.
use build_affiliate.Common.{Bool, true, false, ◌≡◌, refl, Option, none, some}

pub data Result {ℓ} (E : Type 0) (A : Type ℓ) : Type ℓ where
  err : E → Result E A
  ok : A → Result E A

module _ {E : Type 0} where
  -- `if (!o) throw e`, with the value bound.
  abbrev pub or_throw {ℓ} : {A : Type ℓ} → Option A → E → Result E A
  or_throw (some found) thrown = ok found
  or_throw none thrown = err thrown

  -- `if (!b) throw e`.
  abbrev pub guard : Bool → E → Result E (Unit {0})
  guard false thrown = err thrown
  guard true thrown = ok tt

  infixl 5 ◌>>=◌ ◌>>◌
  abbrev pub ◌>>=◌ {ℓ κ} : {A : Type ℓ} {B : Type κ} → Result E A → (A → Result E B) → Result E B
  err thrown >>= rest = err thrown
  ok value >>= rest = rest value

  abbrev pub ◌>>◌ {ℓ} : {B : Type ℓ} → Result E (Unit {0}) → Result E B → Result E B
  check >> rest = check >>= λ _. rest

  pub >>=-eq-ok {ℓ κ} :
      {A : Type ℓ} {B : Type κ} (first : Result E A) (rest : A → Result E B) {b : B}
      → (first >>= rest) ≡ ok b
      → (a : A) × (first ≡ ok a) × (rest a ≡ ok b)
  >>=-eq-ok (err thrown) rest h = cc
  >>=-eq-ok (ok value) rest h = (value, refl, h)

pub ok-injective {ℓ} :
    {E : Type 0} {A : Type ℓ} {a b : A} → ◌≡◌ {A = Result E A} (ok a) (ok b) → a ≡ b
ok-injective {E} {A} {a} h = λ i. value (h i)
  where
    value : Result E A → A
    value (ok x) = x
    value (err e) = a

pub or_throw-eq-ok {ℓ} :
    {E : Type 0} {A : Type ℓ} (o : Option A) (e : E) {a : A} → or_throw o e ≡ ok a → o ≡ some a
or_throw-eq-ok none e h = cc
or_throw-eq-ok (some x) e h = λ i. some (ok-injective h i)

pub guard-eq-ok : {E : Type 0} (b : Bool) (e : E) {u : Unit {0}} → guard b e ≡ ok u → b ≡ true
guard-eq-ok true e h = refl
guard-eq-ok false e h = cc
