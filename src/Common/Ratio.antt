-- ===== src/Common/Ratio.antt =====
-- Non-negative fractions, which stand for the program's doubles: amounts in cents (a cent may be
-- split), percentages and shares. The arithmetic is exact; the rounding of doubles is not modelled.
use native.Mathlib.Nat.{mul-div-le, lt-div-mul-add, le-div_iff_mul-le, le_of_mul-le-mul_left}
use build_affiliate.Common.{ℕ, ◌+◌, ◌*◌, ◌/◌, ◌≤◌, ◌<◌, ◌≡◌, Bool, true, arith, leb, if◌then◌else◌}

pub record Ratio : Type 0 where
  pub num : ℕ
  pub den : ℕ

abbrev pub whole : ℕ → Ratio
whole n = record { num = n; den = 1 }

-- `amount * percent / 100`.
abbrev pub percent_of : Ratio → Ratio → Ratio
percent_of amount percent = record {
  num = amount.num * percent.num;
  den = amount.den * percent.den * 100;
}

abbrev pub scale : ℕ → Ratio → Ratio
scale n a = record { num = n * a.num; den = a.den }

abbrev pub le_ratio : Ratio → Ratio → Bool
le_ratio a b = leb (a.num * b.den) (b.num * a.den)

-- `Math.max` and `Math.min`.
abbrev pub max_ratio : Ratio → Ratio → Ratio
max_ratio a b = if le_ratio a b then b else a

abbrev pub min_ratio : Ratio → Ratio → Ratio
min_ratio a b = if le_ratio a b then a else b

-- `Math.round`, and `toFixed(2)` of an amount in cents: to the nearest, halves upwards.
unfoldable pub round_div : ℕ → ℕ → ℕ
round_div n d = (2 * n + d) / (2 * d)

abbrev pub round_ratio : Ratio → ℕ
round_ratio a = round_div a.num a.den

pub mul_mono : (a b c : ℕ) → b ≤ c → a * b ≤ a * c
mul_mono a b c h = grind arith

-- The result is within half a unit of the exact quotient.
pub round_div_near :
    (n d : ℕ) → 0 < d → (2 * d * round_div n d ≤ 2 * n + d) × (2 * n < 2 * d * round_div n d + d)
unfolding round_div
round_div_near n d h =
    let low = mul-div-le (2 * n + d) (2 * d) in
    let high = lt-div-mul-add {a = 2 * n + d} {b = 2 * d} (omega arith) in
    (omega arith, omega arith)

pub round_div_mono : (n m d : ℕ) → 0 < d → n ≤ m → round_div n d ≤ round_div m d
unfolding round_div
round_div_mono n m d p h =
    (le-div_iff_mul-le {k = 2 * d} (omega arith)).1 (omega (arith, mul-div-le (2 * n + d) (2 * d)))

pub round_div_exact : (n d : ℕ) → 0 < d → round_div (n * d) d ≡ n
round_div_exact n d h = let near = round_div_near (n * d) d h in grind arith

-- Rounding does not cross a whole number.
pub round_div-le : (n m d : ℕ) → 0 < d → n ≤ m * d → round_div n d ≤ m
round_div-le n m d p h = omega (arith, round_div_mono n (m * d) d p h, round_div_exact m d p)

pub le-round_div : (n m d : ℕ) → 0 < d → m * d ≤ n → m ≤ round_div n d
le-round_div n m d p h = omega (arith, round_div_mono (m * d) n d p h, round_div_exact m d p)

-- Rounding keeps the order of fractions with different denominators.
round_cross :
    (na da nb db : ℕ) → 0 < da → 0 < db → na * db ≤ nb * da → round_div na da ≤ round_div nb db
unfolding round_div
round_cross na da nb db pa pb h =
    let r = (2 * na + da) / (2 * da) in
    let low = mul_mono db (2 * da * r) (2 * na + da) (mul-div-le (2 * na + da) (2 * da)) in
    (le-div_iff_mul-le {k = 2 * db} (omega arith)).1
      (le_of_mul-le-mul_left {m = r * (2 * db)} {n = 2 * nb + db} {k = da} (omega arith) pa)

pub round_ratio_mono :
    (a b : Ratio) → 0 < a.den → 0 < b.den → le_ratio a b ≡ true → round_ratio a ≤ round_ratio b
round_ratio_mono a b pa pb h = round_cross a.num a.den b.num b.den pa pb (ground arith)

pub min_ratio_den : (a b : Ratio) → 0 < a.den → 0 < b.den → 0 < (min_ratio a b).den
min_ratio_den a b pa pb = ground arith

pub max_ratio_den : (a b : Ratio) → 0 < a.den → 0 < b.den → 0 < (max_ratio a b).den
max_ratio_den a b pa pb = ground arith

pub min-le_right : (a b : Ratio) → le_ratio (min_ratio a b) b ≡ true
min-le_right a b = ground arith

pub le-max_right : (a b : Ratio) → le_ratio b (max_ratio a b) ≡ true
le-max_right a b = ground arith

pub le-min :
    (c a b : Ratio) → le_ratio c a ≡ true → le_ratio c b ≡ true → le_ratio c (min_ratio a b) ≡ true
le-min c a b h k = ground arith
