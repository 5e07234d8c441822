-- ===== src/Session/Token.antt =====
-- Signing and checking refresh tokens: `ttlToSeconds`, `signRefreshToken` and `verifyRefreshToken` of
-- apps/api/src/services/auth.service.ts. The cryptography, the JSON codec and the environment are
-- a parameter, `Crypto`. A token is the list of its parts between the dots.
use Prim.Native.String.{String}
use text.Mathlib.Text.{◌==◌ as str_eq}
use text.Mathlib.TextPositions.{eq_refl}
use build_affiliate.Common.{
  ℕ, ◌+◌, ◌-◌, ◌*◌, ◌/◌, ◌≡◌, refl, Bool, true, false, ◌&&◌, ◌||◌, not, Option, none, some, List,
  [], ◌∷◌, leb, ltb, ◌==◌, if◌then◌else◌, ◌≤◌, ◌<◌, All, arith, ap, ◌∙◌,
}
use build_affiliate.Common.Result.{Result, ok, err, ◌>>=◌, ◌>>◌, guard, or_throw}
use build_affiliate.Csv.{Text}
use build_affiliate.Session.Tables.{
  AuthError, UserRole, invalid_refresh_token, invalid_token_type, refresh_token_expired,
}

abbrev pub Token : Type 0
Token = List String

pub record RefreshPayload : Type 0 where
  pub id : ℕ
  pub token_version : ℕ
  pub family_id : ℕ
  pub jti : ℕ

-- What is read back from a body: a missing or empty field is none.
pub record Claims : Type 0 where
  pub id : Option ℕ
  pub token_version : Option ℕ
  pub family_id : Option ℕ
  pub jti : Option ℕ
  pub is_refresh : Bool  -- the type is `refresh`
  pub exp : Option ℕ

-- What an access token says.
pub record AccessPayload : Type 0 where
  pub id : ℕ
  pub role : UserRole
  pub token_version : ℕ
  pub family_id : ℕ

-- The keyed hash of `header.body`, the codec of the bodies, the hashes of tokens, addresses and
-- passwords, the signer of the access tokens, and JWT_REFRESH_TTL.
pub record Crypto : Type 0 where
  pub header : String
  pub hmac : String → String → String
  pub encode : RefreshPayload → ℕ → String
  pub decode : String → Option Claims
  pub hash_token : Token → ℕ
  pub hash_ip : String → String
  pub verify_password : String → String → Bool
  pub sign_access : AccessPayload → String
  pub refresh_ttl : Text

abbrev pub is_digit : ℕ → Bool
is_digit c = leb 48 c && leb c 57

-- The seconds of `n` units, where the rest of the text is the one letter of a unit.
abbrev pub seconds_of : ℕ → Text → Option ℕ
seconds_of n (u ∷ []) =
    if u == 115
    then some n
    else if u == 109
    then some (n * 60)
    else if u == 104
    then some (n * 60 * 60)
    else if u == 100
    then some (n * 24 * 60 * 60)
    else none
seconds_of n _ = none

abbrev pub digits_then_unit : ℕ → Text → Option ℕ
digits_then_unit n [] = none
digits_then_unit n (c ∷ cs) =
    let more = digits_then_unit (n * 10 + (c - 48)) cs in
    if is_digit c then more else seconds_of n (c ∷ cs)

abbrev pub starts_with_digit : Text → Bool
starts_with_digit [] = false
starts_with_digit (c ∷ _) = is_digit c

abbrev pub or_thirty_days : Option ℕ → ℕ
or_thirty_days none = 30 * 24 * 60 * 60
or_thirty_days (some n) = n

-- `/^(\d+)([smhd])$/`, and thirty days where it does not match.
unfoldable pub ttl_to_seconds : Text → ℕ
ttl_to_seconds ttl =
    if starts_with_digit ttl then or_thirty_days (digits_then_unit 0 ttl) else 30 * 24 * 60 * 60

unfoldable pub sign_refresh_token : Crypto → ℕ → RefreshPayload → Token
sign_refresh_token w now payload =
    let body = w.encode payload (now / 1000 + ttl_to_seconds w.refresh_ttl) in
    w.header ∷ body ∷ w.hmac w.header body ∷ []

abbrev pub is_present : String → Bool
is_present s = not (str_eq s "")

-- `!payload.exp || payload.exp < now`.
abbrev pub is_past : ℕ → Option ℕ → Bool
is_past now none = true
is_past now (some exp) = exp == 0 || ltb exp (now / 1000)

unfoldable pub check_claims : ℕ → Claims → Result AuthError RefreshPayload
check_claims now claims = do
  guard claims.is_refresh invalid_token_type
  id ← or_throw claims.id invalid_refresh_token
  token_version ← or_throw claims.token_version invalid_refresh_token
  family_id ← or_throw claims.family_id invalid_refresh_token
  jti ← or_throw claims.jti invalid_refresh_token
  guard (not (is_past now claims.exp)) refresh_token_expired
  ok (record { id = id; token_version = token_version; family_id = family_id; jti = jti })

unfoldable pub verify_refresh_token : Crypto → ℕ → Token → Result AuthError RefreshPayload
verify_refresh_token w now (header ∷ body ∷ signature ∷ _) = do
  guard (is_present header && is_present body && is_present signature) invalid_refresh_token
  guard (str_eq signature (w.hmac header body)) invalid_refresh_token
  claims ← or_throw (w.decode body) invalid_refresh_token
  check_claims now claims
verify_refresh_token w now _ = err invalid_refresh_token

-- The claims of a payload that is encoded with an expiry.
abbrev pub claims_of : RefreshPayload → ℕ → Claims
claims_of p exp = record {
  id = some p.id;
  token_version = some p.token_version;
  family_id = some p.family_id;
  jti = some p.jti;
  is_refresh = true;
  exp = some exp;
}

-- The codec reads back the body that it wrote, and no part of the token is empty.
pub record IsReadable (w : Crypto) (p : RefreshPayload) (exp : ℕ) : Type 0 where
  pub decodes : w.decode (w.encode p exp) ≡ some (claims_of p exp)
  pub header_present : is_present w.header ≡ true
  pub body_present : is_present (w.encode p exp) ≡ true
  pub signature_present : is_present (w.hmac w.header (w.encode p exp)) ≡ true

-- The units of JWT_REFRESH_TTL: the letter of each, and its seconds.
pub data TimeUnit : Type 0 where
  seconds minutes hours days : TimeUnit

abbrev pub letter_of : TimeUnit → ℕ
letter_of seconds = 115
letter_of minutes = 109
letter_of hours = 104
letter_of days = 100

abbrev pub seconds_in : TimeUnit → ℕ
seconds_in seconds = 1
seconds_in minutes = 60
seconds_in hours = 3600
seconds_in days = 86400

-- The text of decimal digits and a unit, and the number that the digits stand for after `high`.
abbrev pub numeral : List ℕ → TimeUnit → Text
numeral [] u = letter_of u ∷ []
numeral (d ∷ ds) u = (48 + d) ∷ numeral ds u

abbrev pub value_after : ℕ → List ℕ → ℕ
value_after high [] = high
value_after high (d ∷ ds) = value_after (high * 10 + d) ds

unit_seconds : (n : ℕ) (u : TimeUnit) → digits_then_unit n (numeral [] u) ≡ some (n * seconds_in u)
unit_seconds n u = ground arith

digit_code : (d : ℕ) → d < 10 → is_digit (48 + d) ≡ true
digit_code d h = ground arith

back : (d : ℕ) → 48 + d - 48 ≡ d
back d = omega arith

digits_then_unit-numeral :
    (n : ℕ) (ds : List ℕ) (u : TimeUnit)
    → All (λ d. d < 10) ds
    → digits_then_unit n (numeral ds u) ≡ some (value_after n ds * seconds_in u)
digits_then_unit-numeral n [] u h = unit_seconds n u
digits_then_unit-numeral n (d ∷ ds) u h =
    rw (digit_code d h.0, back d) (digits_then_unit-numeral (n * 10 + d) ds u h.1)

ttl_to_seconds-numeral :
    (d : ℕ) (ds : List ℕ) (u : TimeUnit)
    → All (λ d. d < 10) (d ∷ ds)
    → ttl_to_seconds (numeral (d ∷ ds) u) ≡ value_after 0 (d ∷ ds) * seconds_in u
unfolding ttl_to_seconds
ttl_to_seconds-numeral d ds u h =
    rw (digit_code d h.0, back d, digits_then_unit-numeral (0 * 10 + d) ds u h.1) refl

-- The lifetime is configured as decimal digits and a unit, and is not 0. A token that was signed at
-- one moment is accepted, with the payload it was signed for, as long as no more than the lifetime
-- lies between the two moments in whole seconds, and is refused as expired when more does.
pub verify-sign :
    (w : Crypto) (p : RefreshPayload) (signed now : ℕ) (d : ℕ) (ds : List ℕ) (u : TimeUnit)
    → w.refresh_ttl ≡ numeral (d ∷ ds) u
    → All (λ c. c < 10) (d ∷ ds)
    → 0 < value_after 0 (d ∷ ds) * seconds_in u
    → IsReadable w p (signed / 1000 + value_after 0 (d ∷ ds) * seconds_in u)
    → (now / 1000 ≤ signed / 1000 + value_after 0 (d ∷ ds) * seconds_in u
        → verify_refresh_token w now (sign_refresh_token w signed p) ≡ ok p)
      × (signed / 1000 + value_after 0 (d ∷ ds) * seconds_in u < now / 1000
          → verify_refresh_token w now (sign_refresh_token w signed p) ≡ err refresh_token_expired)
unfolding verify_refresh_token sign_refresh_token check_claims
verify-sign w p signed now d ds u configured digits positive_ readable =
    let lifetime = value_after 0 (d ∷ ds) * seconds_in u in
    let exp = signed / 1000 + lifetime in
    let lives : ttl_to_seconds w.refresh_ttl ≡ lifetime =
      ap ttl_to_seconds configured ∙ ttl_to_seconds-numeral d ds u digits in
    let checked : verify_refresh_token w now (sign_refresh_token w signed p)
        ≡ (guard (not (is_past now (some exp))) refresh_token_expired >> ok p) =
      rw
        (
          lives,
          readable.header_present,
          readable.body_present,
          readable.signature_present,
          eq_refl (w.hmac w.header (w.encode p exp)),
          readable.decodes,
        )
        refl in
    (
      (λ soon. checked ∙ rw (in_time exp soon (omega (arith, positive_))) refl),
      (λ late. checked ∙ rw (out_of_time exp late) refl),
    )
  where
    in_time : (exp : ℕ) → now / 1000 ≤ exp → 0 < exp → is_past now (some exp) ≡ false
    in_time exp soon live = ground arith

    out_of_time : (exp : ℕ) → exp < now / 1000 → is_past now (some exp) ≡ true
    out_of_time exp late = ground arith
