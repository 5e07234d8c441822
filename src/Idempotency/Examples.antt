-- ===== src/Idempotency/Examples.antt =====
-- The theorems on idempotency keys at a request and its retry, which another user sends with the keys
-- of the body in another order.
use Prim.Native.String.{String}
use build_affiliate.Common.{
  ℕ, ◌≡◌, ◌≢◌, refl, true, false, Option, some, [], ◌∷◌, ◌==◌, if◌then◌else◌, arith,
}
use build_affiliate.Csv.{Text}
use build_affiliate.Idempotency.Fingerprint.{
  Json, scalar, array, object, no_entries, entry, fingerprint,
}
use build_affiliate.Idempotency.Reorder.{SameJson, in_object, swap, fingerprint-same}
use build_affiliate.Idempotency.Plugin.{
  post, Endpoint, Keys, Request, key_reused, request_in_flight, replayed, new_key, pre_handler,
  claim_key, on_send, body_or_null, stored_body,
}
use build_affiliate.Idempotency.Held.{Plugin, here}
use build_affiliate.Idempotency.Answers.{in_flight_refused, retry_replayed}

abbrev kind_of : Json → ℕ
kind_of (object _) = 1
kind_of (array _) = 2
kind_of _ = 0

abbrev parse_any : String → Option Json
parse_any payload = some (scalar (49 ∷ []))

abbrev one_then_two : Json
one_then_two =
    object (entry (97 ∷ []) (scalar (49 ∷ [])) (entry (98 ∷ []) (scalar (50 ∷ [])) no_entries))

abbrev two_then_one : Json
two_then_one =
    object (entry (98 ∷ []) (scalar (50 ∷ [])) (entry (97 ∷ []) (scalar (49 ∷ [])) no_entries))

a_is_not_b : ◌≢◌ {A = Text} (97 ∷ []) (98 ∷ [])
a_is_not_b h = ground arith

abbrev reordered : SameJson one_then_two two_then_one
reordered =
    in_object (swap (97 ∷ []) (98 ∷ []) (scalar (49 ∷ [])) (scalar (50 ∷ [])) no_entries a_is_not_b)

fingerprint-same_example :
    fingerprint kind_of (some one_then_two) ≡ fingerprint kind_of (some two_then_one)
fingerprint-same_example =
    fingerprint-same kind_of (some one_then_two) (some two_then_one) reordered

abbrev payouts : Endpoint
payouts = record { method = post; route = 3 }

abbrev first : Request
first = record {
  opted_in = true;
  endpoint = payouts;
  header = some (65 ∷ []);
  body = some one_then_two;
  caller = some 1;
}

abbrev retry : Request
retry = record first { body = some two_then_one; caller = some 2 }

abbrev idle : Plugin
idle = record { keys = record { rows = []; next_id = 1 }; in_flight = [] }

abbrev claimed_keys : Keys
claimed_keys = record {
  rows = new_key (65 ∷ []) first (fingerprint kind_of first.body) 1 1000 ∷ [];
  next_id = 2;
}

in_flight_refused_example : pre_handler kind_of retry 2000 claimed_keys claimed_keys ≡ (
  claimed_keys,
  if fingerprint kind_of first.body == fingerprint kind_of retry.body
      then request_in_flight
      else key_reused,
)
unfolding pre_handler claim_key
in_flight_refused_example =
    in_flight_refused kind_of idle first 1000 (65 ∷ []) idle.keys claimed_keys 1 refl refl parse_any
      50000 (omega arith) refl retry 2000 refl refl here here (omega arith) (omega arith)

abbrev answered_keys : Keys
answered_keys = on_send parse_any 1 201 (some "1") claimed_keys

retry_replayed_example :
    (SameJson one_then_two two_then_one
      → pre_handler kind_of retry 90000 answered_keys answered_keys
        ≡ (answered_keys, replayed 201 (body_or_null (stored_body parse_any (some "1")))))
    × ((fingerprint kind_of first.body == fingerprint kind_of retry.body) ≡ false
        → pre_handler kind_of retry 90000 answered_keys answered_keys ≡ (answered_keys, key_reused))
unfolding pre_handler claim_key
retry_replayed_example =
    retry_replayed kind_of idle first 1000 (65 ∷ []) idle.keys claimed_keys 1 refl refl parse_any
      50000 (omega arith) refl retry 90000 refl refl [] [] 201 (some "1") here refl refl here here
