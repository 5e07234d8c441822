-- ===== src/Idempotency/Retry.antt =====
-- What a retry meets: from the claim to the response, and from the response on.
use Prim.Native.String.{String}
use build_affiliate.Common.{
  ℕ, ◌+◌, ◌≤◌, ◌<◌, ◌≡◌, false, Option, List, [], ◌∷◌, ◌++◌, ◌==◌, leb, count, arith, Bool-cases,
  inl, inr, count-append,
}
use build_affiliate.Csv.{Text}
use build_affiliate.Idempotency.Fingerprint.{Json}
use build_affiliate.Idempotency.Plugin.{Endpoint, IdempotencyKey, on_send, cleanup_idempotency_keys}
use build_affiliate.Idempotency.Held.{
  Plugin, Step, arrive, respond, sweep, Reaches, here, next, IsHeld, flights, arrival_cases,
  find_past_new, answered, on_send_next, find_kept,
}

pub flights_split :
    (id other : ℕ) (before after : List ℕ)
    → count (λ i. i == id) (before ++ (other ∷ after))
      ≡ count (λ i. i == id) (other ∷ []) + count (λ i. i == id) (before ++ after)
flights_split id other before after =
    rw
      (count-append (λ i. i == id) before (other ∷ after), count-append (λ i. i == id) before after)
      (ground arith)

module _ {digest : Json → ℕ} {parse : String → Option Json} {horizon : ℕ} where
  step_next : {l m : Plugin} → Step digest parse horizon l m → l.keys.next_id ≤ m.keys.next_id
  unfolding on_send cleanup_idempotency_keys
  step_next (arrive l r now at_read) = elim (arrival_cases digest r now at_read l.keys) [
    | inl (same_, none_) ↦ rw same_ (omega arith)
    | inr (k, free_, claims_) ↦ rw claims_ (omega arith)
  ]
  step_next (respond l before after id status payload split_) = elim (Bool-cases (leb 500 status)) [
    | inl fails_ ↦ rw fails_ (omega arith)
    | inr sent_ ↦ rw sent_ (omega arith)
  ]
  step_next (sweep l now soon) = omega arith

  step_flights :
      {l m : Plugin} (id : ℕ)
      → Step digest parse horizon l m
      → id < l.keys.next_id
      → flights id m ≤ flights id l
  step_flights id (arrive l r now at_read) given =
      elim (arrival_cases digest r now at_read l.keys) [
        | inl (same_, none_) ↦ rw (none_ l.in_flight) (omega arith)
        | inr (k, free_, claims_) ↦ rw claims_ (ground arith)
      ]
  step_flights id (respond l before after other status payload split_) given =
      rw split_ (omega (arith, flights_split id other before after))
  step_flights id (sweep l now soon) given = omega arith

  Reaches-given :
      {l m : Plugin} → Reaches digest parse horizon l m → l.keys.next_id ≤ m.keys.next_id
  Reaches-given here = omega arith
  Reaches-given (next r step) = omega (arith, Reaches-given r, step_next step)

  pub Reaches-append :
      {l m n : Plugin}
      → Reaches digest parse horizon l m
      → Reaches digest parse horizon m n
      → Reaches digest parse horizon l n
  Reaches-append before here = before
  Reaches-append before (next reached step) = next (Reaches-append before reached) step

  module _ (key : Text) (endpoint : Endpoint) (row : IdempotencyKey)
      (lives : horizon ≤ row.expires_at) where
    step-IsHeld :
        {l m : Plugin}
        → Step digest parse horizon l m
        → flights row.id l ≤ flights row.id m
        → IsHeld key endpoint row l
        → IsHeld key endpoint row m
    unfolding on_send cleanup_idempotency_keys
    step-IsHeld (arrive l r now at_read) kept h = elim (arrival_cases digest r now at_read l.keys) [
      | inl (same_, none_) ↦ rw same_ h
      | inr (k, free_, claims_) ↦
          rw claims_
            (find_past_new key endpoint row k r _ _ now l.keys.rows free_ h.0, omega (arith, h.1))
    ]
    step-IsHeld (respond l before after id status payload split_) kept h = (
      answered key endpoint row parse id status payload l.keys (other_id (rw split_ at kept)) h.0,
      rw (on_send_next key endpoint row parse id status payload l.keys) h.1,
    )
      where
        other_id :
            flights row.id (record l { in_flight = before ++ (id ∷ after) })
              ≤ count (λ i. i == row.id) (before ++ after)
            → (row.id == id) ≡ false
        other_id few = ground (arith, flights_split row.id id before after)
    step-IsHeld (sweep l now soon) kept h =
        (find_kept key endpoint row _ l.keys.rows (ground arith) h.0, h.1)

    -- As long as the number of responses to come for the row does not change, neither does the row.
    pub Reaches-IsHeld :
        {l m : Plugin}
        → Reaches digest parse horizon l m
        → flights row.id l ≤ flights row.id m
        → IsHeld key endpoint row l
        → (flights row.id m ≤ flights row.id l) × IsHeld key endpoint row m
    Reaches-IsHeld here kept h = (omega arith, h)
    Reaches-IsHeld (next r step) kept h =
        let less = step_flights row.id step (omega (arith, h.1, Reaches-given r)) in
        let (fewer, held) = Reaches-IsHeld r (omega (arith, kept, less)) h in
        (omega (arith, fewer, less), step-IsHeld step (omega (arith, kept, fewer)) held)
