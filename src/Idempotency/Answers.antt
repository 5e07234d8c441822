-- ===== src/Idempotency/Answers.antt =====
-- The answers to the requests that come with a claimed key.
use Prim.Native.String.{String}
use build_affiliate.Common.{
  ℕ, suc, ◌+◌, ◌≤◌, ◌<◌, ◌≡◌, ◌≢◌, refl, sym, ◌∙◌, true, false, Option, some, List, [], ◌∷◌, ◌++◌,
  ◌==◌, leb, find, if◌then◌else◌, arith, Option-cases, inl, inr, find-updated,
}
use build_affiliate.Csv.{Text}
use build_affiliate.Idempotency.Fingerprint.{Json, fingerprint, or_null}
use build_affiliate.Idempotency.Reorder.{SameJson, canonicalise-same}
use build_affiliate.Idempotency.Plugin.{
  Method, Endpoint, IdempotencyKey, Keys, Request, claimed, key_reused, request_in_flight, replayed,
  has_key_at, request_key, body_or_null, new_key, claim_key, pre_handler, stored_body, complete_row,
  on_send, answer_from, read_existing, ttl_ms, same_text, same_method,
}
use build_affiliate.Idempotency.Held.{Plugin, Reaches, IsHeld, flights}
use build_affiliate.Idempotency.Retry.{Reaches-IsHeld, Reaches-append, flights_split}

-- A request whose key a row holds writes nothing, and is answered from the row that holds it at the
-- read.
held_answer :
    (digest : Json → ℕ) (r : Request) (now : ℕ) (key : Text) (row row' : IdempotencyKey)
    (l l' : Plugin)
    → request_key r ≡ some key
    → IsHeld key r.endpoint row l
    → IsHeld key r.endpoint row' l'
    → pre_handler digest r now l.keys l'.keys
      ≡ (l.keys, answer_from (fingerprint digest r.body) row')
unfolding pre_handler claim_key read_existing
held_answer digest r now key row row' l l' keyed held held' =
    rw (pre_handler, keyed, claim_key, held.0, read_existing, held'.0) refl

pub same_text_refl : (t : Text) → same_text t t ≡ true
same_text_refl [] = refl
same_text_refl (c ∷ cs) = ground (arith, same_text_refl cs)

same_method_refl : (m : Method) → same_method m m ≡ true
same_method_refl m = ground arith

new_key_found :
    (key : Text) (r : Request) (fp id now : ℕ) (rows : List IdempotencyKey)
    → find (has_key_at key r.endpoint) (new_key key r fp id now ∷ rows)
      ≡ some (new_key key r fp id now)
new_key_found key r fp id now rows =
    rw (same_text_refl key) (ground (arith, same_method_refl r.endpoint.method))

same_number : (n : ℕ) → (n == n) ≡ true
same_number n = ground arith

-- The row of a claim after its response.
completed_found :
    (parse : String → Option Json) (status : ℕ) (payload : Option String) (key : Text)
    (endpoint : Endpoint) (row : IdempotencyKey) (s : Keys)
    → leb 500 status ≡ false
    → find (has_key_at key endpoint) s.rows ≡ some row
    → row.id < s.next_id
    → (find (has_key_at key endpoint) (on_send parse row.id status payload s).rows
        ≡ some (complete_row status (stored_body parse payload) row))
      × (row.id < (on_send parse row.id status payload s).next_id)
unfolding on_send
completed_found parse status payload key endpoint row s fine found given = rw fine (
  find-updated (has_key_at key endpoint) (λ x. x.id == row.id)
        (complete_row status (stored_body parse payload)) s.rows (λ x. refl) found
      ∙ rw (same_number row.id) refl,
  given,
)

no_claimed_from :
    (fp : ℕ) (existing : IdempotencyKey) (id : ℕ) → answer_from fp existing ≢ claimed id
no_claimed_from fp existing id h = ground arith

no_claimed :
    (key : Text) (endpoint : Endpoint) (fp : ℕ) (at_read : Keys) (id : ℕ)
    → read_existing key endpoint fp at_read ≢ claimed id
unfolding read_existing
no_claimed key endpoint fp at_read id h =
    elim (Option-cases (find (has_key_at key endpoint) at_read.rows)) [
      | inl gone_ ↦ let h' = rw (read_existing, gone_) at h in cc
      | inr (existing, there_) ↦ no_claimed_from fp existing id (rw (read_existing, there_) at h)
    ]

module _ (digest : Json → ℕ) (l : Plugin) (r : Request) (now : ℕ) (key : Text) (at_read s : Keys)
    (id : ℕ) (keyed : request_key r ≡ some key)
    (won : pre_handler digest r now l.keys at_read ≡ (s, claimed id)) where
  abbrev claimed_row : IdempotencyKey
  claimed_row = new_key key r (fingerprint digest r.body) id now

  won_held : (find (has_key_at key r.endpoint) s.rows ≡ some claimed_row) × (id < s.next_id)
  unfolding pre_handler claim_key
  won_held = elim (Option-cases (find (has_key_at key r.endpoint) l.keys.rows)) [
    | inr (existing, taken_) ↦
        let won' = rw (pre_handler, keyed, claim_key, taken_) at won in
        absurd (no_claimed key r.endpoint (fingerprint digest r.body) at_read id (λ i. (won' i).1))
    | inl free_ ↦
        let won' = rw (pre_handler, keyed, claim_key, free_) at won in
        let id_ : l.keys.next_id ≡ id = cc in
        let written_ : record l.keys {
          rows = new_key key r (fingerprint digest r.body) l.keys.next_id now ∷ l.keys.rows;
          next_id = suc l.keys.next_id;
        }
            ≡ s =
          λ i. (won' i).0 in
        rw (sym id_, sym written_)
          (
            new_key_found key r (fingerprint digest r.body) l.keys.next_id now l.keys.rows,
            omega arith,
          )
  ]

  module _ (parse : String → Option Json) (horizon : ℕ) (lives : horizon ≤ now + ttl_ms)
      (new_ : flights id l ≡ 0) where
    abbrev pub after_claim : Plugin
    after_claim = record { keys = s; in_flight = id ∷ l.in_flight }

    still-IsHeld :
        {m : Plugin}
        → Reaches digest parse horizon after_claim m
        → 0 < flights id m
        → (flights id m ≤ 1) × IsHeld key r.endpoint claimed_row m
    still-IsHeld reached open_ =
        let (few, held) =
          Reaches-IsHeld key r.endpoint claimed_row lives reached (ground (arith, new_)) won_held in
        (ground (arith, few, new_), held)

    -- The row of the claim from its response on.
    answered-IsHeld :
        {m n : Plugin} (before after : List ℕ) (status : ℕ) (payload : Option String)
        → Reaches digest parse horizon after_claim m
        → m.in_flight ≡ before ++ (id ∷ after)
        → leb 500 status ≡ false
        → Reaches digest parse horizon
            (record { keys = on_send parse id status payload m.keys; in_flight = before ++ after })
            n
        → IsHeld key r.endpoint (complete_row status (stored_body parse payload) claimed_row) n
    unfolding on_send
    answered-IsHeld {m} {n} before after status payload reached split_ fine later =
        let (few, held) =
          still-IsHeld reached (rw split_ (ground (arith, flights_split id id before after))) in
        (Reaches-IsHeld key r.endpoint (complete_row status (stored_body parse payload) claimed_row)
          lives later (ground (arith, flights_split id id before after, rw split_ at few))
          (completed_found parse status payload key r.endpoint claimed_row m.keys fine held.0
            held.1)).1

    module _ (r' : Request) (now' : ℕ) (keyed' : request_key r' ≡ some key)
        (same_route : r'.endpoint ≡ r.endpoint) where
      -- A claim is made and its response has not been sent. A request with the same key to the same
      -- endpoint comes, whoever sends it and whatever requests, responses and sweeps within the
      -- lifetime of the key come before it and between its insertion and its read, but it reads
      -- before that response is sent. Then it does not run its handler and writes nothing: it is
      -- told that the first one is in flight, or, with another fingerprint, that the key is taken.
      pub in_flight_refused :
          {m n : Plugin}
          → Reaches digest parse horizon after_claim m
          → Reaches digest parse horizon m n
          → 0 < flights id m
          → 0 < flights id n
          → pre_handler digest r' now' m.keys n.keys ≡ (
            m.keys,
            if fingerprint digest r.body == fingerprint digest r'.body
                then request_in_flight
                else key_reused,
          )
      in_flight_refused {m} {n} reached onwards open_ still_open =
          let (few, held) = still-IsHeld reached open_ in
          let (few', held') = still-IsHeld (Reaches-append reached onwards) still_open in
          held_answer digest r' now' key claimed_row claimed_row m n keyed' (rw same_route held)
            (rw same_route held')

      -- Once the claim has been answered with a status below 500, a request with the same key to the
      -- same endpoint, whoever sends it and as long as no sweep comes after the lifetime of the
      -- key, does not run its handler and writes nothing, whatever comes between its insertion and
      -- its read. A body that differs at most in the order
      -- of keys is given the stored status and body; one with another fingerprint is refused.
      pub retry_replayed :
          {m n n' : Plugin} (before after : List ℕ) (status : ℕ) (payload : Option String)
          → Reaches digest parse horizon after_claim m
          → m.in_flight ≡ before ++ (id ∷ after)
          → leb 500 status ≡ false
          → Reaches digest parse horizon
              (record {
                keys = on_send parse id status payload m.keys;
                in_flight = before ++ after;
              })
              n
          → Reaches digest parse horizon n n'
          → (SameJson (or_null r.body) (or_null r'.body)
              → pre_handler digest r' now' n.keys n'.keys
                ≡ (n.keys, replayed status (body_or_null (stored_body parse payload))))
            × ((fingerprint digest r.body == fingerprint digest r'.body) ≡ false
                → pre_handler digest r' now' n.keys n'.keys ≡ (n.keys, key_reused))
      unfolding on_send fingerprint
      retry_replayed {m} {n} {n'} before after status payload reached split_ fine later onwards =
          let done = complete_row status (stored_body parse payload) claimed_row in
          let stays = answered-IsHeld before after status payload reached split_ fine later in
          let stays' =
            answered-IsHeld before after status payload reached split_ fine
              (Reaches-append later onwards) in
          let answer =
            held_answer digest r' now' key done done n n' keyed' (rw same_route stays)
              (rw same_route stays') in
          (
            λ reordered.
                answer
                ∙ rw (canonicalise-same reordered, same_number (fingerprint digest r'.body)) refl,
            λ other. answer ∙ rw other refl,
          )
