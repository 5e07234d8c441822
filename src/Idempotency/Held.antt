-- ===== src/Idempotency/Held.antt =====
-- The row of a claimed key while other requests come: the requests of a key, interleaved with those of other keys and with sweeps.
-- `in_flight` lists the claims whose responses have not been sent. A request's insertion
-- and its read are apart: the table that it reads may be any, since a read changes nothing.
use Prim.Native.String.{String}
use build_affiliate.Common.{
  ℕ, suc, ◌≤◌, ◌<◌, ◌≡◌, refl, Bool, true, false, not, Option, none, some, List, [], ◌∷◌, ◌++◌,
  ◌==◌, leb, find, filter, update_where, count, arith, Bool-cases, Option-cases, inl, inr, ◌⊎◌,
}
use build_affiliate.Csv.{Text}
use build_affiliate.Idempotency.Fingerprint.{Json, fingerprint}
use build_affiliate.Idempotency.Plugin.{
  Method, KeyStatus, in_progress, completed, Endpoint, IdempotencyKey, Keys, Request, Outcome,
  claimed, request_in_flight, replayed, has_key_at, request_key, code_or_200, body_or_null,
  answer_from, read_existing, new_key, claim_key, pre_handler, on_send, cleanup_idempotency_keys,
  same_text, same_method,
}

pub record Plugin : Type 0 where
  pub keys : Keys
  pub in_flight : List ℕ

abbrev pub add_claim : Outcome → List ℕ → List ℕ
add_claim (claimed id) ids = id ∷ ids
add_claim _ ids = ids

-- `digest` and `parse` are SHA-256 of the serialised value and `JSON.parse`; no sweep of the
-- interleaving comes later than `horizon`.
module _ (digest : Json → ℕ) (parse : String → Option Json) (horizon : ℕ) where
  pub data Step : Plugin → Plugin → Type 0 where
    arrive :
        (l : Plugin) (r : Request) (now : ℕ) (at_read : Keys)
        → Step l (record {
          keys = (pre_handler digest r now l.keys at_read).0;
          in_flight = add_claim (pre_handler digest r now l.keys at_read).1 l.in_flight;
        })
    respond :
        (l : Plugin) (before after : List ℕ) (id status : ℕ) (payload : Option String)
        → l.in_flight ≡ before ++ (id ∷ after)
        → Step l
            (record { keys = on_send parse id status payload l.keys; in_flight = before ++ after })
    sweep :
        (l : Plugin) (now : ℕ)
        → now ≤ horizon
        → Step l (record l { keys = (cleanup_idempotency_keys now l.keys).0 })

  pub data Reaches (l : Plugin) : Plugin → Type 0 where
    here : Reaches l l
    next : {m n : Plugin} → Reaches l m → Step m n → Reaches l n

same_text-eq : (a b : Text) → same_text a b ≡ true → a ≡ b
same_text-eq [] [] h = refl
same_text-eq [] (b ∷ bs) h = cc
same_text-eq (a ∷ as_) [] h = cc
same_text-eq (a ∷ as_) (b ∷ bs) h = ground (arith, same_text-eq as_ bs)

same_method-eq : (m n : Method) → same_method m n ≡ true → m ≡ n
same_method-eq m n h = ground arith

has_key_at-eq :
    (key : Text) (endpoint : Endpoint) (r : IdempotencyKey)
    → has_key_at key endpoint r ≡ true
    → (r.key ≡ key) × (r.endpoint ≡ endpoint)
has_key_at-eq key endpoint r h =
    let method_ : r.endpoint.method ≡ endpoint.method = same_method-eq _ _ (ground arith) in
    let route_ : r.endpoint.route ≡ endpoint.route = ground arith in
    (same_text-eq r.key key (ground arith), λ i. record { method = method_ i; route = route_ i })

module _ (key : Text) (endpoint : Endpoint) (row : IdempotencyKey) where
  find_other :
      (id : ℕ) (f : IdempotencyKey → IdempotencyKey) (rows : List IdempotencyKey)
      → ((r : IdempotencyKey) → has_key_at key endpoint (f r) ≡ has_key_at key endpoint r)
      → (row.id == id) ≡ false
      → find (has_key_at key endpoint) rows ≡ some row
      → find (has_key_at key endpoint) (update_where (λ r. r.id == id) f rows) ≡ some row
  find_other id f [] h apart found = cc
  find_other id f (r ∷ rows) h apart found = ground (arith, h r, find_other id f rows h apart)

  pub find_kept :
      (keep : IdempotencyKey → Bool) (rows : List IdempotencyKey)
      → keep row ≡ true
      → find (has_key_at key endpoint) rows ≡ some row
      → find (has_key_at key endpoint) (filter keep rows) ≡ some row
  find_kept keep [] kept found = cc
  find_kept keep (r ∷ rows) kept found = ground (arith, find_kept keep rows kept)

  -- A row that is inserted for a key that no row has does not come before the held one.
  pub find_past_new :
      (k : Text) (r : Request) (fp id now : ℕ) (rows : List IdempotencyKey)
      → find (has_key_at k r.endpoint) rows ≡ none
      → find (has_key_at key endpoint) rows ≡ some row
      → find (has_key_at key endpoint) (new_key k r fp id now ∷ rows) ≡ some row
  find_past_new k r fp id now rows free found =
      elim (Bool-cases (has_key_at key endpoint (new_key k r fp id now))) [
        | inr other_ ↦ rw other_ found
        | inl same_ ↦
            let (key_, endpoint_) = has_key_at-eq key endpoint (new_key k r fp id now) same_ in
            let free' = rw (key_, endpoint_) at free in absurd (cc)
      ]

  pub answered :
      (parse : String → Option Json) (id status : ℕ) (payload : Option String) (s : Keys)
      → (row.id == id) ≡ false
      → find (has_key_at key endpoint) s.rows ≡ some row
      → find (has_key_at key endpoint) (on_send parse id status payload s).rows ≡ some row
  unfolding on_send
  answered parse id status payload s apart found = elim (Bool-cases (leb 500 status)) [
    | inl fails_ ↦ rw fails_ (find_kept (λ r. not (r.id == id)) s.rows (rw apart refl) found)
    | inr sent_ ↦ rw sent_ (find_other id _ s.rows (λ r. refl) apart found)
  ]

  pub on_send_next :
      (parse : String → Option Json) (id status : ℕ) (payload : Option String) (s : Keys)
      → (on_send parse id status payload s).next_id ≡ s.next_id
  unfolding on_send
  on_send_next parse id status payload s = ground arith

-- The row that a search for the key finds, where the row's id has been given out.
abbrev pub IsHeld : Text → Endpoint → IdempotencyKey → Plugin → Type 0
IsHeld key endpoint row l =
    (find (has_key_at key endpoint) l.keys.rows ≡ some row) × (row.id < l.keys.next_id)

-- How many responses of a claim are to be sent.
abbrev pub flights : ℕ → Plugin → ℕ
flights id l = count (λ i. i == id) l.in_flight

no_claim_from :
    (fp : ℕ) (existing : IdempotencyKey) (ids : List ℕ)
    → add_claim (answer_from fp existing) ids ≡ ids
no_claim_from fp existing ids = elim (Bool-cases (existing.fingerprint == fp)) [
  | inl same_ ↦ rw same_ (by_status existing.status)
  | inr other_ ↦ rw other_ refl
]
  where
    by_status :
        (status : KeyStatus)
        → add_claim
            (elim status [
              | in_progress ↦ request_in_flight
              | completed ↦
                  replayed
                    (code_or_200 existing.response_code)
                    (body_or_null existing.response_body)
            ])
            ids
          ≡ ids
    by_status in_progress = refl
    by_status completed = refl

no_claim :
    (key : Text) (endpoint : Endpoint) (fp : ℕ) (at_read : Keys) (ids : List ℕ)
    → add_claim (read_existing key endpoint fp at_read) ids ≡ ids
unfolding read_existing
no_claim key endpoint fp at_read ids =
    elim (Option-cases (find (has_key_at key endpoint) at_read.rows)) [
      | inl gone_ ↦ rw (read_existing, gone_) refl
      | inr (existing, there_) ↦ rw (read_existing, there_) (no_claim_from fp existing ids)
    ]

module _ (digest : Json → ℕ) (r : Request) (now : ℕ) (at_read : Keys) where
  -- A request writes nothing and holds no claim, or it claims a key that no row had.
  pub arrival_cases :
      (s : Keys)
      → ((pre_handler digest r now s at_read).0 ≡ s)
          × ((ids : List ℕ) → add_claim (pre_handler digest r now s at_read).1 ids ≡ ids)
        ⊎ ((k : Text) × (find (has_key_at k r.endpoint) s.rows ≡ none)
            × (pre_handler digest r now s at_read ≡ (
              record s {
                rows = new_key k r (fingerprint digest r.body) s.next_id now ∷ s.rows;
                next_id = suc s.next_id;
              },
              claimed s.next_id,
            )))
  unfolding pre_handler claim_key
  arrival_cases s = elim (Option-cases (request_key r)) [
    | inl none_ ↦ inl (rw (pre_handler, none_) (refl, λ ids. refl))
    | inr (k, some_) ↦ elim (Option-cases (find (has_key_at k r.endpoint) s.rows)) [
      | inl free_ ↦ inr (k, free_, rw (pre_handler, some_, claim_key, free_) refl)
      | inr (existing, taken_) ↦ inl (
          rw (pre_handler, some_, claim_key, taken_)
            (refl, no_claim k r.endpoint (fingerprint digest r.body) at_read))
    ]
  ]
