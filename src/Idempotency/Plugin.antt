-- ===== src/Idempotency/Plugin.antt =====
-- The hooks of apps/api/src/plugins/idempotency.ts on the table of keys. The route pattern, the user
-- and the digest are only compared, so they are numbers; times are epoch milliseconds.
use Prim.Native.String.{String}
use build_affiliate.Common.{
  ℕ, suc, ◌+◌, ◌-◌, ◌*◌, Bool, true, false, ◌&&◌, not, Option, none, some, List, [], ◌∷◌, ◌==◌, leb,
  ltb, take, length, find, filter, update_where, if◌then◌else◌,
}
use build_affiliate.Csv.{Text}
use build_affiliate.Idempotency.Fingerprint.{Json, null, fingerprint}

pub data Method : Type 0 where
  get post patch put delete other_method : Method

pub data KeyStatus : Type 0 where
  in_progress completed : KeyStatus

pub record Endpoint : Type 0 where
  pub method : Method
  pub route : ℕ

pub record IdempotencyKey : Type 0 where
  pub id : ℕ
  pub key : Text
  pub endpoint : Endpoint
  pub user_id : Option ℕ
  pub fingerprint : ℕ
  pub status : KeyStatus
  pub response_code : Option ℕ
  pub response_body : Option Json
  pub expires_at : ℕ

-- `next_id` stands for the database's id generator.
pub record Keys : Type 0 where
  pub rows : List IdempotencyKey
  pub next_id : ℕ

-- `opted_in` is the route's `config.idempotent`, `caller` what `callerId` finds.
pub record Request : Type 0 where
  pub opted_in : Bool
  pub endpoint : Endpoint
  pub header : Option Text
  pub body : Option Json
  pub caller : Option ℕ

-- What the first hook decides: to run the handler with a claim or without one, or an answer.
pub data Outcome : Type 0 where
  unclaimed : Outcome
  claimed : ℕ → Outcome
  key_reused request_in_flight : Outcome  -- 422 and 409
  replayed : ℕ → Json → Outcome

abbrev pub ttl_ms : ℕ
ttl_ms = 24 * 60 * 60 * 1000

abbrev pub max_key_length : ℕ
max_key_length = 200

abbrev pub is_mutating : Method → Bool
is_mutating post = true
is_mutating patch = true
is_mutating put = true
is_mutating _ = false

abbrev pub same_text : Text → Text → Bool
same_text [] [] = true
same_text (a ∷ as_) (b ∷ bs) = a == b && same_text as_ bs
same_text _ _ = false

abbrev pub same_method : Method → Method → Bool
same_method get get = true
same_method post post = true
same_method patch patch = true
same_method put put = true
same_method delete delete = true
same_method other_method other_method = true
same_method _ _ = false

abbrev pub has_key_at : Text → Endpoint → IdempotencyKey → Bool
has_key_at key endpoint r =
    same_text r.key key
    && (same_method r.endpoint.method endpoint.method && r.endpoint.route == endpoint.route)

-- The key that the request is to be recognised by, if it is to be recognised at all.
abbrev pub header_key : Option Text → Option Text
header_key none = none
header_key (some []) = none
header_key (some (c ∷ cs)) = some (take max_key_length (c ∷ cs))

abbrev pub request_key : Request → Option Text
request_key r = if r.opted_in && is_mutating r.endpoint.method then header_key r.header else none

abbrev pub code_or_200 : Option ℕ → ℕ
code_or_200 none = 200
code_or_200 (some code) = code

abbrev pub body_or_null : Option Json → Json
body_or_null none = null
body_or_null (some body) = body

-- The key is taken: the row that holds it decides.
abbrev pub answer_from : ℕ → IdempotencyKey → Outcome
answer_from fp existing =
    if existing.fingerprint == fp
    then elim existing.status [
      | in_progress ↦ request_in_flight
      | completed ↦
          replayed (code_or_200 existing.response_code) (body_or_null existing.response_body)
    ]
    else key_reused

abbrev pub new_key : Text → Request → ℕ → ℕ → ℕ → IdempotencyKey
new_key key r fp id now = record {
  id = id;
  key = key;
  endpoint = r.endpoint;
  user_id = r.caller;
  fingerprint = fp;
  status = in_progress;
  response_code = none;
  response_body = none;
  expires_at = now + ttl_ms;
}

-- The read of the row that is in the way of a claim. If it has vanished since, the request goes on
-- without a claim.
unfoldable pub read_existing : Text → Endpoint → ℕ → Keys → Outcome
read_existing key endpoint fp s = elim (find (has_key_at key endpoint) s.rows) [
  | none ↦ unclaimed
  | some existing ↦ answer_from fp existing
]

-- The insertion into the table `s`, which the unique index on the key and the endpoint may refuse.
-- The table is `at_read` when the row is then read: others may have written in between. The read
-- writes nothing.
unfoldable pub claim_key : Text → Request → ℕ → ℕ → Keys → Keys → Keys × Outcome
unfolding read_existing
claim_key key r fp now s at_read = elim (find (has_key_at key r.endpoint) s.rows) [
  | none ↦ (
    record s { rows = new_key key r fp s.next_id now ∷ s.rows; next_id = suc s.next_id },
    claimed s.next_id,
  )
  | some _ ↦ (s, read_existing key r.endpoint fp at_read)
]

-- The table after the hook's insertion, and what the hook decides.
unfoldable pub pre_handler : (Json → ℕ) → Request → ℕ → Keys → Keys → Keys × Outcome
pre_handler digest r now s at_read = elim (request_key r) [
  | none ↦ (s, unclaimed)
  | some key ↦ claim_key key r (fingerprint digest r.body) now s at_read
]

abbrev pub not_null : Option Json → Option Json
not_null (some null) = none
not_null body = body

-- The body to store: none where the payload is not JSON, or is `null`.
abbrev pub stored_body : (String → Option Json) → Option String → Option Json
stored_body parse none = none
stored_body parse (some payload) = not_null (parse payload)

abbrev pub complete_row : ℕ → Option Json → IdempotencyKey → IdempotencyKey
complete_row code body r = record r {
  status = completed;
  response_code = some code;
  response_body = body;
}

-- `onSend` of a request that holds a claim. A failed update or delete is logged; here none fails.
unfoldable pub on_send : (String → Option Json) → ℕ → ℕ → Option String → Keys → Keys
on_send parse id status payload s =
    if leb 500 status then record s { rows = filter (λ r. not (r.id == id)) s.rows } else record s {
      rows =
          update_where (λ r. r.id == id) (complete_row status (stored_body parse payload)) s.rows;
    }

-- The table without the keys past their time, and the number of deleted rows.
unfoldable pub cleanup_idempotency_keys : ℕ → Keys → Keys × ℕ
cleanup_idempotency_keys now s =
    let swept : Keys = record s { rows = filter (λ r. not (ltb r.expires_at now)) s.rows } in
    (swept, length s.rows - length swept.rows)
