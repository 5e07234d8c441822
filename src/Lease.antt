-- ===== src/Lease.antt =====
-- Leases on jobs: apps/api/src/lib/lease.ts. One lease name, which is one key of Redis; the commands that
-- the source sends are atomic. Instances are numbers, times milliseconds. A run is one call of
-- `withLease` whose job is at work; `granted_until` is when the last grant ends that
-- it was told of, which the source does not store. An answer counts from the moment of the command.
pub mod Exclusion
mod Examples
use build_affiliate.Common.{
  ℕ, ◌+◌, ◌≤◌, ◌≡◌, Bool, true, false, Option, none, some, List, [], ◌∷◌, ◌++◌, ltb, count, ◌==◌,
  if◌then◌else◌,
}

pub record Lease : Type 0 where
  pub holder : ℕ
  pub expires_at : ℕ

-- What `GET` answers: a key past its expiry is gone.
abbrev pub live_holder : ℕ → Option Lease → Option ℕ
live_holder now none = none
live_holder now (some l) = if ltb now l.expires_at then some l.holder else none

abbrev pub is_holder : ℕ → Option ℕ → Bool
is_holder id none = false
is_holder id (some holder) = holder == id

abbrev pub is_absent : Option ℕ → Bool
is_absent none = true
is_absent (some _) = false

-- `SET key id PX ttl NX`: the key, and whether the answer was OK.
unfoldable pub set_nx : ℕ → ℕ → ℕ → Option Lease → Option Lease × Bool
set_nx id ttl_ms now key =
    if is_absent (live_holder now key)
    then (some (record { holder = id; expires_at = now + ttl_ms }), true)
    else (key, false)

-- RENEW_SCRIPT.
unfoldable pub renew_script : ℕ → ℕ → ℕ → Option Lease → Option Lease × Bool
renew_script id ttl_ms now key =
    if is_holder id (live_holder now key)
    then (some (record { holder = id; expires_at = now + ttl_ms }), true)
    else (key, false)

-- RELEASE_SCRIPT.
unfoldable pub release_script : ℕ → ℕ → Option Lease → Option Lease
release_script id now key = if is_holder id (live_holder now key) then none else key

pub record Run : Type 0 where
  pub instance_id : ℕ
  pub ttl_ms : ℕ
  pub granted_until : ℕ
  pub aborted : Bool

pub record Cluster : Type 0 where
  pub now : ℕ
  pub key : Option Lease
  pub runs : List Run

abbrev pub runs_of : ℕ → List Run → ℕ
runs_of id rs = count (λ (r : Run). r.instance_id == id) rs

abbrev pub new_run : ℕ → ℕ → ℕ → Run
new_run id ttl_ms now = record {
  instance_id = id;
  ttl_ms = ttl_ms;
  granted_until = now + ttl_ms;
  aborted = false;
}

-- What the timer does with the answer of a renewal.
abbrev pub after_renewal : ℕ → Bool → Run → Run
after_renewal now true r = record r { granted_until = now + r.ttl_ms }
after_renewal now false r = record r { aborted = true }

-- The instances of a cluster, in any order. A command that does not reach Redis changes nothing but
-- for the run that ends without its release; one that does may lose its answer. A refused
-- acquisition is no step.
pub data Step : Cluster → Cluster → Type 0 where
  wait : (c : Cluster) (later : ℕ) → c.now ≤ later → Step c (record c { now = later })
  acquire :
      (c : Cluster) (id ttl_ms : ℕ)
      → (set_nx id ttl_ms c.now c.key).1 ≡ true
      → Step c (record c {
        key = (set_nx id ttl_ms c.now c.key).0;
        runs = new_run id ttl_ms c.now ∷ c.runs;
      })
  acquire_unheard :
      (c : Cluster) (id ttl_ms : ℕ) → Step c (record c { key = (set_nx id ttl_ms c.now c.key).0 })
  renew :
      (c : Cluster) (before after : List Run) (r : Run)
      → c.runs ≡ before ++ (r ∷ after)
      → Step c (record c {
        key = (renew_script r.instance_id r.ttl_ms c.now c.key).0;
        runs =
            before
            ++ (after_renewal c.now (renew_script r.instance_id r.ttl_ms c.now c.key).1 r ∷ after);
      })
  renew_unheard :
      (c : Cluster) (before after : List Run) (r : Run)
      → c.runs ≡ before ++ (r ∷ after)
      → Step c (record c { key = (renew_script r.instance_id r.ttl_ms c.now c.key).0 })
  finish :
      (c : Cluster) (before after : List Run) (r : Run)
      → c.runs ≡ before ++ (r ∷ after)
      → Step c (record c { key = release_script r.instance_id c.now c.key; runs = before ++ after })
  finish_unreleased :
      (c : Cluster) (before after : List Run) (r : Run)
      → c.runs ≡ before ++ (r ∷ after)
      → Step c (record c { runs = before ++ after })

pub data Reaches (c : Cluster) : Cluster → Type 0 where
  here : Reaches c c
  next : {d e : Cluster} → Reaches c d → Step d e → Reaches c e

-- No instance starts a run while another of its own is at work. `withLease` does not see to it.
abbrev pub StartsAlone : {c d : Cluster} → Step c d → Type 0
StartsAlone (acquire c id ttl_ms granted) = runs_of id c.runs ≡ 0
StartsAlone _ = Unit

abbrev pub IsSerial : {c d : Cluster} → Reaches c d → Type 0
IsSerial here = Unit
IsSerial (next reached step) = IsSerial reached × StartsAlone step

abbrev pub idle_cluster : Cluster
idle_cluster = record { now = 0; key = none; runs = [] }
