-- ===== src/Lease/Exclusion.antt =====
-- Two runs are never both within the time that they were granted.
use mathlib.Core.Option.{some-injective}
use build_affiliate.Common.{
  ℕ, ◌+◌, ◌≤◌, ◌<◌, ◌≡◌, refl, sym, ◌∙◌, Bool, true, false, Option, none, some, List, [], ◌∷◌, ◌++◌,
  ltb, ◌==◌, All, arith, Bool-cases, inl, inr, count-append, ==_iff,
}
use build_affiliate.Lease.{
  Lease, live_holder, is_holder, is_absent, set_nx, renew_script, release_script, Run, Cluster,
  runs_of, new_run, after_renewal, Step, wait, acquire, acquire_unheard, renew, renew_unheard,
  finish, finish_unreleased, Reaches, here, next, StartsAlone, IsSerial, idle_cluster,
}

abbrev IsHolderUntil : ℕ → Option Lease → Run → Type 0
IsHolderUntil until key r =
    (e : ℕ) × (key ≡ some (record { holder = r.instance_id; expires_at = e })) × (until ≤ e)

-- The key is the run's, for as long as the run was granted, which is no longer than its time to live.
abbrev IsGuarded : ℕ → Option Lease → Run → Type 0
IsGuarded now key r =
    (now < r.granted_until → IsHolderUntil r.granted_until key r)
    × (r.granted_until ≤ now + r.ttl_ms)

abbrev IsExclusive : Cluster → Type 0
IsExclusive c = All (IsGuarded c.now c.key) c.runs × ((id : ℕ) → runs_of id c.runs ≤ 1)

All-split :
    (P : Run → Type 0) (rs : List Run) (r : Run) (qs : List Run)
    → All P (rs ++ (r ∷ qs))
    → All P rs × P r × All P qs
All-split P [] r qs h = (tt, h.0, h.1)
All-split P (x ∷ rs) r qs h = let (a, b, c) = All-split P rs r qs h.1 in ((h.0, a), b, c)

All-join : (P : Run → Type 0) (rs qs : List Run) → All P rs → All P qs → All P (rs ++ qs)
All-join P [] qs h k = k
All-join P (r ∷ rs) qs h k = (h.0, All-join P rs qs h.1 k)

-- A run within its time holds the live key.
guarded_live :
    (now : ℕ) (key : Option Lease) (r : Run)
    → IsGuarded now key r
    → now < r.granted_until
    → live_holder now key ≡ some r.instance_id
guarded_live now key r guarded within =
    let (e, mine, long) = guarded.0 within in rw (mine, not_past e long) refl
  where
    not_past : (e : ℕ) → r.granted_until ≤ e → ltb now e ≡ true
    not_past e long = ground (arith, within)

-- Runs of other instances, as far as they are guarded by the old key, are not within their time.
unguarded :
    (now id : ℕ) (old key : Option Lease) (rs : List Run)
    → is_holder id (live_holder now old) ≡ true
    → runs_of id rs ≡ 0
    → All (IsGuarded now old) rs
    → All (IsGuarded now key) rs
unguarded now id old key [] held other h = tt
unguarded now id old key (r ∷ rs) held other h = (
  ((λ within. absurd (not_mine (rw (guarded_live now old r h.0 within) at held))), h.0.1),
  unguarded now id old key rs held (ground arith) h.1,
)
  where
    not_mine : (r.instance_id == id) ≡ true → ⊥
    not_mine mine = ground arith

others :
    (id : ℕ) (before after : List Run) (r : Run)
    → r.instance_id ≡ id
    → runs_of id (before ++ (r ∷ after)) ≤ 1
    → (runs_of id before ≡ 0) × (runs_of id after ≡ 0)
others id before after r same few =
    let sum = count-append (λ (q : Run). q.instance_id == id) before (r ∷ after) in
    (ground arith, ground arith)

-- Where a run holds the key, what is written to the key is no matter of the other runs.
around_unguarded :
    (now : ℕ) (old key : Option Lease) (before after : List Run) (r : Run)
    → is_holder r.instance_id (live_holder now old) ≡ true
    → runs_of r.instance_id (before ++ (r ∷ after)) ≤ 1
    → All (IsGuarded now old) (before ++ (r ∷ after))
    → All (IsGuarded now key) before × All (IsGuarded now key) after
around_unguarded now old key before after r held one g =
    let (gb, gr, ga) = All-split (IsGuarded now old) before r after g in
    let (nb, na) = others r.instance_id before after r refl one in
    (
      unguarded now r.instance_id old key before held nb gb,
      unguarded now r.instance_id old key after held na ga,
    )

count-split :
    (id : ℕ) (before after : List Run) (r : Run)
    → runs_of id (before ++ (r ∷ after)) ≡ runs_of id (r ∷ []) + runs_of id (before ++ after)
count-split id before after r =
    rw
      (
        count-append (λ (q : Run). q.instance_id == id) before (r ∷ after),
        count-append (λ (q : Run). q.instance_id == id) before after,
      )
      (ground arith)

same_instance :
    (id now : ℕ) (b : Bool) (r : Run)
    → runs_of id (after_renewal now b r ∷ []) ≡ runs_of id (r ∷ [])
same_instance id now true r = ground arith
same_instance id now false r = ground arith

one_left :
    (before after : List Run) (r : Run) (rs : List Run)
    → rs ≡ before ++ (r ∷ after)
    → ((id : ℕ) → runs_of id rs ≤ 1)
    → (id : ℕ) → runs_of id (before ++ after) ≤ 1
one_left before after r rs split_ one id =
    omega (arith, count-split id before after r, rw split_ at (one id))

one_replaced :
    (before after : List Run) (r q : Run) (rs : List Run)
    → rs ≡ before ++ (r ∷ after)
    → ((id : ℕ) → runs_of id (q ∷ []) ≡ runs_of id (r ∷ []))
    → ((id : ℕ) → runs_of id rs ≤ 1)
    → (id : ℕ) → runs_of id (before ++ (q ∷ after)) ≤ 1
one_replaced before after r q rs split_ same one id = omega (
  arith,
  count-split id before after r,
  count-split id before after q,
  same id,
  rw split_ at (one id),
)

later-IsGuarded :
    (now later : ℕ) (key : Option Lease) (rs : List Run)
    → now ≤ later
    → All (IsGuarded now key) rs
    → All (IsGuarded later key) rs
later-IsGuarded now later key [] h g = tt
later-IsGuarded now later key (r ∷ rs) h g = (
  ((λ within. g.0.0 (omega (arith, within, h))), omega (arith, g.0.1, h)),
  later-IsGuarded now later key rs h g.1,
)

-- Where no key is live, no run is within its time.
absent-IsGuarded :
    (now : ℕ) (old key : Option Lease) (rs : List Run)
    → is_absent (live_holder now old) ≡ true
    → All (IsGuarded now old) rs
    → All (IsGuarded now key) rs
absent-IsGuarded now old key [] gone h = tt
absent-IsGuarded now old key (r ∷ rs) gone h = (
  ((λ within. cc (rw (guarded_live now old r h.0 within) at gone)), h.0.1),
  absent-IsGuarded now old key rs gone h.1,
)

renewed-IsGuarded :
    (now : ℕ) (before after : List Run) (r : Run) (key : Option Lease)
    → runs_of r.instance_id (before ++ (r ∷ after)) ≤ 1
    → All (IsGuarded now key) (before ++ (r ∷ after))
    → All
        (IsGuarded now (renew_script r.instance_id r.ttl_ms now key).0)
        (before ++ (after_renewal now (renew_script r.instance_id r.ttl_ms now key).1 r ∷ after))
      × All (IsGuarded now (renew_script r.instance_id r.ttl_ms now key).0) (before ++ (r ∷ after))
unfolding renew_script
renewed-IsGuarded now before after r key one g =
    let (gb, gr, ga) = All-split (IsGuarded now key) before r after g in
    elim (Bool-cases (is_holder r.instance_id (live_holder now key))) [
      | inr lost_ ↦ rw lost_ (All-join _ before _ gb (gr, ga), g)
      | inl held_ ↦
          let renewed : Option Lease =
            some (record { holder = r.instance_id; expires_at = now + r.ttl_ms }) in
          let (fb, fa) = around_unguarded now key renewed before after r held_ one g in
          rw held_ (
            All-join _ before _ fb
                (((λ within. (now + r.ttl_ms, refl, omega arith)), omega arith), fa),
            All-join _ before _ fb (((λ within. (now + r.ttl_ms, refl, gr.1)), gr.1), fa),
          )
    ]

released-IsGuarded :
    (now : ℕ) (before after : List Run) (r : Run) (key : Option Lease)
    → runs_of r.instance_id (before ++ (r ∷ after)) ≤ 1
    → All (IsGuarded now key) (before ++ (r ∷ after))
    → All (IsGuarded now (release_script r.instance_id now key)) (before ++ after)
      × All (IsGuarded now key) (before ++ after)
unfolding release_script
released-IsGuarded now before after r key one g =
    let (gb, gr, ga) = All-split (IsGuarded now key) before r after g in
    elim (Bool-cases (is_holder r.instance_id (live_holder now key))) [
      | inr lost_ ↦ rw lost_ (All-join _ before _ gb ga, All-join _ before _ gb ga)
      | inl held_ ↦
          let (fb, fa) = around_unguarded now key none before after r held_ one g in
          rw held_ (All-join _ before _ fb fa, All-join _ before _ gb ga)
    ]

set-IsGuarded :
    (now id ttl_ms : ℕ) (rs : List Run) (key : Option Lease)
    → All (IsGuarded now key) rs
    → All (IsGuarded now (set_nx id ttl_ms now key).0) rs
      × ((set_nx id ttl_ms now key).1 ≡ true
          → IsGuarded now (set_nx id ttl_ms now key).0 (new_run id ttl_ms now))
unfolding set_nx
set-IsGuarded now id ttl_ms rs key g = elim (Bool-cases (is_absent (live_holder now key))) [
  | inr there_ ↦ rw there_ (g, λ granted. cc)
  | inl free_ ↦ rw free_ (
    absent-IsGuarded now key _ rs free_ g,
    λ granted. ((λ within. (now + ttl_ms, refl, omega arith)), omega arith),
  )
]

one_started :
    (id ttl_ms now : ℕ) (rs : List Run)
    → runs_of id rs ≡ 0
    → ((other : ℕ) → runs_of other rs ≤ 1)
    → (other : ℕ) → runs_of other (new_run id ttl_ms now ∷ rs) ≤ 1
one_started id ttl_ms now rs new_ one other = elim (Bool-cases (id == other)) [
  | inl same_ ↦ rw same_ (omega (arith, rw ((==_iff id other).0 same_) at new_))
  | inr apart_ ↦ rw apart_ (one other)
]

step-IsExclusive :
    {c d : Cluster} (step : Step c d) → StartsAlone step → IsExclusive c → IsExclusive d
step-IsExclusive (wait c later forward) alone (g, one) =
    (later-IsGuarded c.now later c.key c.runs forward g, one)
step-IsExclusive (acquire c id ttl_ms granted) alone (g, one) =
    let (rest, mine) = set-IsGuarded c.now id ttl_ms c.runs c.key g in
    ((mine granted, rest), one_started id ttl_ms c.now c.runs alone one)
step-IsExclusive (acquire_unheard c id ttl_ms) alone (g, one) =
    ((set-IsGuarded c.now id ttl_ms c.runs c.key g).0, one)
step-IsExclusive (renew c before after r split_) alone (g, one) = (
  (renewed-IsGuarded c.now before after r c.key (rw split_ at (one r.instance_id))
      (rw split_ at g)).0,
  one_replaced before after r _ c.runs split_ (λ id. same_instance id c.now _ r) one,
)
step-IsExclusive (renew_unheard c before after r split_) alone (g, one) = (
  rw split_
      (renewed-IsGuarded c.now before after r c.key (rw split_ at (one r.instance_id))
        (rw split_ at g)).1,
  one,
)
step-IsExclusive (finish c before after r split_) alone (g, one) = (
  (released-IsGuarded c.now before after r c.key (rw split_ at (one r.instance_id))
      (rw split_ at g)).0,
  one_left before after r c.runs split_ one,
)
step-IsExclusive (finish_unreleased c before after r split_) alone (g, one) = (
  (released-IsGuarded c.now before after r c.key (rw split_ at (one r.instance_id))
      (rw split_ at g)).1,
  one_left before after r c.runs split_ one,
)

exclusive : {c : Cluster} (reached : Reaches idle_cluster c) → IsSerial reached → IsExclusive c
exclusive here serial = (tt, λ id. omega arith)
exclusive (next reached step) serial = step-IsExclusive step serial.1 (exclusive reached serial.0)

-- Acquisitions, renewals, releases and waits come in any order, and answers to commands may be lost.
-- Provided that no instance starts a run while one of its own is at work, of two different runs at
-- work at most one is still within the time that it was last told it has, and that one holds the key,
-- at least for so long.
pub one_granted :
    {c : Cluster} (before between after : List Run) (r q : Run) (reached : Reaches idle_cluster c)
    → IsSerial reached
    → c.runs ≡ before ++ (r ∷ (between ++ (q ∷ after)))
    → c.now < r.granted_until
    → (q.granted_until ≤ c.now)
      × ((e : ℕ) × (c.key ≡ some (record { holder = r.instance_id; expires_at = e }))
          × (r.granted_until ≤ e))
one_granted {c} before between after r q reached serial split_ within =
    let (g, one) = exclusive reached serial in
    let (gb, gr, ga) =
      All-split (IsGuarded c.now c.key) before r (between ++ (q ∷ after)) (rw split_ at g) in
    let (gm, gq, gz) = All-split (IsGuarded c.now c.key) between q after ga in
    let (nb, na) =
      others r.instance_id before (between ++ (q ∷ after)) r refl
        (rw split_ at (one r.instance_id)) in
    (
      elim (Bool-cases (ltb c.now q.granted_until)) [
        | inr past_ ↦ ground arith
        | inl also_ ↦
            let mine = guarded_live c.now c.key r gr within in
            let yours = guarded_live c.now c.key q gq (ground arith) in
            absurd (both (some-injective _ _ (sym mine ∙ yours)) na)
      ],
      gr.0 within,
    )
  where
    both : r.instance_id ≡ q.instance_id → runs_of r.instance_id (between ++ (q ∷ after)) ≡ 0 → ⊥
    both same none_ = ground (arith, count-split r.instance_id between after q)
