-- ===== src/Ledger/Promote/Starved.antt =====
-- A pass of `promoteExpiredLocks` (lock-expiry.worker.ts) whose whole batch waits for a review.
use build_affiliate.Common.{
  ℕ, ◌≡◌, refl, Bool, false, List, [], ◌∷◌, filter, take, update_where, count, All, ap, zero, suc,
  ◌≤◌, true, ◌++◌, arith, Bool-cases, Option-cases, inl, inr,
}
use build_affiliate.Ledger.Tables.{Store, Commission}
use build_affiliate.Ledger.Rows.{listed}
use build_affiliate.Ledger.Promote.{
  batch, is_expired, has_approved, find_promotable, promote, promote_row, promote_expired_locks,
}

filter-none :
    (q : Commission → Bool) (cs : List Commission) → All (λ c. q c ≡ false) cs → filter q cs ≡ []
filter-none q [] h = refl
filter-none q (c ∷ cs) h = rw (h.0) (filter-none q cs h.1)

update_none : (now : ℕ) (cs : List Commission) → update_where (listed []) (promote_row now) cs ≡ cs
update_none now [] = refl
update_none now (c ∷ cs) = ap (λ (ds : List Commission). c ∷ ds) (update_none now cs)

count_none : (cs : List Commission) → count (listed []) cs ≡ 0
count_none [] = refl
count_none (c ∷ cs) = count_none cs

All-filtered :
    (P : Commission → Type 0) (q : Commission → Bool) (cs : List Commission)
    → All P cs
    → All P (filter q cs)
All-filtered P q [] h = tt
All-filtered P q (c ∷ cs) h = elim (Bool-cases (q c)) [
  | inl in_ ↦ rw in_ (h.0, All-filtered P q cs h.1)
  | inr out_ ↦ rw out_ (All-filtered P q cs h.1)
]

-- A batch that the rows in front fill is taken of them alone.
All-take :
    (P : Commission → Type 0) (q : Commission → Bool) (n : ℕ) (front back : List Commission)
    → All P front
    → n ≤ count q front
    → All P (take n (filter q (front ++ back)))
All-take P q zero front back h few = tt
All-take P q (suc n) [] back h few = absurd (omega (arith, few))
All-take P q (suc n) (c ∷ front) back h few = elim (Bool-cases (q c)) [
  | inl in_ ↦ rw in_ (h.0, All-take P q n front back h.1 (fewer (rw in_ at few)))
  | inr out_ ↦ rw out_ (All-take P q (suc n) front back h.1 (rw out_ at few))
]
  where
    fewer : suc n ≤ suc (count q front) → n ≤ count q front
    fewer h = omega (arith, h)

-- What is due stays due.
later-is_expired :
    (now later : ℕ) (c : Commission)
    → now ≤ later
    → is_expired now c ≡ true
    → is_expired later c ≡ true
later-is_expired now later c h due = elim (Option-cases c.lock_expires_at) [
  | inl never_ ↦ ground arith
  | inr (t, at_) ↦ ground arith
]

still_due :
    (now later : ℕ) (cs : List Commission)
    → now ≤ later
    → count (is_expired now) cs ≤ count (is_expired later) cs
still_due now later [] h = omega arith
still_due now later (c ∷ cs) h = elim (Bool-cases (is_expired now c)) [
  | inl due_ ↦
      rw (due_, later-is_expired now later c h due_) (omega (arith, still_due now later cs h))
  | inr not_due_ ↦ elim (Bool-cases (is_expired later c)) [
    | inl due_ ↦ rw (not_due_, due_) (omega (arith, still_due now later cs h))
    | inr never_ ↦ rw (not_due_, never_) (still_due now later cs h)
  ]
]

-- A batch in which no conversion is approved.
idle_pass :
    (s : Store) (now : ℕ)
    → All
        (λ c. has_approved s.conversions c ≡ false)
        (take batch (filter (is_expired now) s.commissions))
    → promote_expired_locks s now ≡ (s, 0)
unfolding promote_expired_locks find_promotable promote
idle_pass s now h =
    rw
      (
        filter-none (has_approved s.conversions)
            (take batch (filter (is_expired now) s.commissions)) h,
        update_none now s.commissions,
        count_none s.commissions,
      )
      refl

-- The passes of the worker at the given times.
abbrev pub run_passes : List ℕ → Store → Store
run_passes [] s = s
run_passes (now ∷ times) s = run_passes times (promote_expired_locks s now).0

-- A locked commission is due and its conversion is approved, but in front of it in the table stand
-- commissions of which none has an approved conversion and at least `batch` are locked and due. Then
-- however many passes run from that time on, the table stays as it is, and with it the commission.
pub batch_starves :
    (s : Store) (now : ℕ) (front back : List Commission) (c : Commission) (times : List ℕ)
    → s.commissions ≡ front ++ (c ∷ back)
    → is_expired now c ≡ true
    → has_approved s.conversions c ≡ true
    → All (λ d. has_approved s.conversions d ≡ false) front
    → batch ≤ count (is_expired now) front
    → All (λ t. now ≤ t) times
    → (run_passes times s ≡ s) × (All (λ t. is_expired t c ≡ true) times)
batch_starves s now front back c [] split_ due approved_ blocked full later = (refl, tt)
batch_starves s now front back c (t ∷ times) split_ due approved_ blocked full later =
    let (stays, waits) =
      batch_starves s now front back c times split_ due approved_ blocked full later.1 in
    let pass_ = idle_pass s t (
      rw split_ (
        All-take _ (is_expired t) batch front (c ∷ back) blocked
          (omega (arith, full, still_due now t front later.0)))) in
    (rw pass_ stays, (later-is_expired now t c later.0 due, waits))
