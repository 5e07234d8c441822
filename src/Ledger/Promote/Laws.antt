-- ===== src/Ledger/Promote/Laws.antt =====
-- What the update of `promoteExpiredLocks` (lock-expiry.worker.ts) does to a commission that another
-- operation changed after it was read.
use build_affiliate.Common.{
  ℕ, ◌≡◌, refl, true, false, List, [], ◌∷◌, any, update_where, All, ◌==◌, Bool-cases, inl, inr,
  ==_iff, ap,
}
use build_affiliate.Ledger.Tables.{Store, Commission, CommissionStatus}
use build_affiliate.Ledger.Rows.{listed}
use build_affiliate.Ledger.Promote.{promote, promote_row, find_promotable}

forced :
    (rows cs : List Commission) (now id : ℕ)
    → any (λ r. r.id == id) rows ≡ true
    → All
        (λ c. c.id == id ≡ true → c.status ≡ CommissionStatus.approved)
        (update_where (listed rows) (promote_row now) cs)
forced rows [] now id h = tt
forced rows (c ∷ cs) now id h = elim (Bool-cases (listed rows c)) [
  | inl in_ ↦ rw in_ ((λ _. refl), forced rows cs now id h)
  | inr out_ ↦
      rw out_ ((λ (same : c.id == id ≡ true). absurd_listed same out_), forced rows cs now id h)
]
  where
    absurd_listed :
        c.id == id ≡ true
        → any (λ r. r.id == c.id) rows ≡ false
        → c.status ≡ CommissionStatus.approved
    absurd_listed same no_ =
        let moved = ap (λ (n : ℕ). any (λ r. r.id == n) rows) ((==_iff c.id id).0 same) in cc

-- The update of the worker goes by id. A commission that was among those it had read is approved
-- after the update, also when a reversal of its conversion has clawed it back, or a brand's review
-- has rejected it, in between: whatever the store `s'` between the reads and the update is.
pub promotion_overwrites :
    (s s' : Store) (now limit now' id : ℕ)
    → any (λ r. r.id == id) (find_promotable s now limit) ≡ true
    → All
        (λ c. c.id == id ≡ true → c.status ≡ CommissionStatus.approved)
        (promote (find_promotable s now limit) now' s').commissions
unfolding promote
promotion_overwrites s s' now limit now' id h =
    forced (find_promotable s now limit) s'.commissions now' id h
