-- ===== src/Ledger/Review/Laws.antt =====
-- A conversion is reviewed once.
use mathlib.Core.Path.{subst}
use build_affiliate.Common.{
  ℕ, ◌≡◌, refl, List, [], ◌∷◌, find, update_where, count, ◌==◌, arith, ap, ◌∙◌,
}
use build_affiliate.Common.Result.{ok, err, guard, or_throw, >>=-eq-ok, ok-injective}
use build_affiliate.Ledger.Tables.{Store, Conversion, review_conflict, record_missing}
use build_affiliate.Ledger.Outbox.{enqueue_notification, enqueue_webhook_event}
use build_affiliate.Ledger.Review.{
  Decision, approve, reject, ReviewInput, is_pending_row, decide_row, write_review, commit_review,
  emit_review,
}

decided_none_pending :
    (input : ReviewInput) (now id : ℕ) (d : Decision) (cs : List Conversion)
    → count (is_pending_row id) (update_where (is_pending_row id) (decide_row input now d) cs) ≡ 0
decided_none_pending input now id d [] = refl
decided_none_pending input now id approve (c ∷ cs) =
    ground (arith, decided_none_pending input now id approve cs)
decided_none_pending input now id reject (c ∷ cs) =
    ground (arith, decided_none_pending input now id reject cs)

emit_review-conversions :
    (d : Decision) (now brand : ℕ) (r c : Conversion) (s : Store)
    → (emit_review d now brand r c s).conversions ≡ s.conversions
unfolding enqueue_webhook_event
emit_review-conversions approve now brand r c s = refl
emit_review-conversions reject now brand r c s = refl

committed_none_pending :
    (s : Store) (brand : ℕ) (read : Conversion) (input : ReviewInput) (now : ℕ) {s' : Store}
    {c' : Conversion}
    → commit_review s brand read input now ≡ ok (s', c')
    → count (is_pending_row read.id) s'.conversions ≡ 0
unfolding commit_review write_review enqueue_notification
committed_none_pending s brand read input now h =
    let (_, once, h1) =
      >>=-eq-ok (guard (count (is_pending_row read.id) s.conversions == 1) review_conflict) _ h in
    let (updated, _, done) =
      >>=-eq-ok
        (or_throw (find (λ c. c.id == read.id) (write_review s read input now).conversions)
          record_missing)
        _ h1 in
    subst (λ (q : Store × Conversion). count (is_pending_row read.id) q.0.conversions ≡ 0)
      (ok-injective done)
      (ap (λ (cs : List Conversion). count (is_pending_row read.id) cs)
          (emit_review-conversions input.decision now brand read updated _)
        ∙ decided_none_pending input now read.id input.decision s.conversions)

-- Two reviews of one conversion may both have passed the check outside the transaction. Of their
-- transactions the first wins: the next one on the conversion, in the store that the first left, is
-- refused with a conflict, whichever decisions the two made.
pub second_review_conflicts :
    (s : Store) (brand brand' : ℕ) (read read' : Conversion) (input input' : ReviewInput)
    (now now' : ℕ) {s' : Store} {c' : Conversion}
    → read'.id ≡ read.id
    → commit_review s brand read input now ≡ ok (s', c')
    → commit_review s' brand' read' input' now' ≡ err review_conflict
unfolding commit_review
second_review_conflicts s brand brand' read read' input input' now now' {s'} same h =
    let left = committed_none_pending s brand read input now h in
    let left' = ap (λ (n : ℕ). count (is_pending_row n) s'.conversions) same ∙ left in rw left'
