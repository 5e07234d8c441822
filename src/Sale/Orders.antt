-- ===== src/Sale/Orders.antt =====
-- Reports as a whole: what one books, and what a second one of the same order is answered.
use mathlib.Core.Path.{subst}
use build_affiliate.Common.{
  ℕ, ◌+◌, ◌<◌, ◌≡◌, sym, some, List, ◌==◌, find, length, arith, find-holds, ==_iff,
}
use build_affiliate.Common.Result.{ok}
use build_affiliate.Breaker.{or_else}
use build_affiliate.Sale.Tables.{CampaignTerms, Sale, Sales}
use build_affiliate.Sale.Share.{Surroundings, ReportInput, Created}
use build_affiliate.Sale.Report.{report}
use build_affiliate.Sale.Booked.{Entries, then-Entries, shares_booked}
use build_affiliate.Sale.Effects.{evaluate_all_entry, start_all_entry}
use build_affiliate.Sale.Reported.{IsReported, reported}

found_id :
    (campaign : ℕ) (cs : List CampaignTerms) {terms : CampaignTerms}
    → find (λ (c : CampaignTerms). c.id == campaign) cs ≡ some terms
    → terms.id ≡ campaign
found_id campaign cs {terms} found =
    (==_iff terms.id campaign).0 (find-holds (λ (c : CampaignTerms). c.id == campaign) cs found)

-- What follows the transaction leaves the books alone.
after_books :
    {w : Surroundings} {campaign : ℕ} {input : ReportInput} {now : ℕ} {s t : Sales}
    {cs : List Created} (r : IsReported w campaign input now s t cs)
    → Entries campaign 0 r.shared t
after_books {w} {campaign} {input} {now} {s} {t} {cs} r = rw r.finished (
    then-Entries {a = 0} {b = 0} (start_all_entry w campaign input cs r.shared)
      (evaluate_all_entry campaign input r.clicks (or_else input.occurred_at now) now cs _))

-- A report of a sale that succeeds adds to the books, besides what was there, as many pending sales of
-- the campaign as it answers records, at least one, each with one locked commission of the same
-- affiliate and the same amount; starting subscriptions and scoring fraud do not touch the books.
pub report_books :
    (w : Surroundings) (campaign : ℕ) (input : ReportInput) (now : ℕ) (s : Sales) {t : Sales}
    {cs : List Created}
    → report w campaign input now s ≡ ok (t, cs)
    → Entries campaign (length cs) s t × (0 < length cs)
report_books w campaign input now s {t} {cs} done =
    let r = reported w campaign input now s done in
    let (e, same) =
      shares_booked w r.terms input r.clicks (length r.shares) (or_else input.occurred_at now) now
        r.shares s r.created in
    let books : Entries campaign (length cs) s r.shared =
      rw (sym (found_id campaign s.campaigns r.known), same) e in
    let same_count : 0 + length cs ≡ length cs = omega arith in
    (
      subst (λ n. Entries campaign n s t) same_count (then-Entries books (after_books r)),
      rw same r.has_share,
    )
