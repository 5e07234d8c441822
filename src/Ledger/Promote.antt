-- ===== src/Ledger/Promote.antt =====
-- `promoteExpiredLocks` of apps/api/src/workers/lock-expiry.worker.ts: two reads, then one update by
-- id. Nothing is locked, so other operations may run between the reads (`find_promotable`) and the
-- update (`promote`).
pub mod Laws
pub mod Starved
use build_affiliate.Common.{
  ℕ, ◌≡◌, Bool, true, false, ◌&&◌, Option, none, some, List, [], ◌∷◌, any, filter, take,
  update_where, count, ◌==◌,
}
use build_affiliate.Ledger.Tables.{
  Store, Conversion, ConversionStatus, Commission, CommissionStatus, locked,
}
use build_affiliate.Ledger.Rows.{same_conversion_status, same_commission_status, expired_by, listed}

abbrev pub batch : ℕ
batch = 200

abbrev pub is_expired : ℕ → Commission → Bool
is_expired now c = same_commission_status c.status locked && expired_by now c.lock_expires_at

abbrev pub has_approved : List Conversion → Commission → Bool
has_approved conversions c =
    any (λ v. v.id == c.conversion_id && same_conversion_status v.status ConversionStatus.approved)
      conversions

-- The commissions to promote: the first `limit` locked ones whose time has come, less those whose
-- conversion is not approved.
unfoldable pub find_promotable : Store → ℕ → ℕ → List Commission
find_promotable s now limit =
    filter (has_approved s.conversions) (take limit (filter (is_expired now) s.commissions))

abbrev pub promote_row : ℕ → Commission → Commission
promote_row now c = record c { status = CommissionStatus.approved; approved_at = some now }

-- `updateMany` where the id is listed, whatever the row's status is by now.
unfoldable pub promote : List Commission → ℕ → Store → Store
promote rows now s = record s {
  commissions = update_where (listed rows) (promote_row now) s.commissions;
}

-- One pass, and how many rows it promoted.
unfoldable pub promote_expired_locks : Store → ℕ → Store × ℕ
unfolding find_promotable promote
promote_expired_locks s now =
    let rows = find_promotable s now batch in
    (promote rows now s, count (listed rows) s.commissions)
