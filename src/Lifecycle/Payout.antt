-- ===== src/Lifecycle/Payout.antt =====
-- packages/analytics/src/payout-lifecycle.ts: the table of transitions and which statuses release
-- or settle the commissions of a payout.
use build_affiliate.Common.{Bool, true, false, List, [], ◌∷◌, any, ◌||◌}

pub data PayoutStatus : Type 0 where
  pending processing paid failed cancelled : PayoutStatus

pub PayoutStatus-discrete : Discrete PayoutStatus
PayoutStatus-discrete = hlevel

-- `===` on the status strings.
abbrev pub same_status : PayoutStatus → PayoutStatus → Bool
same_status pending pending = true
same_status processing processing = true
same_status paid paid = true
same_status failed failed = true
same_status cancelled cancelled = true
same_status _ _ = false

abbrev pub payout_transitions : PayoutStatus → List PayoutStatus
payout_transitions pending = processing ∷ failed ∷ cancelled ∷ []
payout_transitions processing = paid ∷ failed ∷ []
payout_transitions paid = []
payout_transitions failed = processing ∷ []
payout_transitions cancelled = []

unfoldable pub can_transition_payout : PayoutStatus → PayoutStatus → Bool
can_transition_payout from to = any (same_status to) (payout_transitions from)

unfoldable pub releases_commissions : PayoutStatus → Bool
releases_commissions to = same_status to failed || same_status to cancelled

unfoldable pub settles_commissions : PayoutStatus → Bool
settles_commissions to = same_status to paid

unfoldable pub allowed_payout_transitions : PayoutStatus → List PayoutStatus
allowed_payout_transitions from = payout_transitions from
