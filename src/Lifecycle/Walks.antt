-- ===== src/Lifecycle/Walks.antt =====
-- What the transition tables allow over whole histories. A walk is a list of requested statuses,
-- each of which the table has to allow.
use build_affiliate.Common.{
  true, false, List, [], ◌∷◌, ◌≡◌, ◌≢◌, ◌↔◌, ◌&&◌, Option, none, some, arith, ◌⊎◌, ◌||◌,
}
use build_affiliate.Lifecycle.Campaign.{
  CampaignStatus, draft, ended, can_transition, accepts_new_affiliates, serves_traffic,
  accepts_conversions,
}
use build_affiliate.Lifecycle.Payout.{
  PayoutStatus, processing, paid, cancelled, can_transition_payout, releases_commissions,
  settles_commissions,
}

-- A campaign that requests the statuses in turn; `none` when the table refuses one.
unfoldable pub campaign_walk : CampaignStatus → List CampaignStatus → Option CampaignStatus
campaign_walk s [] = some s
campaign_walk s (t ∷ ts) = elim (can_transition s t) [ true ↦ campaign_walk t ts | false ↦ none ]

unfoldable pub payout_walk : PayoutStatus → List PayoutStatus → Option PayoutStatus
payout_walk s [] = some s
payout_walk s (t ∷ ts) = elim (can_transition_payout s t) [ true ↦ payout_walk t ts | false ↦ none ]

leaves_draft : (s t : CampaignStatus) → can_transition s t ≡ true → (s ≢ ended) × (t ≢ draft)
unfolding can_transition
leaves_draft s t h = ground arith

campaign_walk_cons :
    (s t : CampaignStatus) (ts : List CampaignStatus) {r : CampaignStatus}
    → campaign_walk s (t ∷ ts) ≡ some r
    → (can_transition s t ≡ true) × (campaign_walk t ts ≡ some r)
unfolding campaign_walk
campaign_walk_cons s t ts h = ground arith

-- No walk of at least one step ends in DRAFT, and none leaves ENDED.
campaign_walk_once :
    (s t : CampaignStatus) (ts : List CampaignStatus) {r : CampaignStatus}
    → campaign_walk s (t ∷ ts) ≡ some r
    → (s ≢ ended) × (r ≢ draft)
unfolding campaign_walk
campaign_walk_once s t [] h = ground (arith, leaves_draft s t)
campaign_walk_once s t (u ∷ ts) h =
    let (ok_, rest) = campaign_walk_cons s t (u ∷ ts) h in
    ((leaves_draft s t ok_).0, (campaign_walk_once t u ts rest).1)

-- The permissions nest: a status that takes new affiliates takes conversions, and one that
-- takes conversions serves traffic. Traffic stops exactly at ENDED, and a campaign can be ended
-- exactly while it takes conversions.
permissions_nested :
    (s : CampaignStatus)
    → (accepts_new_affiliates s ≡ true → accepts_conversions s ≡ true)
      × (accepts_conversions s ≡ true → serves_traffic s ≡ true)
      × ((serves_traffic s ≡ false) ↔ (s ≡ ended))
      × ((can_transition s ended ≡ true) ↔ (accepts_conversions s ≡ true))
unfolding accepts_new_affiliates accepts_conversions serves_traffic can_transition
permissions_nested s =
    (ground arith, ground arith, (ground arith, ground arith), (ground arith, ground arith))

-- The last status before the end of a walk.
abbrev pub before_last : PayoutStatus → List PayoutStatus → PayoutStatus
before_last s [] = s
before_last s (t ∷ []) = s
before_last s (t ∷ u ∷ ts) = before_last t (u ∷ ts)

into_paid :
    (s t : PayoutStatus)
    → can_transition_payout s t ≡ true
    → (s ≢ paid) × (t ≡ paid → s ≡ processing)
unfolding can_transition_payout
into_paid s t h = (ground arith, ground arith)

payout_walk_cons :
    (s t : PayoutStatus) (ts : List PayoutStatus) {r : PayoutStatus}
    → payout_walk s (t ∷ ts) ≡ some r
    → (can_transition_payout s t ≡ true) × (payout_walk t ts ≡ some r)
unfolding payout_walk
payout_walk_cons s t ts h = ground arith

-- A payout that was not paid becomes PAID only by a step out of PROCESSING.
paid_from_processing :
    (s : PayoutStatus) (ts : List PayoutStatus)
    → s ≢ paid
    → payout_walk s ts ≡ some paid
    → before_last s ts ≡ processing
unfolding payout_walk
paid_from_processing s [] n h = ground arith
paid_from_processing s (t ∷ []) n h =
    let (step, rest) = payout_walk_cons s t [] h in ground (arith, into_paid s t)
paid_from_processing s (t ∷ u ∷ ts) n h =
    let rest = (payout_walk_cons s t (u ∷ ts) h).1 in
    paid_from_processing t (u ∷ ts) (into_paid t u (payout_walk_cons t u ts rest).0).0 rest

-- Nothing follows PAID or CANCELLED: the only walk from there is the empty one.
settled_is_terminal :
    (s t : PayoutStatus) (ts : List PayoutStatus)
    → settles_commissions s ≡ true ⊎ s ≡ cancelled
    → payout_walk s (t ∷ ts) ≡ none
unfolding payout_walk can_transition_payout settles_commissions
settled_is_terminal s t ts h = ground arith

-- The table settles or releases a payout's commissions exactly at the statuses that can be
-- entered other than PROCESSING, and never does both.
settles_or_releases :
    (s t : PayoutStatus)
    → can_transition_payout s t ≡ true
    → (settles_commissions t && releases_commissions t ≡ false)
      × ((settles_commissions t || releases_commissions t ≡ false) ↔ (t ≡ processing))
unfolding can_transition_payout settles_commissions releases_commissions
settles_or_releases s t h = (ground arith, (ground arith, ground arith))
