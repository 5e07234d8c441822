-- ===== src/Lifecycle/Campaign.antt =====
-- packages/analytics/src/campaign-lifecycle.ts: the table of transitions and what each status
-- permits. Statuses are the upper-case strings of the source.
use build_affiliate.Common.{Bool, true, false, List, [], ◌∷◌, any, filter, ◌||◌, not}

pub data CampaignStatus : Type 0 where
  draft active paused ended : CampaignStatus

pub CampaignStatus-discrete : Discrete CampaignStatus
CampaignStatus-discrete = hlevel

-- `===` on the status strings.
abbrev pub same_status : CampaignStatus → CampaignStatus → Bool
same_status draft draft = true
same_status active active = true
same_status paused paused = true
same_status ended ended = true
same_status _ _ = false

abbrev pub campaign_transitions : CampaignStatus → List CampaignStatus
campaign_transitions draft = active ∷ []
campaign_transitions active = paused ∷ ended ∷ []
campaign_transitions paused = active ∷ ended ∷ []
campaign_transitions ended = []

unfoldable pub can_transition : CampaignStatus → CampaignStatus → Bool
can_transition from to = any (same_status to) (campaign_transitions from)

unfoldable pub accepts_new_affiliates : CampaignStatus → Bool
accepts_new_affiliates status = same_status status active

unfoldable pub serves_traffic : CampaignStatus → Bool
serves_traffic status = not (same_status status ended)

unfoldable pub accepts_conversions : CampaignStatus → Bool
accepts_conversions status = same_status status active || same_status status paused

unfoldable pub allowed_transitions : CampaignStatus → List CampaignStatus
allowed_transitions from = campaign_transitions from

-- The fields of a campaign that no longer change once it has been active.
pub data LockedField : Type 0 where
  commission_structure attribution_model attribution_window_days cookie_lifetime_days
        lock_period_days :
      LockedField

abbrev pub locked_after_activation : List LockedField
locked_after_activation =
    commission_structure ∷ attribution_model ∷ attribution_window_days ∷ cookie_lifetime_days
    ∷ lock_period_days ∷ []

-- `f in input`, for an input given by the test of which fields it has.
unfoldable pub locked_fields_in : (LockedField → Bool) → List LockedField
locked_fields_in has_field = filter has_field locked_after_activation
