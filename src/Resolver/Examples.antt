-- ===== src/Resolver/Examples.antt =====
-- The theorem on the redirect's cache at a link that is deleted a moment after it is cached.
use build_affiliate.Common.{ℕ, ◌≡◌, refl, true, none, some, List, [], ◌∷◌, ◌⊎◌, arith}
use build_affiliate.Resolver.{Fetched, link, no_such_link, unreachable, Visit, resolve_link}
use build_affiliate.Resolver.Staleness.{run_visits, stale_for_a_day}

abbrev visit_at : ℕ → Fetched → Visit
visit_at now api = record { now = now; can_read = true; can_write = true; api = api }

abbrev cached_link : List Visit
cached_link = visit_at 100 (link 7) ∷ []

abbrev outages : List Visit
outages = visit_at 200 unreachable ∷ visit_at 300 no_such_link ∷ []

abbrev a_day_later : Visit
a_day_later = visit_at 86500 no_such_link

-- Until then the deleted link is still served.
still_served : (resolve_link (visit_at 86499 no_such_link) (run_visits cached_link none)).1 ≡ some 7
unfolding resolve_link run_visits
still_served = refl

stale_for_a_day_example :
    ((resolve_link a_day_later (run_visits outages (run_visits cached_link none))).1 ≡ none)
    ⊎ (a_day_later.api ≡ unreachable)
stale_for_a_day_example =
    stale_for_a_day none 100 cached_link outages a_day_later (omega arith, tt) (tt, (refl, tt)) refl
      (omega arith)
