-- ===== src/Remote/Drafts.antt =====
-- What the executors of remote routes share: the route of a draft, toggling and listing.
use nginx_admin.Common.{Bool, true, Option, or_else, List, ◌++◌, Text, text, keep, if◌then◌else◌}
use nginx_admin.Remote.Types.{Route, RouteDraft}

-- What a call takes from its surroundings: `crypto.randomUUID()` and `new Date().toISOString()`.
pub record Ambient : Type 0 where
  pub uuid : Text
  pub now : Text

unfoldable pub route_of_draft : Ambient → RouteDraft → Route
route_of_draft env draft = record {
  id = or_else draft.id env.uuid;
  host = draft.host;
  destination = draft.destination;
  enabled = or_else draft.enabled true;
  updated_at = env.now;
}

unfoldable pub toggled : Ambient → Bool → Route → Route
toggled env enabled current = record current { enabled = enabled; updated_at = env.now }

-- `includeDisabled ? routes : routes.filter((route) => route.enabled)`, by default `true`
unfoldable pub listed : Option Bool → List Route → List Route
listed include_disabled routes =
    if or_else include_disabled true then routes else keep (λ r. r.enabled) routes

abbrev pub not_found : Text → Text
not_found id = text "Route " ++ (id ++ text " not found")
