-- ===== src/Examples/Remote.antt =====
-- Examples on remote routes.
use nginx_admin.Common.{◌≡◌, refl, true, false, none, List, [], ◌∷◌, text}
use nginx_admin.Secrets.{redact_potential_secrets}
use nginx_admin.Remote.Types.{Route, RouteDraft}
use nginx_admin.Remote.Drafts.{Ambient, route_of_draft}
use nginx_admin.Remote.Local.{Renderer, saved, load_routes, sanitize_route}
use nginx_admin.Remote.Local.Refines.{Holds}
use nginx_admin.Remote.Composition.{
  desktop_gateway, web_gateway, PageCall, save_page, toggle_page, use_routes_process,
}
use nginx_admin.Remote.Composition.Same.{Same, use_routes_process-Same}
use nginx_admin.Remote.Fixed.{IsFixed}
use nginx_admin.Remote.Projection.{initial}
use nginx_admin.Remote.Process.{load}
use nginx_admin.Remote.Process.Settled.{save_call, toggle_call}
use nginx_admin.Remote.Process.Mirror.{InStep, gateway_at}
use nginx_admin.Remote.Process.History.{run, load-run-InStep}

abbrev noon : Ambient
noon = record { uuid = text "u-1"; now = text "2026-01-01T12:00:00.000Z" }

abbrev old : Route
old = record {
  id = text "r1";
  host = text "a.example.com";
  destination = text "http://localhost:3000";
  enabled = true;
  updated_at = text "2025-12-31T00:00:00.000Z";
}

abbrev draft : RouteDraft
draft = record {
  id = none;
  host = text "b.example.com";
  destination = text "http://localhost:3001";
  enabled = none;
}

old-IsFixed : IsFixed old
unfolding sanitize_route redact_potential_secrets
old-IsFixed = refl

draft-IsFixed : IsFixed (route_of_draft noon draft)
unfolding sanitize_route redact_potential_secrets route_of_draft
draft-IsFixed = refl

noon_plain : redact_potential_secrets noon.now ≡ noon.now
unfolding redact_potential_secrets
noon_plain = refl

load-run-InStep_example : InStep (
    run
      ((noon, save_call draft) ∷ (noon, toggle_call (text "r1") false) ∷ [])
      (load (gateway_at noon) true (old ∷ [], initial)).1)
load-run-InStep_example =
    load-run-InStep noon (old ∷ []) initial
      ((noon, save_call draft) ∷ (noon, toggle_call (text "r1") false) ∷ []) (old-IsFixed, tt)
      (draft-IsFixed, (noon_plain, tt))

abbrev browser : Renderer
browser = record { has_window = true; stored = saved (old ∷ []) }

browser-Holds : Holds browser (old ∷ [])
unfolding load_routes
browser-Holds = record { window = refl; loaded = refl; fixed = (old-IsFixed, tt) }

abbrev page_calls : List (Ambient × PageCall)
page_calls =
    (noon, toggle_page (text "r1") false)
    ∷ (noon, toggle_page (text "r2") true)
    ∷ (noon, save_page draft)
    ∷ []

use_routes_process-Same_example :
    Same
      (use_routes_process desktop_gateway noon page_calls (browser, initial))
      (use_routes_process web_gateway noon page_calls (old ∷ [], initial))
use_routes_process-Same_example =
    use_routes_process-Same noon page_calls browser (old ∷ []) initial
      (noon_plain, (noon_plain, (draft-IsFixed, tt))) browser-Holds
