-- ===== src/Remote/Process/Settled.antt =====
-- What every method of `RoutesProcess` leaves behind, whatever the gateway does.
use nginx_admin.Common.{◌≡◌, refl, Bool, true, false, none, some, List, Text, text}
use nginx_admin.Effects.{message_or, Result, ok, fail}
use nginx_admin.Remote.Types.{Route, RouteDraft, RouteGateway}
use nginx_admin.Remote.Projection.{
  RoutesState, set_pending, set_error, shown_error, replace_routes, upsert_route,
}
use nginx_admin.Remote.Process.{settle, load, save, toggle}

-- A call of one of the three methods.
pub data Call : Type 0 where
  load_call : Bool → Call
  save_call : RouteDraft → Call
  toggle_call : Text → Bool → Call

abbrev pub fallback : Call → Text
fallback (load_call b) = text "Failed to load routes"
fallback (save_call d) = text "Failed to save route"
fallback (toggle_call i b) = text "Failed to toggle route"

unfoldable pub perform :
    {S : Type 0} → RouteGateway S → Call → S × RoutesState → Result (Unit {0}) × (S × RoutesState)
unfolding load save toggle
perform gateway (load_call b) = load gateway b
perform gateway (save_call d) = save gateway d
perform gateway (toggle_call i b) = toggle gateway i b

-- After a success no error is shown. After a failure its message is shown and the routes are those
-- from before.
abbrev pub Outcome : Text → Result (Unit {0}) → List Route → RoutesState → Type 0
Outcome message (ok _) before after = after.error ≡ none
Outcome message (fail f) before after =
    (after.error ≡ shown_error (some (message_or message f))) × (after.routes ≡ before)

module _ {S : Type 0} (gateway : RouteGateway S) where
  settle-replace :
      (message : Text) (r : Result (List Route) × S) (p : RoutesState)
      → p.error ≡ none
      → ((settle gateway message replace_routes r p).1.1.pending ≡ false)
        × Outcome message
            (settle gateway message replace_routes r p).0
            p.routes
            (settle gateway message replace_routes r p).1.1
  unfolding settle replace_routes
  settle-replace message (ok a, s) p e = (refl, e)
  settle-replace message (fail f, s) p e = (refl, (refl, refl))

  settle-upsert :
      (message : Text) (r : Result Route × S) (p : RoutesState)
      → p.error ≡ none
      → ((settle gateway message upsert_route r p).1.1.pending ≡ false)
        × Outcome message
            (settle gateway message upsert_route r p).0
            p.routes
            (settle gateway message upsert_route r p).1.1
  unfolding settle upsert_route
  settle-upsert message (ok a, s) p e = (refl, e)
  settle-upsert message (fail f, s) p e = (refl, (refl, refl))

  -- Whatever the gateway answers, a finished `load`, `save` or `toggle` of `RoutesProcess` leaves
  -- the projection not pending; after a success it shows no error, and after a failure it shows
  -- the redacted message of that failure and the routes from before.
  pub perform-Outcome :
      (call : Call) (s : S) (p : RoutesState)
      → ((perform gateway call (s, p)).1.1.pending ≡ false)
        × Outcome
            (fallback call)
            (perform gateway call (s, p)).0
            p.routes
            (perform gateway call (s, p)).1.1
  unfolding perform load save toggle set_error set_pending shown_error
  perform-Outcome (load_call b) s p =
      settle-replace (fallback (load_call b)) (gateway.list (some b) s)
        (set_error none (set_pending true p)) refl
  perform-Outcome (save_call d) s p =
      settle-upsert (fallback (save_call d)) (gateway.save d s)
        (set_error none (set_pending true p)) refl
  perform-Outcome (toggle_call i b) s p =
      settle-upsert (fallback (toggle_call i b)) (gateway.toggle i b s)
        (set_error none (set_pending true p)) refl
