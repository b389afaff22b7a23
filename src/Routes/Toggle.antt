-- ===== src/Routes/Toggle.antt =====
-- `toggleRouteStatus` over a repository of routes that `RouteSchema` accepts.
use nginx_admin.Common.{
  ℕ, ◌≡◌, refl, ap, ap₂, ◌∙◌, sym, subst, Bool, true, false, not, Option, none, some, List, [], ◌∷◌,
  Text, text, ◌===◌, ===_iff,
}
use nginx_admin.Zod.{Issue, Zod}
use nginx_admin.Effects.{error, Action, and_then, ◌>>=◌, fail}
use nginx_admin.Entities.{Metadata, Route}
use nginx_admin.Routes.Repository.{RouteRepository, IsLawful}
use nginx_admin.Routes.UseCases.{
  when_found, set_enabled, touched, update_route, toggle_route_status,
}
use nginx_admin.Routes.Accepted.{Accepted, relabel, Accepted-relabel}
use nginx_admin.Routes.Outcomes.{Saves, save_parsed-Saves}

-- The route with the flag turned and the time of its change.
abbrev pub turned : ℕ → Route → Route
turned now r = relabel r.id (not r.enabled) (touched now r.metadata) r

touched-touched :
    (now later : ℕ) (m : Option Metadata) → touched later (touched now m) ≡ touched later m
touched-touched now later none = refl
touched-touched now later (some m) = refl

not-not : (b : Bool) → not (not b) ≡ b
not-not true = refl
not-not false = refl

turned-turned :
    (now later : ℕ) (r : Route)
    → turned later (turned now r) ≡ record r { metadata = touched later r.metadata }
turned-turned now later r =
    ap₂ (λ b m. relabel r.id b m r) (not-not r.enabled) (touched-touched now later r.metadata)

module _ {S : Type 0} (zod : Zod) (zod_message : Issue → List Issue → Text)
    (repository : RouteRepository S) (view : Text → S → Option Route)
    (lawful : IsLawful repository view) where
  -- The continuation of `findById` runs on the route that is found.
  found_then :
      (id : Text) (r : Route) (s : S) (k : Route → Action S (Unit {0}))
      → view id s ≡ some r
      → (repository.find_by_id id >>= λ o. when_found zod zod_message repository o k) s ≡ k r s
  found_then id r s k found =
      ap (λ y. and_then y.0 (λ o. when_found zod zod_message repository o k) y.1)
        (lawful.find_by_id_lem id s)
      ∙ ap (λ o. when_found zod zod_message repository o k s) found

  pub toggle-eq-update :
      (now : ℕ) (id : Text) (r : Route) (s : S)
      → view id s ≡ some r
      → toggle_route_status zod zod_message repository now id s
        ≡ update_route zod zod_message repository now id (set_enabled (not r.enabled) ∷ []) s
  unfolding toggle_route_status
  toggle-eq-update now id r s found =
      found_then id r s
        (λ q. update_route zod zod_message repository now id (set_enabled (not q.enabled) ∷ []))
        found

  update-Saves :
      (now : ℕ) (id : Text) (r : Route) (s : S)
      → view id s ≡ some r
      → Accepted zod r
      → Saves zod zod_message repository view lawful tt
          (turned now r)
          s
          (update_route zod zod_message repository now id (set_enabled (not r.enabled) ∷ []) s)
  unfolding update_route
  update-Saves now id r s found accepted =
      rw (lawful.find_by_id_lem id s, found)
        (save_parsed-Saves zod zod_message repository view lawful (turned now r) s
          (Accepted-relabel r.id (not r.enabled) (touched now r.metadata) zod r accepted))

  -- A route that the schema accepts can be toggled: nothing is thrown, the route is stored with
  -- the other state and the time of the change, and no other id is touched.
  pub toggle_route_status-Saves :
      (now : ℕ) (id : Text) (r : Route) (s : S)
      → view id s ≡ some r
      → Accepted zod r
      → Saves zod zod_message repository view lawful tt
          (turned now r)
          s
          (toggle_route_status zod zod_message repository now id s)
  toggle_route_status-Saves now id r s found accepted =
      subst (Saves zod zod_message repository view lawful tt (turned now r) s)
        (sym (toggle-eq-update now id r s found)) (update-Saves now id r s found accepted)

  -- Without a route of this id nothing is stored.
  pub toggle_route_status-missing :
      (now : ℕ) (id : Text) (s : S)
      → view id s ≡ none
      → toggle_route_status zod zod_message repository now id s
        ≡ (fail (error (text "Route not found")), s)
  unfolding toggle_route_status
  toggle_route_status-missing now id s missing = rw (lawful.find_by_id_lem id s, missing)

  stored_turned :
      (now : ℕ) (id : Text) (r : Route) (s : S)
      → r.id ≡ id
      → view id s ≡ some r
      → Accepted zod r
      → view id (toggle_route_status zod zod_message repository now id s).1 ≡ some (turned now r)
  stored_turned now id r s e found accepted =
      let same : (r.id === id) ≡ true = (===_iff r.id id).1 e in
      (toggle_route_status-Saves now id r s found accepted).1 id ∙ rw same

  -- Toggling twice leaves the route as it was, but for the time of its last change.
  pub toggle-toggle :
      (now later : ℕ) (id : Text) (r : Route) (s : S)
      → r.id ≡ id
      → view id s ≡ some r
      → Accepted zod r
      → view id
          (toggle_route_status zod zod_message repository later id
            (toggle_route_status zod zod_message repository now id s).1).1
        ≡ some (record r { metadata = touched later r.metadata })
  toggle-toggle now later id r s e found accepted =
      let s' = (toggle_route_status zod zod_message repository now id s).1 in
      stored_turned later id (turned now r) s' e (stored_turned now id r s e found accepted)
        (Accepted-relabel r.id (not r.enabled) (touched now r.metadata) zod r accepted)
      ∙ ap some (turned-turned now later r)
