-- ===== src/Remote/Process/Mirror.antt =====
-- The projection against the routes that the executor keeps.
use nginx_admin.Common.{
  ◌≡◌, ap, ◌∙◌, sym, Bool, true, none, some, List, [], ◌∷◌, Text, All, All-append, if◌then◌else◌,
  ◌===◌, Option-cases, inl, inr,
}
use nginx_admin.Common.Keyed.{
  find_key, remove_key, replace_key, upsert_key, find_key-set, find_key-upsert_key,
  find_key-replace_key, has_key-is_some,
}
use nginx_admin.Secrets.{redact_potential_secrets}
use nginx_admin.Remote.Types.{Route, RouteDraft, RouteGateway, id_of}
use nginx_admin.Remote.Drafts.{Ambient, route_of_draft, toggled}
use nginx_admin.Remote.Mock
use nginx_admin.Remote.Mock.{mock_executor}
use nginx_admin.Remote.Gateway.{command_route_gateway}
use nginx_admin.Remote.Fixed.{
  IsFixed, sanitize_routes-All, remove_key-All, replace_key-All, find_key-Fixed, find_key-id,
  toggled-Fixed,
}
use nginx_admin.Remote.Projection.{
  RoutesState, set_pending, set_error, replace_routes, upsert_route,
}
use nginx_admin.Remote.Process.{load, save, toggle}

-- By id the projection shows what the executor holds; the orders may differ.
abbrev pub Mirrors : RoutesState → List Route → Type 0
Mirrors p rs = (k : Text) → find_key id_of k p.routes ≡ find_key id_of k rs

-- The projection mirrors the executor, and no text in it looks like a secret.
abbrev pub InStep : List Route × RoutesState → Type 0
InStep w = All IsFixed w.0 × Mirrors w.1 w.0

abbrev pub gateway_at : Ambient → RouteGateway (List Route)
gateway_at env = command_route_gateway (mock_executor env)

-- A form of `upsertRoute` that names the library's function.
upsert-routes :
    (r : Route) (p : RoutesState)
    → IsFixed r
    → (upsert_route r p).routes ≡ upsert_key id_of r.id r p.routes
unfolding upsert_route upsert_key
upsert-routes r p e = rw e

upsert-Mirrors :
    (r : Route) (rs rs' : List Route) (p : RoutesState)
    → IsFixed r
    → Mirrors p rs
    → ((k : Text) → find_key id_of k rs' ≡ (if r.id === k then some r else find_key id_of k rs))
    → (k : Text) → find_key id_of k (upsert_route r p).routes ≡ find_key id_of k rs'
upsert-Mirrors r rs rs' p e m h k =
    ap (find_key id_of k) (upsert-routes r p e)
    ∙ find_key-upsert_key id_of k r p.routes
    ∙ ap (λ o. if r.id === k then some r else o) (m k)
    ∙ sym (h k)

module _ (env : Ambient) where
  pub load-InStep :
      (rs : List Route) (p : RoutesState)
      → All IsFixed rs
      → InStep (load (gateway_at env) true (rs, p)).1
  unfolding load command_route_gateway Mock.list replace_routes
  load-InStep rs p h = (h, λ k. ap (find_key id_of k) (sanitize_routes-All rs h))

  pub save-InStep :
      (draft : RouteDraft) (w : List Route × RoutesState)
      → IsFixed (route_of_draft env draft)
      → InStep w
      → InStep (save (gateway_at env) draft w).1
  unfolding save command_route_gateway Mock.save set_error set_pending
  save-InStep draft (rs, p) e (h, m) = (
    All-append IsFixed (remove_key id_of _ rs) (route_of_draft env draft ∷ [])
        (remove_key-All _ rs h) (e, tt),
    upsert-Mirrors (route_of_draft env draft) rs _ (record p { pending = true; error = none }) e m
        (λ k. find_key-set id_of k (route_of_draft env draft) rs),
  )

  toggle-found :
      (id : Text) (enabled : Bool) (rs : List Route) (current : Route)
      → find_key id_of id rs ≡ some current
      → (k : Text)
      → find_key id_of k (replace_key id_of id (toggled env enabled current) rs)
        ≡ (if id === k then some (toggled env enabled current) else find_key id_of k rs)
  unfolding toggled
  toggle-found id enabled rs current found k =
      find_key-replace_key id_of k id (toggled env enabled current) rs
        (find_key-id id rs current found)
      ∙ rw (has_key-is_some id_of id rs, found)

  toggled-same :
      (id : Text) (enabled : Bool) (rs : List Route) (current : Route)
      → find_key id_of id rs ≡ some current
      → (toggled env enabled current).id ≡ id
  unfolding toggled
  toggled-same id enabled rs current found = find_key-id id rs current found

  toggle-found_self :
      (id : Text) (enabled : Bool) (rs : List Route) (current : Route)
      → find_key id_of id rs ≡ some current
      → (k : Text)
      → find_key id_of k (replace_key id_of id (toggled env enabled current) rs) ≡ (
          if (toggled env enabled current).id === k
          then some (toggled env enabled current)
          else find_key id_of k rs)
  toggle-found_self id enabled rs current found k =
      toggle-found id enabled rs current found k
      ∙ ap (λ j. if j === k then some (toggled env enabled current) else find_key id_of k rs)
          (sym (toggled-same id enabled rs current found))

  pub toggle-InStep :
      (id : Text) (enabled : Bool) (w : List Route × RoutesState)
      → redact_potential_secrets env.now ≡ env.now
      → InStep w
      → InStep (toggle (gateway_at env) id enabled w).1
  unfolding toggle command_route_gateway Mock.toggle set_error set_pending
  toggle-InStep id enabled (rs, p) now (h, m) = elim (Option-cases (find_key id_of id rs)) [
    | inl missing ↦ rw (missing, Mock.toggle) (h, m)
    | inr (current, found) ↦
        let e = toggled-Fixed env enabled current now (find_key-Fixed id rs current found h) in
        rw (found, Mock.toggle)
          (
            replace_key-All id (toggled env enabled current) rs e h,
            upsert-Mirrors (toggled env enabled current) rs _
                (record p { pending = true; error = none }) e m
                (toggle-found_self id enabled rs current found),
          )
  ]
