-- ===== src/Remote/Composition/Same.antt =====
-- The process of the desktop renderer and that of the web application over the mock executor.
use nginx_admin.Common.{◌≡◌, refl, ap₂, sym, subst, true, some, List, [], ◌∷◌, Text, All}
use nginx_admin.Secrets.{redact_potential_secrets}
use nginx_admin.Effects.{Result, ok, fail}
use nginx_admin.Remote.Types.{Route, RouteGateway}
use nginx_admin.Remote.Drafts.{Ambient, route_of_draft}
use nginx_admin.Remote.Fixed.{IsFixed}
use nginx_admin.Remote.Local.{Renderer}
use nginx_admin.Remote.Local.Refines.{Holds, Agree, list-Agree, save-Agree, toggle-Agree}
use nginx_admin.Remote.Gateway.{command_route_gateway}
use nginx_admin.Remote.Projection.{RoutesState, replace_routes, upsert_route}
use nginx_admin.Remote.Process.{settle, load, save, toggle}
use nginx_admin.Remote.Composition.{
  create_transitional_route_gateway, desktop_gateway, web_gateway, PageCall, load_page, save_page,
  toggle_page, call, calls, use_routes_process,
}

-- The texts of the call do not look like a secret.
abbrev pub IsPlain : Ambient × PageCall → Type 0
IsPlain (env, load_page) = Unit
IsPlain (env, save_page draft) = IsFixed (route_of_draft env draft)
IsPlain (env, toggle_page id enabled) = redact_potential_secrets env.now ≡ env.now

-- The same answers and the same projection, over a storage that holds what is kept in memory.
pub record Same {B : Type 0} (x : B × (Renderer × RoutesState)) (y : B × (List Route × RoutesState))
    : Type 0 where
  pub answers : x.0 ≡ y.0
  pub projection : x.1.1 ≡ y.1.1
  pub storage : Holds x.1.0 y.1.0

module _ (g : RouteGateway Renderer) (h : RouteGateway (List Route)) {A : Type 0} (message : Text)
    (project : A → RoutesState → RoutesState) (p : RoutesState) where
  settle-with :
      (r : Result A) (s : Renderer) (rs : List Route)
      → Holds s rs
      → Same (settle g message project (r, s) p) (settle h message project (r, rs) p)
  unfolding settle
  settle-with (ok a) s rs k = record { answers = refl; projection = refl; storage = k }
  settle-with (fail f) s rs k = record { answers = refl; projection = refl; storage = k }

  settle-Same :
      (x : Result A × Renderer) (y : Result A × List Route)
      → Agree x y
      → Same (settle g message project x p) (settle h message project y p)
  settle-Same (r, s) (q, rs) (e, k) =
      subst (λ v. Same (settle g message project (v, s) p) (settle h message project (q, rs) p))
        (sym e) (settle-with q s rs k)

call-Same :
    (env : Ambient) (c : PageCall) (s : Renderer) (rs : List Route) (p : RoutesState)
    → IsPlain (env, c)
    → Holds s rs
    → Same (call desktop_gateway env c (s, p)) (call web_gateway env c (rs, p))
unfolding call load save toggle create_transitional_route_gateway command_route_gateway
call-Same env load_page s rs p e k =
    settle-Same (desktop_gateway env) (web_gateway env) _ replace_routes _ _ _
      (list-Agree env s (some true) rs k)
call-Same env (save_page draft) s rs p e k =
    settle-Same (desktop_gateway env) (web_gateway env) _ upsert_route _ _ _
      (save-Agree env s draft rs e k)
call-Same env (toggle_page id enabled) s rs p e k =
    settle-Same (desktop_gateway env) (web_gateway env) _ upsert_route _ _ _
      (toggle-Agree env s id enabled rs e k)

calls-Same :
    (cs : List (Ambient × PageCall)) (s : Renderer) (rs : List Route) (p : RoutesState)
    → All IsPlain cs
    → Holds s rs
    → Same (calls desktop_gateway cs (s, p)) (calls web_gateway cs (rs, p))
unfolding calls
calls-Same [] s rs p e k = record { answers = refl; projection = refl; storage = k }
calls-Same ((env, c) ∷ cs) s rs p (e, es) k =
    let one = call-Same env c s rs p e k in
    let (s1, p1) = (call desktop_gateway env c (s, p)).1 in
    let rs1 = (call web_gateway env c (rs, p)).1.0 in
    let rest = calls-Same cs s1 rs1 p1 es one.storage in
    let moved =
      subst (λ q. Same (calls desktop_gateway cs (s1, p1)) (calls web_gateway cs (rs1, q)))
        one.projection rest in
    record {
      answers = ap₂ (λ a rest. a ∷ rest) one.answers moved.answers;
      projection = moved.projection;
      storage = moved.storage;
    }

-- Over a storage that holds the routes of the mock executor, the process of the desktop renderer
-- and that of the web application give the same answers to the same calls of a page, errors
-- included, and show the same, from the load at the start of the page on; the storage then holds
-- what the mock executor keeps. There is a window, and no text looks like a secret: none in the
-- routes that are held at first, none that a draft brings, and none that stands for the time of a
-- toggle.
pub use_routes_process-Same :
    (env : Ambient) (cs : List (Ambient × PageCall)) (s : Renderer) (rs : List Route)
    (p : RoutesState)
    → All IsPlain cs
    → Holds s rs
    → Same
        (use_routes_process desktop_gateway env cs (s, p))
        (use_routes_process web_gateway env cs (rs, p))
unfolding use_routes_process
use_routes_process-Same env cs s rs p e k = calls-Same ((env, load_page) ∷ cs) s rs p (tt, e) k
