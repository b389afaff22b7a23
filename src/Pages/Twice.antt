-- ===== src/Pages/Twice.antt =====
-- apps/web/src/pages/routes/RouteModal/RouteModal.tsx: the button that saves in any case, in a form
-- that creates a route, over the store and the storage that the page works with.
use nginx_admin.Common.{
  ℕ, true, false, not, ◌||◌, Option, some, List, [], ◌∷◌, ◌++◌, Text, text, truthy, ◌≡◌, refl, sym,
  ap, ◌∙◌, ◌===◌, ===_iff, arith, subst, and-eq-true_iff,
}
use nginx_admin.Zod.{Issue, success, Zod}
use nginx_admin.Zod.Inversion.{parse-success}
use nginx_admin.Effects.{Result, ok, fail, Action, and_then, ◌>>◌}
use nginx_admin.Entities.{Route}
use nginx_admin.Entities.Primitives.{domain_schema, port_schema, unix_path_schema}
use nginx_admin.Entities.Schemas.{route_schema, route_fields, refine_route}
use nginx_admin.Entities.Parsed.{route_fields-Parsed}
use nginx_admin.Entities.Reparse.{route_schema-route_schema}
use nginx_admin.Routes.Repository.{RouteMap, RouteRepository}
use nginx_admin.Routes.Adapter.{map_get, map_set, map_get-map_set}
use nginx_admin.Routes.UseCases.{Creation, new_route, create_route}
use nginx_admin.Routes.Accepted.{Accepted, Accepted-relabel}
use nginx_admin.Routes.Outcomes.{checked, create_route-returns}
use nginx_admin.Routes.Slice.{RoutesState, load_routes, save_routes}
use nginx_admin.Routes.Operations.{Flags, create, settle, wrap}
use nginx_admin.Routes.Hooks.{write_routes, use_routes_repository}
use nginx_admin.CoreStorage.{ParsedRoute, Item, absent, save_all, local_storage_repository}
use nginx_admin.Pages.Modal.{creating}
use nginx_admin.Pages.Handlers.{
  Toast, success_toast, PageState, save_route, save_route_force, on_submit, save_parsed_page, saved,
  is_creating, submitted, close_page_modal,
}
use nginx_admin.Pages.Modals.{force_clicked}

-- A route that the schema has parsed passes the three tests.
parsed-checked : (zod : Zod) (r x : Route) → route_schema zod r ≡ success x → checked r ≡ true
unfolding route_schema
parsed-checked zod r x e =
    let (w, fields, refined) = parse-success zod Route (route_fields zod) refine_route r x e in
    let own = (route_fields-Parsed zod r w fields).own in
    let (domain, o1) = (and-eq-true_iff (domain_schema r.domain) _).0 own in
    let (port, o2) = (and-eq-true_iff (port_schema r.port) _).0 o1 in
    let (root, o3) = (and-eq-true_iff (unix_path_schema r.root) _).0 o2 in
    rw (domain, port, root) refl

accepted :
    (zod : Zod) (env : Creation) (r : Route)
    → route_schema zod r ≡ success r
    → Accepted zod (new_route env r)
unfolding new_route
accepted zod env r e = Accepted-relabel env.id r.enabled _ zod r (r, e)

apart_sym : (a b : Text) → (a === b) ≡ false → (b === a) ≡ false
apart_sym a b h = ground (arith, ===_iff a b, ===_iff b a)

abbrev ended : {T : Type 0} → PageState T → PageState T
ended p = record p { is_saving = false }

-- The storage and the store of the routes.
abbrev pub Stores : Type 0
Stores = Item × RoutesState

abbrev pub done_toast : Toast
done_toast = success_toast (text "Маршрут создан")

-- The page `q` after a route was created from `p`: what the storage holds is `item`.
record Created (item : Item) (p q : PageState Stores) : Type 0 where
  stored : q.stores.0.0 ≡ item
  form : q.form ≡ p.form
  mode : q.modal.mode ≡ p.modal.mode
  told : q.toasts ≡ p.toasts ++ done_toast ∷ []

saved-Created :
    (item : Item) (x : Result (Option (Unit {0})) × (Stores × Flags)) (a : Option (Unit {0}))
    (p : PageState Stores)
    → x.0 ≡ ok a
    → x.1.0.0 ≡ item
    → Created item p (ended (saved (text "Маршрут создан") x p))
unfolding close_page_modal
saved-Created item (ok b, st) a p e i = record { stored = i; form = refl; mode = refl; told = refl }
saved-Created item (fail f, st) a p e i = cc

-- What `useRouteOperations` works with, where the program sees the route `seen p` in a parsed
-- route.
module _ (seen : ParsedRoute → Route) where
  abbrev pub page_load : Action Stores (Unit {0})
  page_load = load_routes (local_storage_repository seen)

  abbrev pub page_repository : RouteMap → RouteRepository Stores
  page_repository rendered = use_routes_repository (local_storage_repository seen) rendered

-- What the storage holds after a creation: the routes of the last rendering and the new one.
abbrev pub item_with : RouteMap → Creation → Route → Item
item_with rendered env route = save_all (map_set (new_route env route) rendered) absent

module _ (zod : Zod) (zod_message : Issue → List Issue → Text) (seen : ParsedRoute → Route)
    (rendered : RouteMap) where
  -- A creation and the load behind it.
  created :
      (env : Creation) (route : Route) (t : Stores)
      → checked route ≡ true
      → Accepted zod (new_route env route)
      → let x =
          (create_route zod zod_message (page_repository seen rendered) env route >> page_load seen)
            t in
        (x.0 ≡ ok tt) × (x.1.0 ≡ item_with rendered env route)
  unfolding use_routes_repository write_routes load_routes save_routes save_all
  created env route t fine accepted =
      subst
        (λ (x : Result Text × Stores).
          ((and_then x.0 (λ _. page_load seen) x.1).0 ≡ ok tt)
          × ((and_then x.0 (λ _. page_load seen) x.1).1.0 ≡ item_with rendered env route))
        (sym (
          create_route-returns zod zod_message (page_repository seen rendered) env route t fine
            accepted refl))
        (refl, refl)

  settled :
      (x : Result (Unit {0}) × Stores) (item : Item)
      → x.0 ≡ ok tt
      → x.1.0 ≡ item
      → ((settle (text "Сохранено") x).0 ≡ ok (some tt))
        × ((settle (text "Сохранено") x).1.0.0 ≡ item)
  settled (ok tt, t) item e i = (refl, i)
  settled (fail f, t) item e i = cc

  save_route-Created :
      (env : Creation) (now : ℕ) (values route : Route) (p : PageState Stores)
      → p.modal.mode ≡ creating
      → route_schema zod values ≡ success route
      → Created (item_with rendered env route) p (
          save_route zod zod_message
            (page_repository seen rendered)
            (page_load seen)
            env
            now
            values
            p)
  unfolding save_route create wrap
  save_route-Created env now values route p m e =
      let again = route_schema-route_schema zod values route e in
      let (fine, stored) =
        created env route p.stores.0 (parsed-checked zod route route again)
          (accepted zod env route again) in
      let (answer, item) = settled _ (item_with rendered env route) fine stored in
      subst (Created (item_with rendered env route) p)
        (sym (
          ap
            (λ b. ended (
              save_parsed_page zod zod_message (page_repository seen rendered) (page_load seen) env
                now b values.id (route_schema zod values) p))
            (ap (λ mode. is_creating mode || not (truthy values.id)) m)
          ∙ ap
              (λ r. ended (
                save_parsed_page zod zod_message (page_repository seen rendered) (page_load seen)
                  env now true values.id r p))
              e))
        (saved-Created (item_with rendered env route)
          (create zod zod_message (page_repository seen rendered) (page_load seen) env route
            p.stores)
          (some tt) p answer item)

-- In a form that creates a route, with values that `RouteSchema` accepts, one click on the button
-- that saves in any case submits the form too, with the same repository, which holds the routes of
-- the last rendering. When the two new ids differ, then the page says twice that the route was
-- created, but the storage ends with the routes of the rendering and the second route only: under
-- the first id it has what was there before. It does not matter which route the
-- program sees in a parsed one.
pub force_clicked-loses_first :
    (zod : Zod) (zod_message : Issue → List Issue → Text) (seen : ParsedRoute → Route)
    (env env' : Creation) (now : ℕ) (p : PageState Stores) (route : Route)
    → p.modal.mode ≡ creating
    → route_schema zod p.form ≡ success route
    → (env.id === env'.id) ≡ false
    → let rendered = p.stores.0.1.routes in
      let q =
        force_clicked zod zod_message
          (page_repository seen rendered)
          (page_load seen)
          env
          env'
          now
          p in
      (q.toasts ≡ (p.toasts ++ done_toast ∷ []) ++ done_toast ∷ [])
      × (q.stores.0.0 ≡ save_all (map_set (new_route env' route) rendered) absent)
      × (map_get env.id (map_set (new_route env' route) rendered) ≡ map_get env.id rendered)
unfolding force_clicked save_route_force on_submit new_route
force_clicked-loses_first zod zod_message seen env env' now p route m e apart =
    let rendered = p.stores.0.1.routes in
    let repository = page_repository seen rendered in
    let s = save_route zod zod_message repository (page_load seen) env now p.form p in
    let first = save_route-Created zod zod_message seen rendered env now p.form route p m e in
    let again = route_schema-route_schema zod p.form route e in
    let second =
      save_route-Created zod zod_message seen rendered env' now route route s (first.mode ∙ m)
        again in
    let handed : on_submit zod zod_message repository (page_load seen) env' now s
        ≡ save_route zod zod_message repository (page_load seen) env' now route s =
      ap (λ r. submitted zod zod_message repository (page_load seen) env' now r s)
        (ap (route_schema zod) first.form ∙ e) in
    (
      ap (λ q. q.toasts) handed ∙ second.told ∙ ap (λ ts. ts ++ done_toast ∷ []) first.told,
      ap (λ q. q.stores.0.0) handed ∙ second.stored,
      map_get-map_set (new_route env' route) rendered env.id
          ∙ rw (apart_sym env.id env'.id apart) refl,
    )
