-- ===== src/Pages/Reports.antt =====
-- apps/web/src/pages/routes/model/useRoutesPage.ts: what the page says about an operation.
use nginx_admin.Common.{
  ℕ, true, false, not, ◌||◌, none, some, List, [], ◌∷◌, ◌++◌, Text, text, truthy, ◌≡◌, ap, ◌∙◌,
}
use nginx_admin.Zod.{Issue, success, Zod}
use nginx_admin.Effects.{Failure, error, remote_error, thrown, ok, fail, Action, ◌>>◌}
use nginx_admin.Entities.{Route}
use nginx_admin.Entities.Schemas.{route_schema}
use nginx_admin.Routes.Repository.{RouteRepository}
use nginx_admin.Routes.UseCases.{Creation, create_route}
use nginx_admin.Routes.Slice.{message_of}
use nginx_admin.Routes.Operations.{Flags, create, reset, settle, failed}
use nginx_admin.Pages.Modal.{close_modal, creating}
use nginx_admin.Pages.Handlers.{
  PageState, success_toast, save_parsed_page, saved, save_route_force, is_creating,
}

settle-failed :
    {T : Type 0} (done_text message : Text) (e : Failure) (t : T)
    → message_of e ≡ some message
    → settle {A = Unit {0}} done_text (fail e, t) ≡ (ok none, (t, failed message))
settle-failed done_text message (error m) t said = cc
settle-failed done_text message (remote_error m code) t said = cc
settle-failed done_text message thrown t said = cc

create-failed :
    {T : Type 0} (zod : Zod) (zod_message : Issue → List Issue → Text)
    (repository : RouteRepository T) (load_routes : Action T (Unit {0})) (env : Creation)
    (st : T × Flags) (route : Route) (e : Failure) (message : Text) (t : T)
    → (create_route zod zod_message repository env route >> load_routes) st.0 ≡ (fail e, t)
    → message_of e ≡ some message
    → create zod zod_message repository load_routes env route st ≡ (ok none, (t, failed message))
unfolding create
create-failed zod zod_message repository load_routes env st route e message t refused said =
    ap (settle (text "Сохранено")) refused ∙ settle-failed (text "Сохранено") message e t said

abbrev ended : {T : Type 0} → PageState T → PageState T
ended p = record p { is_saving = false }

-- A creation that fails is reported as a success: where the values of the form are valid and the
-- use case or the reload of the routes throws an error, the page says that the route was created,
-- closes the modal, and clears the message of the error.
save_hides_failure :
    {T : Type 0} (zod : Zod) (zod_message : Issue → List Issue → Text)
    (repository : RouteRepository T) (load_routes : Action T (Unit {0})) (env : Creation) (now : ℕ)
    (p : PageState T) (route : Route) (e : Failure) (message : Text) (t : T)
    → p.modal.mode ≡ creating
    → route_schema zod p.form ≡ success route
    → (create_route zod zod_message repository env route >> load_routes) p.stores.0 ≡ (fail e, t)
    → message_of e ≡ some message
    → save_route_force zod zod_message repository load_routes env now p ≡ record p {
      stores = (t, reset);
      modal = close_modal p.modal;
      is_saving = false;
      toasts = p.toasts ++ success_toast (text "Маршрут создан") ∷ [];
    }
unfolding save_route_force
save_hides_failure zod zod_message repository load_routes env now p route e message t m valid
      refused said =
    ap
      (λ as_new. ended (
        save_parsed_page zod zod_message repository load_routes env now as_new p.form.id
          (route_schema zod p.form) p))
      (ap (λ mode. is_creating mode || not (truthy p.form.id)) m)
    ∙ ap
        (λ parsed.
          ended (
            save_parsed_page zod zod_message repository load_routes env now true p.form.id parsed
              p))
        valid
    ∙ ap (λ q. ended (saved (text "Маршрут создан") q p))
        (create-failed zod zod_message repository load_routes env p.stores route e message t refused
          said)
