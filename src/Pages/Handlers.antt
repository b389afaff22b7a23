-- ===== src/Pages/Handlers.antt =====
-- apps/web/src/pages/routes/model/useRoutesPage.ts: the handlers for routes. A handler runs from
-- its call to its end; the delay before the work and the marks while it runs are not modelled
-- apart.
use nginx_admin.Common.{
  ℕ, Bool, true, false, not, ◌||◌, Option, List, [], ◌∷◌, ◌++◌, Text, text, truthy,
}
use nginx_admin.Zod.{Issue, ParseResult, success, failure, Zod}
use nginx_admin.Effects.{Result, ok, fail, Action}
use nginx_admin.Entities.{Route}
use nginx_admin.Entities.Schemas.{route_schema}
use nginx_admin.Routes.Repository.{RouteRepository}
use nginx_admin.Routes.UseCases.{
  Creation, Update, set_domain, set_root, set_port, set_enabled, set_ssl, set_ssl_certificate,
  set_ssl_certificate_key, set_proxy_pass, set_locations, set_advanced, set_metadata,
}
use nginx_admin.Routes.Operations.{Flags, create, update, toggle, remove, reset}
use nginx_admin.Pages.Modal.{
  ModalState, FormMode, creating, editing, open_for_create, open_for_edit, close_modal,
}
use nginx_admin.Pages.Factories.{create_route}

pub data Toast : Type 0 where
  success_toast error_toast : Text → Toast

-- The stores with the flags of the operations, the modal, the values of the form, the four marks
-- and the messages in their order.
pub record PageState (T : Type 0) : Type 0 where
  pub stores : T × Flags
  pub modal : ModalState
  pub form : Route
  pub is_saving : Bool
  pub is_removing : Bool
  pub is_saving_location : Bool
  pub is_removing_location : Bool
  pub toasts : List Toast

abbrev pub is_creating : FormMode → Bool
is_creating creating = true
is_creating editing = false

-- The properties of a route that an update takes.
abbrev pub updates_of : Route → List Update
updates_of r =
    set_domain r.domain
    ∷ set_port r.port
    ∷ set_root r.root
    ∷ set_enabled r.enabled
    ∷ set_ssl r.ssl
    ∷ set_ssl_certificate r.ssl_certificate
    ∷ set_ssl_certificate_key r.ssl_certificate_key
    ∷ set_proxy_pass r.proxy_pass
    ∷ set_locations r.locations
    ∷ set_advanced r.advanced
    ∷ set_metadata r.metadata
    ∷ []

module _ {T : Type 0} where
  abbrev pub toasted : Toast → PageState T → PageState T
  toasted t p = record p { toasts = p.toasts ++ t ∷ [] }

  unfoldable pub open_for_create_page : Text → ℕ → PageState T → PageState T
  unfolding open_for_create
  open_for_create_page uuid now p = record p {
    modal = open_for_create p.modal;
    form = create_route uuid now;
  }

  unfoldable pub open_for_edit_page : Route → PageState T → PageState T
  unfolding open_for_edit
  open_for_edit_page route p = record p { modal = open_for_edit p.modal; form = route }

  -- `closeModal` of the page.
  unfoldable pub close_page_modal : PageState T → PageState T
  unfolding close_modal
  close_page_modal p = record p { modal = close_modal p.modal; stores = (p.stores.0, reset) }

  abbrev save_failed : PageState T → PageState T
  save_failed p = toasted (error_toast (text "Ошибка при сохранении маршрута")) p

  -- What follows the `await` of the operation, in the `try` and in the `catch`.
  abbrev pub saved : Text → Result (Option (Unit {0})) × (T × Flags) → PageState T → PageState T
  saved message (ok answer, st) p =
      close_page_modal (toasted (success_toast message) (record p { stores = st }))
  saved message (fail e, st) p = save_failed (record p { stores = st })

  abbrev pub reported_by :
      Text → Text → Result (Option (Unit {0})) × (T × Flags) → PageState T → PageState T
  reported_by done_text failed_text (ok answer, st) p =
      toasted (success_toast done_text) (record p { stores = st })
  reported_by done_text failed_text (fail e, st) p =
      toasted (error_toast failed_text) (record p { stores = st })

module _ {T : Type 0} (zod : Zod) (zod_message : Issue → List Issue → Text)
    (repository : RouteRepository T) (load_routes : Action T (Unit {0})) where
  abbrev pub save_parsed_page :
      Creation → ℕ → Bool → Text → ParseResult Route → PageState T → PageState T
  save_parsed_page env now as_new id (failure i is) p = save_failed p
  save_parsed_page env now true id (success route) p =
      saved (text "Маршрут создан")
        (create zod zod_message repository load_routes env route p.stores) p
  save_parsed_page env now false id (success route) p =
      saved (text "Изменения сохранены")
        (update zod zod_message repository load_routes now id (updates_of route) p.stores) p

  -- `saveRouteForce`, and what `onSubmit` does with the values that the form has checked.
  unfoldable pub save_route : Creation → ℕ → Route → PageState T → PageState T
  unfolding route_schema create update close_page_modal
  save_route env now values p =
      let as_new = is_creating p.modal.mode || not (truthy values.id) in
      record (save_parsed_page env now as_new values.id (route_schema zod values) p) {
        is_saving = false;
      }

  unfoldable pub save_route_force : Creation → ℕ → PageState T → PageState T
  unfolding save_route
  save_route_force env now p = save_route env now p.form p

  abbrev pub submitted : Creation → ℕ → ParseResult Route → PageState T → PageState T
  submitted env now (success values) p = save_route env now values p
  submitted env now (failure i is) p = p

  -- The resolver of the form hands the parsed values on, or shows the issues in the form.
  unfoldable pub on_submit : Creation → ℕ → PageState T → PageState T
  unfolding save_route route_schema
  on_submit env now p = submitted env now (route_schema zod p.form) p

  unfoldable pub on_toggle : ℕ → Text → PageState T → PageState T
  unfolding toggle
  on_toggle now id p =
      reported_by (text "Статус маршрута изменён") (text "Ошибка при изменении статуса")
        (toggle zod zod_message repository load_routes now id p.stores) p

  unfoldable pub on_remove : Text → PageState T → PageState T
  unfolding remove
  on_remove id p =
      record (reported_by (text "Маршрут удалён") (text "Ошибка при удалении маршрута")
        (remove zod zod_message repository load_routes id p.stores) p) { is_removing = false }
