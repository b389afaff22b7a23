-- ===== src/Pages/Modals.antt =====
-- The parts of the page of the routes with a state or a handler of their own:
-- apps/web/src/pages/routes/RouteModal/RouteModal.tsx, LocationModal.tsx, LocationsTab.tsx and
-- AdvancedTab.tsx. What is not drawn cannot be clicked; a click on a button without a type, in a
-- form, submits the form too. Its own handler is taken to be through when the submit begins.
use nginx_admin.Common.{
  ℕ, Bool, true, false, Option, none, some, List, [], ◌∷◌, Text, text, if◌then◌else◌,
}
use nginx_admin.Zod.{Issue, ParseResult, success, failure, Zod}
use nginx_admin.Effects.{Action}
use nginx_admin.Entities.{LocationConfig, AdvancedConfig}
use nginx_admin.Entities.Schemas.{location_schema}
use nginx_admin.Routes.Repository.{RouteRepository}
use nginx_admin.Routes.UseCases.{Creation}
use nginx_admin.Pages.Modal.{
  FormMode, creating, editing, ActiveTab, basic, locations, advanced, preview, set_active_tab,
}
use nginx_admin.Pages.Handlers.{PageState, save_route_force, on_submit, close_page_modal}
use nginx_admin.Pages.Locations.{
  start_edit_location_page, on_edit_location, on_save_location, on_save_location_force,
}

abbrev pub modal_title : FormMode → Text
modal_title editing = text "Редактирование маршрута"
modal_title creating = text "Добавление маршрута"

abbrev pub tabs : List ActiveTab
tabs = basic ∷ locations ∷ advanced ∷ preview ∷ []

abbrev pub tab_title : ActiveTab → Text
tab_title basic = text "Основные настройки"
tab_title locations = text "Location блоки"
tab_title advanced = text "Дополнительные настройки"
tab_title preview = text "Предпросмотр конфига"

-- The label of the button that submits the form.
abbrev pub submit_label : Bool → FormMode → Text
submit_label true mode = text "Сохранение..."
submit_label false editing = text "Сохранить"
submit_label false creating = text "Добавить"

-- What is clicked in `RouteModal`; with a submit go the environments of the handlers that run.
pub data ModalClick : Type 0 where
  tab : ActiveTab → ModalClick
  force_button : Creation → Creation → ModalClick
  submit_button : Creation → ModalClick
  cancel_button overlay content : ModalClick

module _ {T : Type 0} (zod : Zod) (zod_message : Issue → List Issue → Text)
    (repository : RouteRepository T) (load_routes : Action T (Unit {0})) where
  -- The button has no type: after `onSaveRouteForce` the form is submitted too.
  unfoldable pub force_clicked : Creation → Creation → ℕ → PageState T → PageState T
  unfolding save_route_force on_submit
  force_clicked env env' now p =
      on_submit zod zod_message repository load_routes env' now
        (save_route_force zod zod_message repository load_routes env now p)

  unfoldable pub modal_clicked : ℕ → ModalClick → PageState T → PageState T
  unfolding set_active_tab force_clicked on_submit close_page_modal
  modal_clicked now (tab t) p = record p { modal = set_active_tab t p.modal }
  modal_clicked now (force_button env env') p = force_clicked env env' now p
  modal_clicked now (submit_button env) p =
      let submitted = on_submit zod zod_message repository load_routes env now p in
      if p.is_saving then p else submitted
  modal_clicked now cancel_button p = close_page_modal p
  modal_clicked now overlay p = close_page_modal p
  modal_clicked now content p = p

  -- `AnimatePresence`: a closed modal is not drawn.
  unfoldable pub click_modal : ℕ → ModalClick → PageState T → PageState T
  unfolding modal_clicked
  click_modal now c p =
      let clicked = modal_clicked now c p in if p.modal.modal_open then clicked else p

-- `onEdit(index, LocationConfigSchema.parse(loc))`: an exception in a handler changes nothing.
module _ {T : Type 0} (zod : Zod) where
  abbrev pub edit_parsed : ℕ → ParseResult LocationConfig → PageState T → PageState T
  edit_parsed index (success value) p = on_edit_location index value p
  edit_parsed index (failure i is) p = p

  unfoldable pub edit_clicked : ℕ → LocationConfig → PageState T → PageState T
  unfolding on_edit_location location_schema
  edit_clicked index loc p =
      let edited = edit_parsed index (location_schema zod loc) p in
      if p.is_removing_location then p else edited

-- A field of `LocationModal` with the text that is typed.
pub data LocationInput : Type 0 where
  path proxy_pass try_files index extra_directives : Text → LocationInput

abbrev pub typed : LocationInput → LocationConfig → LocationConfig
typed (path s) l = record l { path = s }
typed (proxy_pass s) l = record l { proxy_pass = some s }
typed (try_files s) l = record l { try_files = some s }
typed (index s) l = record l { index = some s }
typed (extra_directives s) l = record l { extra_directives = some s }

pub data LocationClick : Type 0 where
  type_in : LocationInput → LocationClick
  save_button save_force_button cancel : LocationClick

module _ {T : Type 0} (zod : Zod) where
  abbrev pub location_clicked : LocationConfig → LocationClick → PageState T → PageState T
  location_clicked value (type_in i) p =
      start_edit_location_page p.modal.location_editing.index (some (typed i value)) p
  location_clicked value save_button p =
      let saved = on_save_location zod value p in if p.is_saving_location then p else saved
  location_clicked value save_force_button p =
      let saved = on_save_location_force zod value p in if p.is_saving_location then p else saved
  location_clicked value cancel p =
      let ended = start_edit_location_page none none p in if p.is_saving_location then p else ended

  abbrev pub click_edited : Option LocationConfig → LocationClick → PageState T → PageState T
  click_edited none c p = p
  click_edited (some value) c p = location_clicked value c p

  -- Without a location that is edited the modal is not drawn.
  unfoldable pub click_location : LocationClick → PageState T → PageState T
  unfolding start_edit_location_page on_save_location on_save_location_force
  click_location c p = click_edited p.modal.location_editing.value c p

-- The check boxes of `AdvancedTab`: a setting goes with its flag.
unfoldable pub check_gzip : Bool → AdvancedConfig → AdvancedConfig
check_gzip checked a = record a {
  gzip = checked;
  gzip_types = if checked then a.gzip_types else none;
}

unfoldable pub check_caching : Bool → AdvancedConfig → AdvancedConfig
check_caching checked a = record a {
  caching = checked;
  cache_valid = if checked then a.cache_valid else none;
}
