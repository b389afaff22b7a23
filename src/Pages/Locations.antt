-- ===== src/Pages/Locations.antt =====
-- apps/web/src/pages/routes/model/useRoutesPage.ts: the handlers for the locations of the form.
use nginx_admin.Common.{
  ℕ, Bool, true, false, Option, none, some, List, [], ◌∷◌, ◌++◌, Text, text, if◌then◌else◌, truthy,
  or_else, length, remove_at, ◌≡◌, refl, ap, ◌∙◌,
}
use nginx_admin.Zod.{Zod}
use nginx_admin.Entities.{LocationConfig}
use nginx_admin.Forms.Drafts.{PartialLocation}
use nginx_admin.Forms.Validation.{
  Errors, validate_location, create_location, add_location_to_route, update_location_in_route,
  remove_location,
}
use nginx_admin.Pages.Modal.{start_edit_location}
use nginx_admin.Pages.Handlers.{PageState, success_toast, error_toast, toasted}

abbrev only_path : Text → PartialLocation
only_path path = record {
  path = some path;
  proxy_pass = none;
  try_files = none;
  index = none;
  extra_directives = none;
}

-- `a || b` on strings.
abbrev text_or : Text → Text → Text
text_or a b = if truthy a then a else b

-- The location that a new entry starts from.
unfoldable pub new_location : LocationConfig
unfolding create_location
new_location =
    let loc = create_location (only_path (text "/")) in
    record {
      path = text_or loc.path (text "/");
      proxy_pass = none;
      try_files = some (or_else loc.try_files (text ""));
      index = some (or_else loc.index (text ""));
      extra_directives = some (or_else loc.extra_directives (text ""));
    }

abbrev is_empty : Errors → Bool
is_empty [] = true
is_empty (e ∷ es) = false

-- The list with the location at its end, or in the place that is edited.
abbrev pub placed : Option ℕ → LocationConfig → List LocationConfig → List LocationConfig
placed none value current = add_location_to_route current value
placed (some i) value current = update_location_in_route current i value

module _ {T : Type 0} where
  -- `startEditLocation`, which `onEditLocation` is too for an index and a location.
  unfoldable pub start_edit_location_page :
      Option ℕ → Option LocationConfig → PageState T → PageState T
  unfolding start_edit_location
  start_edit_location_page index value p = record p {
    modal = start_edit_location index value p.modal;
  }

  unfoldable pub on_add_location : PageState T → PageState T
  unfolding start_edit_location_page new_location
  on_add_location p = start_edit_location_page none (some new_location) p

  unfoldable pub on_edit_location : ℕ → LocationConfig → PageState T → PageState T
  unfolding start_edit_location_page
  on_edit_location index value p = start_edit_location_page (some index) (some value) p

  abbrev pub with_locations : List LocationConfig → PageState T → PageState T
  with_locations next p = record p { form = record (p.form) { locations = next } }

  unfoldable pub on_delete_location : ℕ → PageState T → PageState T
  unfolding remove_location
  on_delete_location index p =
      record (toasted (success_toast (text "Локация удалена"))
        (with_locations (remove_location p.form.locations index) p)) {
          is_removing_location = false;
        }

  abbrev pub saved_location : Text → Errors → LocationConfig → PageState T → PageState T
  saved_location invalid (e ∷ es) value p = toasted (error_toast invalid) p
  saved_location invalid [] value p = toasted (success_toast (text "Локация сохранена")) (
      start_edit_location_page none none
        (with_locations (placed p.modal.location_editing.index value p.form.locations) p))

  -- Both handlers check the location and save it; they name a bad one in their own words.
  unfoldable pub on_save_location : Zod → LocationConfig → PageState T → PageState T
  unfolding validate_location start_edit_location_page add_location_to_route
      update_location_in_route
  on_save_location zod value p =
      record (saved_location (text "Некорректная конфигурация локации")
        (validate_location zod value) value p) { is_saving_location = false }

  unfoldable pub on_save_location_force : Zod → LocationConfig → PageState T → PageState T
  unfolding validate_location start_edit_location_page add_location_to_route
      update_location_in_route
  on_save_location_force zod value p =
      record (saved_location (text "Invalid location configuration") (validate_location zod value)
        value p) { is_saving_location = false }

remove_at-append :
    (ls : List LocationConfig) (l : LocationConfig) → remove_at (ls ++ l ∷ []) (length ls) ≡ ls
remove_at-append [] l = refl
remove_at-append (x ∷ ls) l = ap (λ r. x ∷ r) (remove_at-append ls l)

-- A location that passes the checks is saved as a new one at the end of the list: deleting at that
-- place gives the form back as it was.
delete-save_location :
    {T : Type 0} (zod : Zod) (value : LocationConfig) (p : PageState T)
    → validate_location zod value ≡ []
    → p.modal.location_editing.index ≡ none
    → (on_delete_location (length p.form.locations) (on_save_location zod value p)).form ≡ p.form
unfolding on_delete_location on_save_location
delete-save_location zod value p valid fresh =
    ap
      (λ errors.
        (on_delete_location (length p.form.locations)
          (saved_location (text "Некорректная конфигурация локации") errors value p)).form)
      valid
    ∙ ap
        (λ i. record (p.form) {
          locations = remove_at (placed i value p.form.locations) (length p.form.locations);
        })
        fresh
    ∙ ap (λ ls. record (p.form) { locations = ls }) (remove_at-append p.form.locations value)
