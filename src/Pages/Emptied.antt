-- ===== src/Pages/Emptied.antt =====
-- apps/web/src/pages/routes/RouteModal/LocationModal.tsx: a proxy target that is emptied again.
use nginx_admin.Common.{
  Bool, true, false, ◌&&◌, none, some, List, [], ◌∷◌, Text, ◌≡◌, refl, sym, ap, ◌∙◌, subst, all,
  if◌then◌else◌, arith,
}
use nginx_admin.Zod.{Issue, ParseResult, success, failure, Fails, Zod}
use nginx_admin.Secrets.{redact_potential_secrets}
use nginx_admin.Entities.{LocationConfig}
use nginx_admin.Entities.Primitives.{proxy_target_schema, url_path_schema}
use nginx_admin.Entities.Schemas.{location_schema, location_fields, refine_location}
use nginx_admin.Forms.Drafts.{sanitize_location, redact_option}
use nginx_admin.Common.Keyed.{upsert_key, replace_key}
use nginx_admin.Forms.Validation.{
  Errors, set_error, issue_key, add_issues, add_failure, validate_location,
}
use nginx_admin.Pages.Modal.{start_edit_location}
use nginx_admin.Pages.Handlers.{PageState}
use nginx_admin.Pages.Locations.{
  start_edit_location_page, on_save_location, on_save_location_force, saved_location,
}
use nginx_admin.Pages.Modals.{
  LocationInput, path, proxy_pass, try_files, index, extra_directives, typed, LocationClick,
  type_in, save_button, save_force_button, click_edited, click_location,
}

empty-refused : proxy_target_schema (some []) ≡ false
unfolding proxy_target_schema
empty-refused = refl

and-false : (b : Bool) → (b && false) ≡ false
and-false true = refl
and-false false = refl

location_fields-emptied : (l : LocationConfig) → l.proxy_pass ≡ some [] → location_fields l ≡ none
unfolding location_fields
location_fields-emptied l e =
    ap (λ b. if b then some l else none)
      (ap (λ t. url_path_schema l.path && proxy_target_schema t) e
        ∙ ap (λ b. url_path_schema l.path && b) empty-refused
        ∙ and-false (url_path_schema l.path))

abbrev full : Errors → Bool
full [] = false
full (e ∷ es) = true

set_error-full : (key message : Text) (errors : Errors) → full (set_error key message errors) ≡ true
unfolding set_error upsert_key replace_key
set_error-full key message [] = ground arith
set_error-full key message (e ∷ es) = ground arith

add_issues-full :
    (is : List Issue) (errors : Errors) → full errors ≡ true → full (add_issues is errors) ≡ true
unfolding add_issues
add_issues-full [] errors h = h
add_issues-full (i ∷ is) errors h = add_issues-full is _ (set_error-full _ i.message errors)

add_failure-full :
    (r : ParseResult LocationConfig) (errors : Errors)
    → Fails r
    → full (add_failure r errors) ≡ true
unfolding add_issues
add_failure-full (success x) errors (i, is, e) = cc
add_failure-full (failure i is) errors h =
    add_issues-full is _ (set_error-full (issue_key i) i.message errors)

emptied-Fails :
    (zod : Zod) (l : LocationConfig) → l.proxy_pass ≡ some [] → Fails (location_schema zod l)
unfolding location_schema
emptied-Fails zod l e =
    zod.parse_refused LocationConfig location_fields refine_location l (location_fields-emptied l e)

validate_location-full :
    (zod : Zod) (l : LocationConfig)
    → l.proxy_pass ≡ some []
    → full (validate_location zod l) ≡ true
unfolding validate_location add_issues
validate_location-full zod l e = add_failure-full (location_schema zod l) _ (emptied-Fails zod l e)

abbrev pub spares_proxy : LocationInput → Bool
spares_proxy (proxy_pass s) = false
spares_proxy _ = true

typed-spared :
    (i : LocationInput) (l : LocationConfig)
    → spares_proxy i ≡ true
    → (typed i l).proxy_pass ≡ l.proxy_pass
typed-spared (path s) l h = refl
typed-spared (proxy_pass s) l h = cc
typed-spared (try_files s) l h = refl
typed-spared (index s) l h = refl
typed-spared (extra_directives s) l h = refl

both : (a b : Bool) → (a && b) ≡ true → (a ≡ true) × (b ≡ true)
both true b h = (refl, h)
both false b h = cc

if_saving :
    {T : Type 0} (p q : PageState T) (b : Bool)
    → q.form ≡ p.form
    → (if b then p else q).form ≡ p.form
if_saving p q true h = refl
if_saving p q false h = h

module _ {T : Type 0} (zod : Zod) where
  -- The location that is edited has an empty proxy target.
  abbrev Emptied : PageState T → Type 0
  Emptied p =
      (l : LocationConfig) × (p.modal.location_editing.value ≡ some l) × (l.proxy_pass ≡ some [])

  unfoldable pub type_all : List LocationInput → PageState T → PageState T
  unfolding click_location
  type_all [] p = p
  type_all (i ∷ is) p = type_all is (click_location zod (type_in i) p)

  -- A click on the modal of the location that is edited.
  clicked :
      (c : LocationClick) (p : PageState T) (l : LocationConfig)
      → p.modal.location_editing.value ≡ some l
      → click_location zod c p ≡ click_edited zod (some l) c p
  unfolding click_location
  clicked c p l e = ap (λ v. click_edited zod v c p) e

  typed-Emptied :
      (i : LocationInput) (p : PageState T) (l : LocationConfig)
      → p.modal.location_editing.value ≡ some l
      → (typed i l).proxy_pass ≡ some []
      → Emptied (click_location zod (type_in i) p)
        × ((click_location zod (type_in i) p).form ≡ p.form)
  unfolding start_edit_location_page start_edit_location sanitize_location redact_option
      redact_potential_secrets
  typed-Emptied i p l e h =
      subst (λ q. Emptied q × (q.form ≡ p.form)) (sym (clicked (type_in i) p l e))
        ((sanitize_location (typed i l), refl, ap redact_option h ∙ empty_redacted), refl)
    where
      empty_redacted : redact_option (some []) ≡ some []
      empty_redacted = refl

  type_all-Emptied :
      (is : List LocationInput) (p : PageState T)
      → all spares_proxy is ≡ true
      → Emptied p
      → Emptied (type_all is p) × ((type_all is p).form ≡ p.form)
  unfolding type_all
  type_all-Emptied [] p h m = (m, refl)
  type_all-Emptied (i ∷ is) p h (l, e, m) =
      let (spared, later) = both (spares_proxy i) _ h in
      let (n, same) = typed-Emptied i p l e (typed-spared i l spared ∙ m) in
      let (n', same') = type_all-Emptied is (click_location zod (type_in i) p) later n in
      (n', same' ∙ same)

  saved_location-refused :
      (message : Text) (errors : Errors) (l : LocationConfig) (p : PageState T)
      → full errors ≡ true
      → (saved_location message errors l p).form ≡ p.form
  saved_location-refused message [] l p h = cc
  saved_location-refused message (e ∷ es) l p h = refl

  -- Neither button saves it.
  buttons-refuse :
      (p : PageState T)
      → Emptied p
      → ((click_location zod save_button p).form ≡ p.form)
        × ((click_location zod save_force_button p).form ≡ p.form)
  unfolding on_save_location on_save_location_force
  buttons-refuse p (l, e, m) =
      let bad = validate_location-full zod l m in
      (
        ap (λ q. q.form) (clicked save_button p l e)
            ∙ if_saving p _ p.is_saving_location (saved_location-refused _ _ l p bad),
        ap (λ q. q.form) (clicked save_force_button p l e)
            ∙ if_saving p _ p.is_saving_location (saved_location-refused _ _ l p bad),
      )

  -- Once the proxy target of a location is typed into and emptied again, no button of the modal
  -- saves the location, the one that saves in any case included, whatever is typed into the other
  -- fields: the form stays as it was.
  pub emptied-refused :
      (is : List LocationInput) (p : PageState T) (l : LocationConfig)
      → p.modal.location_editing.value ≡ some l
      → all spares_proxy is ≡ true
      → let q = type_all (proxy_pass [] ∷ is) p in
        ((click_location zod save_button q).form ≡ p.form)
        × ((click_location zod save_force_button q).form ≡ p.form)
  unfolding type_all
  emptied-refused is p l e h =
      let (m, same) = typed-Emptied (proxy_pass []) p l e refl in
      let (m', same') = type_all-Emptied is (click_location zod (type_in (proxy_pass [])) p) h m in
      let (normal, force) = buttons-refuse _ m' in (normal ∙ same' ∙ same, force ∙ same' ∙ same)
