-- ===== src/Forms/Store/Editing.antt =====
-- The list of locations in the form.
use nginx_admin.Common.{
  ℕ, zero, suc, ◌<◌, ◌≡◌, ◌≢◌, refl, ap, ◌∙◌, some, List, [], ◌∷◌, arith, length, get_elem?, set,
}
use nginx_admin.Entities.{LocationConfig}
use nginx_admin.Forms.Drafts.{
  PartialLocation, sanitize_location, sanitize_locations, sanitize_partial_location, map_option,
}
use nginx_admin.Forms.Validation.{create_location}
use nginx_admin.Forms.Store.{
  FormState, locations_of, open_location_modal, set_location_field, update_location, form_for,
}

length-sanitize : (ls : List LocationConfig) → length (sanitize_locations ls) ≡ length ls
unfolding sanitize_locations
length-sanitize [] = refl
length-sanitize (l ∷ ls) = ap suc (length-sanitize ls)

get_elem?-sanitize :
    (ls : List LocationConfig) (j : ℕ)
    → get_elem? (sanitize_locations ls) j ≡ map_option sanitize_location (get_elem? ls j)
unfolding sanitize_locations
get_elem?-sanitize [] j = refl
get_elem?-sanitize (l ∷ ls) zero = refl
get_elem?-sanitize (l ∷ ls) (suc j) = get_elem?-sanitize ls j

module _ {A : Type 0} (v : A) where
  length-set : (xs : List A) (i : ℕ) → length (set xs i v) ≡ length xs
  length-set [] i = refl
  length-set (x ∷ xs) zero = refl
  length-set (x ∷ xs) (suc i) = ap suc (length-set xs i)

  get_elem?-set_self : (xs : List A) (i : ℕ) → i < length xs → get_elem? (set xs i v) i ≡ some v
  get_elem?-set_self [] i h = absurd (omega arith)
  get_elem?-set_self (x ∷ xs) zero h = refl
  get_elem?-set_self (x ∷ xs) (suc i) h = get_elem?-set_self xs i (omega arith)

  get_elem?-set_other : (xs : List A) (i j : ℕ) → i ≢ j → get_elem? (set xs i v) j ≡ get_elem? xs j
  get_elem?-set_other [] i j h = refl
  get_elem?-set_other (x ∷ xs) zero zero h = absurd (h refl)
  get_elem?-set_other (x ∷ xs) zero (suc j) h = refl
  get_elem?-set_other (x ∷ xs) (suc i) zero h = refl
  get_elem?-set_other (x ∷ xs) (suc i) (suc j) h = get_elem?-set_other xs i j (λ e. h (ap suc e))

-- A location that is opened at its place, edited and stored: the list keeps its length, that
-- place holds the location that was edited, and every other place what it held, each sanitised.
pub update-open :
    (i j : ℕ) (change : PartialLocation → PartialLocation) (s : FormState)
    → i < length (locations_of s)
    → (length (
          locations_of
            (update_location (set_location_field change (open_location_modal (some i) s))))
        ≡ length (locations_of s))
      × (get_elem?
            (locations_of
              (update_location (set_location_field change (open_location_modal (some i) s))))
            i
          ≡ some (
              sanitize_location (
                create_location
                  (sanitize_partial_location (change (form_for (get_elem? (locations_of s) i)))))))
      × (i ≢ j
          → get_elem?
              (locations_of
                (update_location (set_location_field change (open_location_modal (some i) s))))
              j
            ≡ map_option sanitize_location (get_elem? (locations_of s) j))
unfolding update_location set_location_field open_location_modal
update-open i j change s h =
    let ls = locations_of s in
    let v = create_location (sanitize_partial_location (change (form_for (get_elem? ls i)))) in
    (
      length-sanitize (set ls i v) ∙ length-set v ls i,
      get_elem?-sanitize (set ls i v) i
          ∙ ap (map_option sanitize_location) (get_elem?-set_self v ls i h),
      λ ne.
          get_elem?-sanitize (set ls i v) j
          ∙ ap (map_option sanitize_location) (get_elem?-set_other v ls i j ne),
    )
