-- ===== src/Forms/Objects.antt =====
-- Objects by their own properties that are set, and `sanitizeForJson` on them.
use nginx_admin.Common.{
  ℕ, ◌≡◌, refl, ap, ap₂, ◌∙◌, Bool, false, Option, none, some, List, [], ◌∷◌, Text, All,
}
use nginx_admin.Secrets.{
  Value, bool, num, str, date, obj, Items, nil, cons, Fields, end, field, sanitize_for_json,
  sanitize_items, sanitize_fields, is_sensitive_field_name, redact_potential_secrets,
}
use nginx_admin.Forms.Drafts.{redact_option, redact_all, map_option}

-- The own properties that are set, in their order.
abbrev pub Entry : Type 0
Entry = Text × Option Value

pub fields_of : List Entry → Fields
fields_of [] = end
fields_of ((k, none) ∷ es) = fields_of es
fields_of ((k, some v) ∷ es) = field k v (fields_of es)

pub sanitize_entry : Entry → Entry
sanitize_entry (k, o) = (k, map_option sanitize_for_json o)

pub sanitize_entries : List Entry → List Entry
unfolding sanitize_entry
sanitize_entries [] = []
sanitize_entries (e ∷ es) = sanitize_entry e ∷ sanitize_entries es

abbrev pub IsPlain : Entry → Type 0
IsPlain e = is_sensitive_field_name e.0 ≡ false

pub sanitize-fields_of :
    (es : List Entry)
    → All IsPlain es
    → sanitize_fields (fields_of es) ≡ fields_of (sanitize_entries es)
unfolding fields_of sanitize_entries sanitize_for_json
sanitize-fields_of [] h = refl
sanitize-fields_of ((k, none) ∷ es) (p, h) = sanitize-fields_of es h
sanitize-fields_of ((k, some v) ∷ es) (p, h) =
    rw p (ap (field k (sanitize_for_json v)) (sanitize-fields_of es h))

pub next :
    (k : Text) (o o' : Option Value) (es es' : List Entry)
    → map_option sanitize_for_json o ≡ o'
    → sanitize_entries es ≡ es'
    → sanitize_entries ((k, o) ∷ es) ≡ (k, o') ∷ es'
unfolding sanitize_entries
next k o o' es es' p q = ap₂ (λ x xs. (k, x) ∷ xs) p q

pub object :
    (es es' : List Entry)
    → All IsPlain es
    → sanitize_entries es ≡ es'
    → sanitize_for_json (obj (fields_of es)) ≡ obj (fields_of es')
unfolding sanitize_for_json
object es es' h p = ap obj (sanitize-fields_of es h ∙ ap fields_of p)

abbrev pub in_option : {A : Type 0} → (A → Value) → Option A → Option Value
in_option value none = none
in_option value (some a) = some (value a)

pub sanitize-in_option :
    {A : Type 0} (f : A → A) (value : A → Value)
    → ((a : A) → sanitize_for_json (value a) ≡ value (f a))
    → (o : Option A)
    → map_option sanitize_for_json (in_option value o) ≡ in_option value (map_option f o)
sanitize-in_option f value commutes none = refl
sanitize-in_option f value commutes (some a) = ap some (commutes a)

pub sanitize-text :
    (o : Option Text)
    → map_option sanitize_for_json (in_option str o) ≡ in_option str (redact_option o)
unfolding redact_option sanitize_for_json
sanitize-text none = refl
sanitize-text (some s) = refl

abbrev pub texts_of : List Text → Items
texts_of [] = nil
texts_of (s ∷ ss) = cons (str s) (texts_of ss)

pub sanitize-texts_of : (ss : List Text) → sanitize_items (texts_of ss) ≡ texts_of (redact_all ss)
unfolding sanitize_for_json redact_all
sanitize-texts_of [] = refl
sanitize-texts_of (s ∷ ss) = ap (cons (str (redact_potential_secrets s))) (sanitize-texts_of ss)

pub done : sanitize_entries [] ≡ []
unfolding sanitize_entries
done = refl

pub sanitize-str :
    (s : Text)
    → map_option sanitize_for_json (some (str s)) ≡ some (str (redact_potential_secrets s))
unfolding sanitize_for_json
sanitize-str s = refl

-- A flag or a number is left as it is.
pub sanitize-bool :
    (o : Option Bool) → map_option sanitize_for_json (in_option bool o) ≡ in_option bool o
unfolding sanitize_for_json
sanitize-bool none = refl
sanitize-bool (some b) = refl

pub sanitize-num : (o : Option ℕ) → map_option sanitize_for_json (in_option num o) ≡ in_option num o
unfolding sanitize_for_json
sanitize-num none = refl
sanitize-num (some n) = refl

pub sanitize-date : (t : ℕ) → map_option sanitize_for_json (some (date t)) ≡ some (date t)
unfolding sanitize_for_json
sanitize-date t = refl
