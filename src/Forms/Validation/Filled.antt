-- ===== src/Forms/Validation/Filled.antt =====
-- Which forms `validateForm` and which locations `validateLocation` accept.
use nginx_admin.Common.{
  ℕ, ◌≡◌, ◌≢◌, ◌↔◌, ◌≤◌, refl, Bool, true, false, Option, none, some, [], ◌∷◌, Text, truthy, arith,
}
use nginx_admin.Entities.Primitives.{domain_schema, port_schema, unix_path_schema}
use nginx_admin.Forms.Drafts.{PartialRoute}
use nginx_admin.Forms.Validation.{Errors, invalid_text, invalid_port, error_if, validate_form}

pub record IsFilled (d : PartialRoute) : Type 0 where
  pub domain : (s : Text) × (d.domain ≡ some s) × (domain_schema s ≡ true)
  pub port : (n : ℕ) × (d.port ≡ some n) × (1 ≤ n) × (n ≤ 65535)
  pub root : (s : Text) × (d.root ≡ some s) × (s ≢ []) × (unix_path_schema s ≡ true)

truthy_of_ne : (s : Text) → s ≢ [] → truthy s ≡ true
truthy_of_ne [] h = absurd (h refl)
truthy_of_ne (c ∷ s) h = refl

ne_of_truthy : (s : Text) → truthy s ≡ true → s ≢ []
ne_of_truthy [] h e = cc
ne_of_truthy (c ∷ s) h e = cc

domain_schema-truthy : (s : Text) → domain_schema s ≡ true → truthy s ≡ true
unfolding domain_schema
domain_schema-truthy [] h = cc
domain_schema-truthy (c ∷ s) h = refl

valid_text :
    (schema : Text → Bool) (o : Option Text)
    → invalid_text schema o ≡ false
    → (s : Text) × (o ≡ some s) × (truthy s ≡ true) × (schema s ≡ true)
valid_text schema none h = cc
valid_text schema (some s) h = (s, refl, ground arith, ground arith)

valid_port :
    (o : Option ℕ) → invalid_port o ≡ false → (n : ℕ) × (o ≡ some n) × (1 ≤ n) × (n ≤ 65535)
unfolding port_schema
valid_port none h = cc
valid_port (some n) h = (n, refl, ground arith, ground arith)

error_if-nil :
    (b : Bool) (k m : Text) (errors : Errors)
    → error_if b k m errors ≡ []
    → (b ≡ false) × (errors ≡ [])
error_if-nil true k m errors h = cc
error_if-nil false k m errors h = (refl, h)

module _ (d : PartialRoute) where
  nil-IsFilled : validate_form d ≡ [] → IsFilled d
  unfolding validate_form
  nil-IsFilled h =
      let (domain, h1) = error_if-nil _ _ _ _ h in
      let (port, h2) = error_if-nil _ _ _ _ h1 in
      let (root, h3) = error_if-nil _ _ _ _ h2 in
      let (s, e, t, v) = valid_text domain_schema d.domain domain in
      let (s', e', t', v') = valid_text unix_path_schema d.root root in
      record {
        domain = (s, e, v);
        port = valid_port d.port port;
        root = (s', e', ne_of_truthy s' t', v');
      }

  IsFilled-nil : IsFilled d → validate_form d ≡ []
  unfolding validate_form port_schema
  IsFilled-nil f =
      let (s, e, v) = f.domain in
      let (n, e', low, high) = f.port in
      let (s', e'', ne, v') = f.root in
      let t = domain_schema-truthy s v in let t' = truthy_of_ne s' ne in ground arith

-- `validateForm` finds no error in a form exactly if it has a domain that `DomainSchema` accepts, a
-- port from 1 to 65535, and a root that is not empty and that `UnixPathSchema` accepts.
pub validate_form_iff : (d : PartialRoute) → (validate_form d ≡ []) ↔ IsFilled d
validate_form_iff d = (nil-IsFilled d, IsFilled-nil d)
