-- ===== src/Entities/Texts.antt =====
-- The characters of the texts that the schemas of domains and paths accept.
use nginx_admin.Common.{
  ℕ, zero, suc, ◌≡◌, refl, true, ◌||◌, [], ◌∷◌, Text, ◌==◌, All, Bool-cases, inl, inr, or-false,
  ==_iff,
}
use nginx_admin.Regex.{Regex, char, up_to, plus, Within, test-whole-All}
use nginx_admin.Entities.Primitives.{
  is_alphanumeric, is_letter, is_path_char, domain_label, domain_body, domain_schema,
  unix_path_body, unix_path_schema, url_path_body, url_path_schema,
}

-- `[a-zA-Z0-9_.-]` and the slash: no white space, no `;`, no brace, no quote, no variable.
abbrev pub IsSafe : ℕ → Type 0
IsSafe c = (is_path_char c || c == b'/') ≡ true

Within-up_to : (n : ℕ) (r : Regex) → Within IsSafe r → Within IsSafe (up_to n r)
Within-up_to zero r h = tt
Within-up_to (suc n) r h = ((h, Within-up_to n r h), tt)

Within-plus : (r : Regex) → Within IsSafe r → Within IsSafe (plus r)
unfolding plus
Within-plus r h = (h, h)

alphanumeric-IsSafe : (c : ℕ) → is_alphanumeric c ≡ true → IsSafe c
alphanumeric-IsSafe c h = rw h

letter-IsSafe : (c : ℕ) → is_letter c ≡ true → IsSafe c
letter-IsSafe c h = rw h

path_char-IsSafe : (c : ℕ) → is_path_char c ≡ true → IsSafe c
path_char-IsSafe c h = rw h

dash-IsSafe : (c : ℕ) → (is_alphanumeric c || c == b'-') ≡ true → IsSafe c
dash-IsSafe c h = elim (Bool-cases (is_alphanumeric c)) [
  | inl e ↦ alphanumeric-IsSafe c e
  | inr e ↦ rw ((==_iff c b'-').0 (rw e at h)) refl
]

dot-IsSafe : (c : ℕ) → (c == b'.') ≡ true → IsSafe c
dot-IsSafe c h = rw ((==_iff c b'.').0 h) refl

slash-IsSafe : (c : ℕ) → (c == b'/') ≡ true → IsSafe c
slash-IsSafe c h = rw ((==_iff c b'/').0 h) refl

domain_label-Within : Within IsSafe domain_label
unfolding domain_label
domain_label-Within = (
  alphanumeric-IsSafe,
  (
    (
      (
        Within-up_to 61 (char (λ c. is_alphanumeric c || c == b'-')) dash-IsSafe,
        alphanumeric-IsSafe,
      ),
      tt,
    ),
    dot-IsSafe,
  ),
)

domain_body-Within : Within IsSafe domain_body
unfolding domain_body
domain_body-Within = (
  Within-plus domain_label domain_label-Within,
  (letter-IsSafe, Within-plus (char is_letter) letter-IsSafe),
)

unix_path_body-Within : Within IsSafe unix_path_body
unfolding unix_path_body
unix_path_body-Within = (
  (slash-IsSafe, tt),
  (
    (
      Within-plus (char is_path_char) path_char-IsSafe,
      ((slash-IsSafe, tt), Within-plus (char is_path_char) path_char-IsSafe),
    ),
    tt,
  ),
)

url_path_body-Within : Within IsSafe url_path_body
unfolding url_path_body
url_path_body-Within = ((slash-IsSafe, tt), λ c h. h)

pub domain_schema-safe : (s : Text) → domain_schema s ≡ true → All IsSafe s
unfolding domain_schema
domain_schema-safe s h = test-whole-All IsSafe domain_body domain_body-Within s h

pub unix_path_schema-safe : (s : Text) → unix_path_schema s ≡ true → All IsSafe s
unfolding unix_path_schema
unix_path_schema-safe [] h = tt
unix_path_schema-safe (c ∷ s) h =
    test-whole-All IsSafe unix_path_body unix_path_body-Within (c ∷ s) (rw (or-false _) at h)

pub url_path_schema-safe : (s : Text) → url_path_schema s ≡ true → All IsSafe s
unfolding url_path_schema
url_path_schema-safe s h = test-whole-All IsSafe url_path_body url_path_body-Within s h
