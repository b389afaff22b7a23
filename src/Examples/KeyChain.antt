-- ===== src/Examples/KeyChain.antt =====
-- A key chain and a coding of objects of strings, in the place of the package `keytar` and of
-- `JSON`.
use nginx_admin.Common.{
  zero, suc, Bool, true, false, ◌&&◌, Option, none, some, [], ◌∷◌, ◌++◌, Text, ◌≡◌, refl, ap, sym,
  ◌==◌, ◌∙◌, ◌===◌, ===_refl, if◌then◌else◌, append_assoc, append-nil, truthy,
}
use nginx_admin.Secrets.{Value, str, obj, Fields, end, field, through_json, fields_through_json}
use nginx_admin.Desktop.Faults.{Result, ok}
use nginx_admin.Desktop.HostSecrets.{HostSecrets, value_of, or_undefined}
use nginx_admin.Desktop.HostSecrets.Normal.{through_json-obj}
use nginx_admin.Desktop.Keytar.{KeytarLike}
use nginx_admin.Desktop.Keytar.RoundTrip.{IsFaithful, IsChain}

-- The password of each service and account.
abbrev pub Chain : Type 0
Chain = Text → Text → Option Text

abbrev pub keytar : KeytarLike
keytar = record {
  Chain = Chain;
  get_password = λ service account w. (ok (w service account), w);
  set_password = λ service account password w.
      (ok tt, λ s a. if service === s && account === a then some password else w s a);
  delete_password =
      λ service account w. (ok tt, λ s a. if service === s && account === a then none else w s a);
}

ok-if :
    (b : Bool) (x y : Option Text)
    → ◌≡◌ {A = Result (Option Text)} (ok (if b then x else y)) (if b then ok x else ok y)
ok-if true x y = refl
ok-if false x y = refl

keytar-get-set :
    (service account other password : Text) (w w' : Chain)
    → keytar.set_password service account password w ≡ (ok tt, w')
    → (keytar.get_password service other w').0
      ≡ (if account === other then ok (some password) else (keytar.get_password service other w).0)
keytar-get-set service account other password w w' e =
    let same : w' service other ≡ (keytar.set_password service account password w).1 service other =
      sym (ap (λ p. p.1 service other) e) in
    ap ok same ∙ rw (===_refl service) (ok-if (account === other) (some password) (w service other))

pub keytar-IsChain : IsChain keytar
keytar-IsChain = record {
  get_same = λ service account w. refl;
  get-set = keytar-get-set;
  set_refused = λ service account password f w w' e. cc;
}

-- Each character of a text is raised by one, and a zero stands behind it.
enc_text : Text → Text → Text
enc_text [] rest = 0 ∷ rest
enc_text (c ∷ s) rest = suc c ∷ enc_text s rest

enc_fields : Fields → Text
unfolding enc_text
enc_fields end = 0 ∷ []
enc_fields (field k (str s) fs) = 1 ∷ enc_text k (enc_text s (enc_fields fs))
enc_fields (field k _ fs) = enc_fields fs

-- What the decoder reads: the mark of a field, its name, or its text.
pub data Mode : Type 0 where
  mark : Mode
  name : Text → Mode
  content : Text → Text → Mode

dec : Mode → Text → Fields
dec m [] = end
dec mark (zero ∷ t) = end
dec mark (suc c ∷ t) = dec (name []) t
dec (name k) (zero ∷ t) = dec (content k []) t
dec (name k) (suc c ∷ t) = dec (name (k ++ c ∷ [])) t
dec (content k s) (zero ∷ t) = field k (str s) (dec mark t)
dec (content k s) (suc c ∷ t) = dec (content k (s ++ c ∷ [])) t

unfoldable pub json_stringify : Value → Text
unfolding enc_fields
json_stringify (obj fs) = b'{' ∷ enc_fields fs
json_stringify _ = []

unfoldable pub json_parse : Text → Option Value
unfolding dec
json_parse [] = none
json_parse (c ∷ t) = if c == b'{' then some (obj (dec mark t)) else none

dec-name : (k s rest : Text) → dec (name k) (enc_text s rest) ≡ dec (content (k ++ s) []) rest
unfolding dec enc_text
dec-name k [] rest = rw append-nil
dec-name k (c ∷ s) rest = dec-name (k ++ c ∷ []) s rest ∙ rw append_assoc

dec-content :
    (k t s rest : Text)
    → dec (content k t) (enc_text s rest) ≡ field k (str (t ++ s)) (dec mark rest)
unfolding dec enc_text
dec-content k t [] rest = rw append-nil
dec-content k t (c ∷ s) rest = dec-content k (t ++ c ∷ []) s rest ∙ rw append_assoc

dec-field :
    (k : Text) (o : Option Text) (fs : Fields)
    → dec mark (enc_fields fs) ≡ fields_through_json fs
    → dec mark (enc_fields (field k (or_undefined o) fs))
      ≡ fields_through_json (field k (or_undefined o) fs)
unfolding fields_through_json enc_fields
dec-field k none fs h = h
dec-field k (some s) fs h =
    unfold dec in
    (dec-name [] k (enc_text s (enc_fields fs))
      ∙ dec-content k [] s (enc_fields fs)
      ∙ ap (field k (str s)) h)

parse-stringify :
    (s : HostSecrets) → json_parse (json_stringify (value_of s)) ≡ some (through_json (value_of s))
unfolding json_parse json_stringify value_of
parse-stringify s =
    ap (λ fs. some (obj fs))
      (dec-field _ s.username _ (
        dec-field _ s.password _ (
          dec-field _ s.token _ (
            dec-field _ s.private_key _
              (dec-field _ s.passphrase end (unfold dec enc_fields fields_through_json in refl))))))
    ∙ ap some (sym (through_json-obj _))

stringify_truthy : (s : HostSecrets) → truthy (json_stringify (value_of s)) ≡ true
unfolding json_stringify value_of
stringify_truthy s = refl

pub json-IsFaithful : IsFaithful json_parse json_stringify
json-IsFaithful = record { parse-stringify = parse-stringify; stringify_truthy = stringify_truthy }
