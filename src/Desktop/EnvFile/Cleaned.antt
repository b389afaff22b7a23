-- ===== src/Desktop/EnvFile/Cleaned.antt =====
-- What `loadDesktopEnv` reads from a file that `cleanupEnvFile` has rewritten.
use nginx_admin.Common.{
  true, false, not, ◌||◌, Option, none, some, List, [], ◌∷◌, Text, ◌≡◌, refl, ◌∙◌, ◌===◌,
  if◌then◌else◌, is_some, truthy, keep, join, All, arith, Bool-cases, inl, inr, ===_iff,
}
use nginx_admin.Common.Keyed.{find_key, find_key-append, has_key-is_some}
use nginx_admin.Desktop.Files.{Env, name_of}
use nginx_admin.Desktop.EnvFile.{
  split_lines, is_secret_key, entry, cleaned_text, keeps, parse_env_value, apply_lines, applied,
}
use nginx_admin.Desktop.EnvFile.Lines.{
  NoBreak, split_lines-NoBreak, split_lines-one, split_lines-break, strip, trim-strip,
}

abbrev keep_lines : List Text → List Text
keep_lines = keep (λ raw. keeps (entry raw))

keep_lines-NoBreak : (lines : List Text) → All NoBreak lines → All NoBreak (keep_lines lines)
keep_lines-NoBreak [] h = tt
keep_lines-NoBreak (raw ∷ lines) (l, h) = elim (Bool-cases (keeps (entry raw))) [
  | inl e ↦ rw e (l, keep_lines-NoBreak lines h)
  | inr e ↦ rw e (keep_lines-NoBreak lines h)
]

entry-strip : (x : Text) → entry (strip x) ≡ entry x
unfolding entry
entry-strip x = rw trim-strip

apply_lines-cons :
    (x : Text) (lines : List Text) (env : Env)
    → apply_lines (x ∷ lines) env ≡ apply_lines lines (applied (entry x) env)
unfolding apply_lines
apply_lines-cons x lines env = refl

-- Lines that are joined and split again have the same entries.
apply_lines-join :
    (lines : List Text) (env : Env)
    → All NoBreak lines
    → apply_lines (split_lines (join (10 ∷ []) lines)) env ≡ apply_lines lines env
unfolding join
apply_lines-join [] env h = unfold split_lines apply_lines entry in refl
apply_lines-join (x ∷ []) env (n, h) = rw (split_lines-one x n)
apply_lines-join (x ∷ y ∷ lines) env (n, h) =
    rw
      (
        split_lines-break x (join (10 ∷ []) (y ∷ lines)) n,
        apply_lines-cons (strip x),
        apply_lines-cons x,
        entry-strip x,
      )
      (apply_lines-join (y ∷ lines) (applied (entry x) env) h)

find_key-applied :
    (key k v : Text) (e : Env)
    → find_key name_of key (applied (some (k, v)) e) ≡ (
        if not (truthy k) || is_some (find_key name_of k e) || is_some (find_key name_of key e)
        then find_key name_of key e
        else if k === key
        then some (record { name = k; value = parse_env_value v })
        else none)
find_key-applied key k v e = ground (
  arith,
  has_key-is_some name_of k e,
  find_key-append name_of key (record { name = k; value = parse_env_value v }) e,
)

-- The environments agree on all keys that are no secrets.
record Agree (e e' : Env) : Type 0 where
  agree :
      (key : Text) → is_secret_key key ≡ false → find_key name_of key e ≡ find_key name_of key e'

applied-Agree :
    (o : Option (Text × Text)) (e e' : Env)
    → Agree e e'
    → Agree (if keeps o then applied o e else e) (applied o e')
applied-Agree none e e' a = a
applied-Agree (some (k, v)) e e' a = record {
  agree = λ key h. ground (
    arith,
    a.agree key h,
    a.agree k,
    find_key-applied key k v e,
    find_key-applied key k v e',
    ===_iff k key,
  );
}

applied-secret :
    (key : Text) (o : Option (Text × Text)) (e : Env)
    → is_secret_key key ≡ true
    → keeps o ≡ true
    → find_key name_of key (applied o e) ≡ find_key name_of key e
applied-secret key none e s k = refl
applied-secret key (some (j, v)) e s k = ground (arith, find_key-applied key j v e, ===_iff j key)

apply_lines-Agree :
    (lines : List Text) (e e' : Env)
    → Agree e e'
    → Agree (apply_lines (keep_lines lines) e) (apply_lines lines e')
unfolding apply_lines
apply_lines-Agree [] e e' a = unfold apply_lines in a
apply_lines-Agree (raw ∷ lines) e e' a =
    let one = applied-Agree (entry raw) e e' a in
    elim (Bool-cases (keeps (entry raw))) [
      | inl k ↦ rw (k, apply_lines-cons raw) (apply_lines-Agree lines _ _ (rw k at one))
      | inr k ↦ rw (k, apply_lines-cons raw) (apply_lines-Agree lines e _ (rw k at one))
    ]

apply_lines-secret :
    (key : Text) (lines : List Text) (e : Env)
    → is_secret_key key ≡ true
    → find_key name_of key (apply_lines (keep_lines lines) e) ≡ find_key name_of key e
apply_lines-secret key [] e s = unfold apply_lines in refl
apply_lines-secret key (raw ∷ lines) e s = elim (Bool-cases (keeps (entry raw))) [
  | inl k ↦
      rw (k, apply_lines-cons raw)
        (apply_lines-secret key lines _ s ∙ applied-secret key (entry raw) e s k)
  | inr k ↦ rw k (apply_lines-secret key lines e s)
]

apply_lines-cleaned_text :
    (content : Text) (env : Env)
    → apply_lines (split_lines (cleaned_text content)) env
      ≡ apply_lines (keep_lines (split_lines content)) env
unfolding cleaned_text
apply_lines-cleaned_text content env =
    apply_lines-join _ env (keep_lines-NoBreak _ (split_lines-NoBreak content))

-- From a file that was cleaned, the next start takes no secret: each of the five variables is what
-- the environment has already. Every other variable is what the file gave before it was cleaned.
pub load-cleaned_text :
    (content : Text) (env : Env) (key : Text)
    → find_key name_of key (apply_lines (split_lines (cleaned_text content)) env) ≡ (
        if is_secret_key key
        then find_key name_of key env
        else find_key name_of key (apply_lines (split_lines content) env))
load-cleaned_text content env key =
    rw (apply_lines-cleaned_text content env) (elim (Bool-cases (is_secret_key key)) [
      | inl s ↦ rw s (apply_lines-secret key (split_lines content) env s)
      | inr s ↦ rw s (
          (apply_lines-Agree (split_lines content) env env (record { agree = λ _ _. refl })).agree
            key s)
    ])
