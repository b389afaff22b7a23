-- ===== src/Bootstrap/Shell.antt =====
-- apps/desktop/src/main/ipc/registerBootstrapHandlers.ts: `quoteForShell` before a POSIX shell,
-- whose rules for blanks, quotes and pipes are written out here.
use nginx_admin.Common.{
  ℕ, Bool, ◌||◌, ◌==◌, Option, none, some, List, [], ◌∷◌, ◌++◌, Text, text, ◌≡◌, refl, ◌∙◌, ap,
  append_assoc, append-nil, if◌then◌else◌, any, Bool-cases, ==_iff, inl, inr,
}
use nginx_admin.Bootstrap.{
  Defaults, apostrophe, replaced_quote, replace_quotes, quote_for_shell, install_command,
  is_active_command, is_enabled_command,
}

pub data Token : Type 0 where
  word : Text → Token
  pipe : Token

-- A reader of a command line: between two words, in a word outside all quotes, in single or in
-- double quotes, each with the word so far and the tokens before; `other` is a line with a
-- character that the shell treats in a way of its own.
pub data Reader : Type 0 where
  between : List Token → Reader
  bare single double : Text → List Token → Reader
  other : Reader

abbrev special : ℕ → Bool
special c = any (λ d. c == d) (text "&;<>()$`\\*?[]#~!{}\n")

abbrev special_quoted : ℕ → Bool
special_quoted c = any (λ d. c == d) (text "$`\\!")

abbrev blank : ℕ → Bool
blank c = c == 32 || c == 9

pub read : Reader → ℕ → Reader
read (between ts) c =
    if blank c
    then between ts
    else if c == b'|'
    then between (ts ++ pipe ∷ [])
    else if c == apostrophe
    then single [] ts
    else if c == 34
    then double [] ts
    else if special c
    then other
    else bare (c ∷ []) ts
read (bare w ts) c =
    if blank c
    then between (ts ++ word w ∷ [])
    else if c == b'|'
    then between (ts ++ word w ∷ pipe ∷ [])
    else if c == apostrophe
    then single w ts
    else if c == 34
    then double w ts
    else if special c
    then other
    else bare (w ++ c ∷ []) ts
read (single w ts) c = if c == apostrophe then bare w ts else single (w ++ c ∷ []) ts
read (double w ts) c =
    if c == 34 then bare w ts else if special_quoted c then other else double (w ++ c ∷ []) ts
read other c = other

pub read_all : Reader → Text → Reader
read_all r [] = r
read_all r (c ∷ s) = read_all (read r c) s

abbrev tokens_of : Reader → Option (List Token)
tokens_of (between ts) = some ts
tokens_of (bare w ts) = some (ts ++ word w ∷ [])
tokens_of _ = none

-- The tokens of a command line, if it needs nothing else of the shell.
pub tokens : Text → Option (List Token)
tokens s = tokens_of (read_all (between []) s)

read_all-append : (r : Reader) (s t : Text) → read_all r (s ++ t) ≡ read_all (read_all r s) t
unfolding read_all
read_all-append r [] t = refl
read_all-append r (c ∷ s) t = read_all-append (read r c) s t

read_all-replaced_quote :
    (c : ℕ) (w : Text) (ts : List Token)
    → read_all (single w ts) (replaced_quote c) ≡ single (w ++ c ∷ []) ts
unfolding read_all read
read_all-replaced_quote c w ts = elim (Bool-cases (c == apostrophe)) [
  | inl e ↦ rw ((==_iff c apostrophe).0 e) refl
  | inr e ↦ rw (e, e) refl
]

read_all-replace_quotes :
    (v w : Text) (ts : List Token) → read_all (single w ts) (replace_quotes v) ≡ single (w ++ v) ts
unfolding replace_quotes
read_all-replace_quotes [] w ts = unfold read_all in rw append-nil
read_all-replace_quotes (c ∷ v) w ts =
    read_all-append (single w ts) (replaced_quote c) (replace_quotes v)
    ∙ rw (read_all-replaced_quote c w ts)
        (read_all-replace_quotes v (w ++ c ∷ []) ts ∙ rw append_assoc)

-- Whatever the value is, quoted it is one word.
read_all-quote_for_shell :
    (v : Text) (ts : List Token) → read_all (between ts) (quote_for_shell v) ≡ bare v ts
unfolding quote_for_shell read
read_all-quote_for_shell v ts =
    unfold read_all in
    (read_all-append (single [] ts) (replace_quotes v) (apostrophe ∷ [])
      ∙ rw (read_all-replace_quotes v [] ts))

read_all-command :
    (before v after : Text) (ts : List Token)
    → read_all (between []) before ≡ between ts
    → read_all (between []) (before ++ (quote_for_shell v ++ after)) ≡ read_all (bare v ts) after
read_all-command before v after ts h =
    read_all-append (between []) before (quote_for_shell v ++ after)
    ∙ rw h (
        read_all-append (between ts) (quote_for_shell v) after ∙ rw (read_all-quote_for_shell v ts))

read_all-command_end :
    (before v : Text) (ts : List Token)
    → read_all (between []) before ≡ between ts
    → read_all (between []) (before ++ quote_for_shell v) ≡ bare v ts
read_all-command_end before v ts h =
    read_all-append (between []) before (quote_for_shell v) ∙ rw h (read_all-quote_for_shell v ts)

-- The commands of an installation have the words that are meant, whatever the configured address
-- and the name of the service are.
pub tokens-commands :
    (d : Defaults)
    → (tokens (install_command d)
        ≡ some (
            word (text "curl")
            ∷ word (text "-fsSL")
            ∷ word d.install_script_url
            ∷ pipe
            ∷ word (text "sudo")
            ∷ word (text "bash")
            ∷ []))
      × (tokens (is_active_command d)
          ≡ some (word (text "systemctl") ∷ word (text "is-active") ∷ word d.service_name ∷ []))
      × (tokens (is_enabled_command d)
          ≡ some (word (text "systemctl") ∷ word (text "is-enabled") ∷ word d.service_name ∷ []))
unfolding tokens read read_all
tokens-commands d = (
  ap tokens_of (
      read_all-command (text "curl -fsSL ") d.install_script_url (text " | sudo bash")
        (word (text "curl") ∷ word (text "-fsSL") ∷ []) refl),
  ap tokens_of (
      read_all-command_end (text "systemctl is-active ") d.service_name
        (word (text "systemctl") ∷ word (text "is-active") ∷ []) refl),
  ap tokens_of (
      read_all-command_end (text "systemctl is-enabled ") d.service_name
        (word (text "systemctl") ∷ word (text "is-enabled") ∷ []) refl),
)
