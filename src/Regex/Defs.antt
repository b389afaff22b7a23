-- ===== src/Regex/Defs.antt =====
-- The patterns, the matcher, `test` and `replace`.
use nginx_admin.Common.{
  ℕ, zero, suc, ◌+◌, ◌-◌, Bool, true, false, ◌&&◌, ◌||◌, not, Option, none, some, List, [], ◌∷◌,
  ◌++◌, Text, ltb, leb, ◌==◌, if◌then◌else◌, length, take, any, is_some,
}

pub data Regex : Type 0 where
  empty : Regex
  char : (ℕ → Bool) → Regex
  seq : Regex → Regex → Regex
  alt : Regex → Regex → Regex  -- `r|s`
  star : Regex → Regex  -- greedy
  lazy : Regex → Regex  -- `r*?`
  group : Regex → Regex  -- the first capture; later groups capture nothing that is read
  start : Regex  -- `^`
  finish : Regex  -- `$`
  boundary : Regex  -- `\b` under the flags `iu`

-- A position in the text: the character before it, the text from it on, and the first capture.
pub record Cursor : Type 0 where
  pub before : Option ℕ
  pub rest : Text
  pub capture : Option Text

-- Simple case folding, as far as it reaches an ASCII letter.
unfoldable pub fold : ℕ → ℕ
fold c =
    if leb b'A' c && leb c b'Z'
    then c + 32
    else if c == 0x212a
    then b'k'
    else if c == 0x17f
    then b's'
    else c

-- The word characters of `\b` under the flags `iu`.
unfoldable pub is_word : ℕ → Bool
unfolding fold
is_word c = leb b'a' (fold c) && leb (fold c) b'z' || leb b'0' c && leb c b'9' || c == b'_'

abbrev pub concat_map {ℓ κ} : {A : Type ℓ} {B : Type κ} → (A → List B) → List A → List B
concat_map f [] = []
concat_map f (x ∷ xs) = f x ++ concat_map f xs

abbrev pub first {ℓ} : {A : Type ℓ} → List A → Option A
first [] = none
first (x ∷ xs) = some x

abbrev pub nonempty {ℓ} : {A : Type ℓ} → List A → Bool
nonempty [] = false
nonempty (x ∷ xs) = true

unfoldable pub advance : (ℕ → Bool) → Option Text → Text → List Cursor
advance p k [] = []
advance p k (c ∷ s) = if p c then record { before = some c; rest = s; capture = k } ∷ [] else []

-- One more round of a loop counts only if it consumed a character.
abbrev pub shorter : Cursor → Cursor → Bool
shorter c d = ltb (length d.rest) (length c.rest)

unfoldable pub repeat : (Cursor → List Cursor) → ℕ → Cursor → List Cursor
repeat step zero c = c ∷ []
repeat step (suc f) c =
    concat_map (λ d. let more = repeat step f d in if shorter c d then more else []) (step c)
    ++ c ∷ []

unfoldable pub repeat_lazy : (Cursor → List Cursor) → ℕ → Cursor → List Cursor
repeat_lazy step zero c = c ∷ []
repeat_lazy step (suc f) c =
    c
    ∷ concat_map (λ d. let more = repeat_lazy step f d in if shorter c d then more else []) (step c)

abbrev pub consumed : Cursor → Cursor → ℕ
consumed c d = length c.rest - length d.rest

abbrev pub captured : Cursor → List Cursor → List Cursor
captured c [] = []
captured c (d ∷ ds) = record d { capture = some (take (consumed c d) c.rest) } ∷ captured c ds

abbrev pub is_word_at : Option ℕ → Bool
is_word_at none = false
is_word_at (some c) = is_word c

abbrev pub differ : Bool → Bool → Bool
differ true b = not b
differ false b = b

-- Every way to match from a position, in the order in which the language tries them. A round of
-- a loop consumes a character, so the length of the text bounds the rounds.
unfoldable pub run : Regex → Cursor → List Cursor
unfolding advance repeat repeat_lazy is_word
run empty c = c ∷ []
run (char p) c = advance p c.capture c.rest
run (seq r s) c = concat_map (run s) (run r c)
run (alt r s) c = run r c ++ run s c
run (star r) c = repeat (run r) (length c.rest) c
run (lazy r) c = repeat_lazy (run r) (length c.rest) c
run (group r) c = captured c (run r c)
run start c = if is_some c.before then [] else c ∷ []
run finish c = if nonempty c.rest then [] else c ∷ []
run boundary c = if differ (is_word_at c.before) (is_word_at (first c.rest)) then c ∷ [] else []

abbrev pub cursor : Option ℕ → Text → Cursor
cursor before s = record { before = before; rest = s; capture = none }

-- `r.test(s)`, from a position on
unfoldable pub test_from : Regex → Option ℕ → Text → Bool
unfolding run
test_from r before [] = nonempty (run r (cursor before []))
test_from r before (c ∷ s) = nonempty (run r (cursor before (c ∷ s))) || test_from r (some c) s

unfoldable pub test : Regex → Text → Bool
unfolding test_from
test r s = test_from r none s

-- The number of UTF-16 units of a code point.
abbrev pub units : ℕ → ℕ
units c = if ltb c 0x10000 then 1 else 2

-- `s.replace(r, f)` with the flag `g`. The callback gets the offset, the match and the first
-- capture. `skip` characters still belong to the last match.
unfoldable pub replace_from :
    Regex → (ℕ → Text → Option Text → Text) → ℕ → ℕ → Option ℕ → Text → Text
unfolding run
replace_from r f offset skip before [] = elim (first (run r (cursor before []))) [
  | none ↦ []
  | some d ↦ f offset [] d.capture
]
replace_from r f offset (suc skip) before (c ∷ s) =
    replace_from r f (offset + units c) skip (some c) s
replace_from r f offset zero before (c ∷ s) = elim (first (run r (cursor before (c ∷ s)))) [
  | none ↦ c ∷ replace_from r f (offset + units c) 0 (some c) s
  | some d ↦
      let n = length (c ∷ s) - length d.rest in
      f offset (take n (c ∷ s)) d.capture
      ++ ((if n == 0 then c ∷ [] else []) ++ replace_from r f (offset + units c) (n - 1) (some c) s)
]

unfoldable pub replace : Regex → (ℕ → Text → Option Text → Text) → Text → Text
unfolding replace_from
replace r f s = replace_from r f 0 0 none s

-- Notation: `[…]`, `a-z`, texts, and repetitions.
abbrev pub one_of : Text → ℕ → Bool
one_of s c = any (λ d. c == d) s

abbrev pub within : ℕ → ℕ → ℕ → Bool
within a b c = leb a c && leb c b

abbrev pub literal : Text → Regex
literal [] = empty
literal (c ∷ s) = seq (char (λ d. d == c)) (literal s)

-- Under the flags `iu`.
abbrev pub literal_i : Text → Regex
literal_i [] = empty
literal_i (c ∷ s) = seq (char (λ d. fold d == fold c)) (literal_i s)

abbrev pub class_i : (ℕ → Bool) → Regex
class_i p = char (λ d. p (fold d))

abbrev pub optional : Regex → Regex
optional r = alt r empty

unfoldable pub plus : Regex → Regex
plus r = seq r (star r)

-- `r{0,n}`
abbrev pub up_to : ℕ → Regex → Regex
up_to zero r = empty
up_to (suc n) r = optional (seq r (up_to n r))

-- `r{n}`
abbrev pub exactly : ℕ → Regex → Regex
exactly zero r = empty
exactly (suc n) r = seq r (exactly n r)

-- `^r$`
unfoldable pub whole : Regex → Regex
whole r = seq start (seq r finish)

-- `a|b|…`
unfoldable pub word : List Text → Regex
word [] = char (λ c. false)
word (w ∷ []) = literal_i w
word (w ∷ v ∷ ws) = alt (literal_i w) (word (v ∷ ws))
