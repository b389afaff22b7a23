-- ===== src/Desktop/EnvFile/Lines.antt =====
-- The lines of an environment file: what joining and splitting again does to them.
use nginx_admin.Common.{
  ℕ, Bool, true, false, ◌&&◌, ◌==◌, List, [], ◌∷◌, ◌++◌, Text, ◌≡◌, refl, ◌∙◌, if◌then◌else◌,
  starts_with, is_space, trim, trim_start, trim_end, All, arith, Bool-cases, inl, inr, ◌≢◌,
}
use nginx_admin.Desktop.EnvFile.{split_lines, cons_head}

abbrev pub NoBreak : Text → Type 0
NoBreak = All (λ c. c ≢ 10)

-- A line without the carriage return at its end, which is read as a part of the break.
unfoldable pub strip : Text → Text
strip [] = []
strip (c ∷ []) = if c == 13 then [] else c ∷ []
strip (c ∷ d ∷ s) = c ∷ strip (d ∷ s)

cons_head-NoBreak :
    (c : ℕ) (lines : List Text)
    → c ≢ 10
    → All NoBreak lines
    → All NoBreak (cons_head (c ∷ []) lines)
cons_head-NoBreak c [] n h = ((n, tt), tt)
cons_head-NoBreak c (line ∷ lines) n (l, h) = ((n, l), h)

All-if :
    (b : Bool) (xs ys : List Text)
    → (b ≡ true → All NoBreak xs)
    → (b ≡ false → All NoBreak ys)
    → All NoBreak (if b then xs else ys)
All-if true xs ys h k = h refl
All-if false xs ys h k = k refl

-- No line holds a line feed.
pub split_lines-NoBreak : (s : Text) → All NoBreak (split_lines s)
unfolding split_lines
split_lines-NoBreak [] = (tt, tt)
split_lines-NoBreak (c ∷ s) =
    let ih = split_lines-NoBreak s in
    All-if (c == 10) _ _ (λ _. (tt, ih))
      λ n.
        All-if (c == 13 && starts_with s (10 ∷ [])) _ _ (λ _. ih)
          λ _. cons_head-NoBreak c (split_lines s) (ground arith) ih

split_lines-other :
    (c : ℕ) (s : Text)
    → c ≢ 10
    → starts_with s (10 ∷ []) ≡ false
    → split_lines (c ∷ s) ≡ cons_head (c ∷ []) (split_lines s)
unfolding split_lines
split_lines-other c s n h = rw h (ground arith)

pub split_lines-one : (x : Text) → NoBreak x → split_lines x ≡ x ∷ []
unfolding split_lines starts_with
split_lines-one [] h = refl
split_lines-one (c ∷ []) (n, h) = ground arith
split_lines-one (c ∷ d ∷ x) (n, (m, h)) =
    split_lines-other c (d ∷ x) n (ground arith) ∙ rw (split_lines-one (d ∷ x) (m, h))

pub split_lines-break :
    (x t : Text) → NoBreak x → split_lines (x ++ 10 ∷ t) ≡ strip x ∷ split_lines t
unfolding split_lines starts_with strip
split_lines-break [] t h = refl
split_lines-break (c ∷ []) t (n, h) = ground arith
split_lines-break (c ∷ d ∷ x) t (n, (m, h)) =
    split_lines-other c (d ∷ (x ++ 10 ∷ t)) n (ground arith)
    ∙ rw (split_lines-break (d ∷ x) t (m, h))

trim_end-strip : (x : Text) → trim_end (strip x) ≡ trim_end x
unfolding trim_end strip is_space
trim_end-strip [] = refl
trim_end-strip (c ∷ []) = ground arith
trim_end-strip (c ∷ d ∷ x) = rw (trim_end-strip (d ∷ x))

trim_start-strip : (x : Text) → trim_start (strip x) ≡ strip (trim_start x)
unfolding trim_start strip is_space
trim_start-strip [] = refl
trim_start-strip (c ∷ []) = ground arith
trim_start-strip (c ∷ d ∷ x) = elim (Bool-cases (is_space c)) [
  | inl e ↦ rw e (trim_start-strip (d ∷ x))
  | inr e ↦ rw e
]

pub trim-strip : (x : Text) → trim (strip x) ≡ trim x
unfolding trim
trim-strip x = rw (trim_start-strip x) (trim_end-strip (trim_start x))
