-- ===== src/Regex/Alphabet.antt =====
-- What an anchored pattern accepts is written in the alphabet of the pattern.
use nginx_admin.Common.{
  ℕ, zero, suc, ◌≡◌, refl, sym, ap, ◌∙◌, Bool, true, false, ◌||◌, Option, none, some, List, [], ◌∷◌,
  ◌++◌, append_assoc, append-nil, Text, length, All, All-append, Bool-cases, inl, inr,
  if◌then◌else◌, is_some,
}
use nginx_admin.Regex.Defs.{
  Regex, empty, char, seq, alt, star, lazy, group, start, finish, boundary, Cursor, concat_map,
  advance, shorter, repeat, repeat_lazy, run, cursor, test_from, test, whole, nonempty, differ,
  is_word_at, first, captured,
}

module _ (P : ℕ → Type 0) where
  -- Every character that a pattern can consume has the property.
  abbrev pub Within : Regex → Type 0
  Within empty = Unit
  Within (char p) = (c : ℕ) → p c ≡ true → P c
  Within (seq r s) = Within r × Within s
  Within (alt r s) = Within r × Within s
  Within (star r) = Within r
  Within (lazy r) = Within r
  Within (group r) = Within r
  Within start = Unit
  Within finish = Unit
  Within boundary = Unit

  abbrev Consumes : Text → Cursor → Type 0
  Consumes s d = (used : Text) × (s ≡ used ++ d.rest) × All P used

  Consumes-trans : (s : Text) (d e : Cursor) → Consumes s d → Consumes d.rest e → Consumes s e
  Consumes-trans s d e (u, p, h) (v, q, k) =
      (u ++ v, p ∙ ap (λ t. u ++ t) q ∙ sym (append_assoc u v e.rest), All-append P u v h k)

  All-concat_map :
      (f : Cursor → List Cursor) (s : Text) (ds : List Cursor)
      → ((d : Cursor) → Consumes s d → All (Consumes s) (f d))
      → All (Consumes s) ds
      → All (Consumes s) (concat_map f ds)
  All-concat_map f s [] h k = tt
  All-concat_map f s (d ∷ ds) h (k, ks) =
      All-append (Consumes s) (f d) (concat_map f ds) (h d k) (All-concat_map f s ds h ks)

  All-weaken :
      (s : Text) (d : Cursor) (es : List Cursor)
      → Consumes s d
      → All (Consumes d.rest) es
      → All (Consumes s) es
  All-weaken s d [] h k = tt
  All-weaken s d (e ∷ es) h (k, ks) = (Consumes-trans s d e h k, All-weaken s d es h ks)

  advance-Consumes :
      (p : ℕ → Bool) (k : Option Text) (s : Text)
      → ((c : ℕ) → p c ≡ true → P c)
      → All (Consumes s) (advance p k s)
  unfolding advance
  advance-Consumes p k [] h = tt
  advance-Consumes p k (c ∷ s) h = elim (Bool-cases (p c)) [
    | inl e ↦ rw e ((c ∷ [], refl, (h c e, tt)), tt)
    | inr e ↦ rw e tt
  ]

  abbrev Steps : (Cursor → List Cursor) → Type 0
  Steps step = (c : Cursor) → All (Consumes c.rest) (step c)

  All-if :
      (s : Text) (b : Bool) (es : List Cursor)
      → All (Consumes s) es
      → All (Consumes s) (if b then es else [])
  All-if s true es h = h
  All-if s false es h = tt

  repeat-Consumes : (step : Cursor → List Cursor) → Steps step → (f : ℕ) → Steps (repeat step f)
  unfolding repeat
  repeat-Consumes step h zero c = (([], refl, tt), tt)
  repeat-Consumes step h (suc f) c =
      All-append (Consumes c.rest) _ (c ∷ [])
        (All-concat_map _ c.rest (step c)
          (λ d k.
            All-if c.rest (shorter c d) _ (All-weaken c.rest d _ k (repeat-Consumes step h f d)))
          (h c))
        (([], refl, tt), tt)

  repeat_lazy-Consumes :
      (step : Cursor → List Cursor) → Steps step → (f : ℕ) → Steps (repeat_lazy step f)
  unfolding repeat_lazy
  repeat_lazy-Consumes step h zero c = (([], refl, tt), tt)
  repeat_lazy-Consumes step h (suc f) c = (
    ([], refl, tt),
    All-concat_map _ c.rest (step c)
        (λ d k.
          All-if c.rest (shorter c d) _ (All-weaken c.rest d _ k (repeat_lazy-Consumes step h f d)))
        (h c),
  )

  All-captured :
      (c : Cursor) (s : Text) (ds : List Cursor)
      → All (Consumes s) ds
      → All (Consumes s) (captured c ds)
  All-captured c s [] h = tt
  All-captured c s (d ∷ ds) (h, hs) = (h, All-captured c s ds hs)

  run-Consumes : (r : Regex) → Within r → Steps (run r)
  unfolding run
  run-Consumes empty w c = (([], refl, tt), tt)
  run-Consumes (char p) w c = advance-Consumes p c.capture c.rest w
  run-Consumes (seq r s) (v, w) c =
      All-concat_map (run s) c.rest (run r c)
        (λ d k. All-weaken c.rest d (run s d) k (run-Consumes s w d)) (run-Consumes r v c)
  run-Consumes (alt r s) (v, w) c =
      All-append (Consumes c.rest) (run r c) (run s c) (run-Consumes r v c) (run-Consumes s w c)
  run-Consumes (star r) w c = repeat-Consumes (run r) (run-Consumes r w) (length c.rest) c
  run-Consumes (lazy r) w c = repeat_lazy-Consumes (run r) (run-Consumes r w) (length c.rest) c
  run-Consumes (group r) w c = All-captured c c.rest (run r c) (run-Consumes r w c)
  run-Consumes start w c =
      elim (is_some c.before) as (λ b. All (Consumes c.rest) (if b then [] else c ∷ [])) [
        | true ↦ tt
        | false ↦ (([], refl, tt), tt)
      ]
  run-Consumes finish w c =
      elim (nonempty c.rest) as (λ b. All (Consumes c.rest) (if b then [] else c ∷ [])) [
        | true ↦ tt
        | false ↦ (([], refl, tt), tt)
      ]
  run-Consumes boundary w c =
      All-if c.rest (differ (is_word_at c.before) (is_word_at (first c.rest))) (c ∷ [])
        (([], refl, tt), tt)

  -- What `$` accepts ends the text.
  finish-one :
      (s rest : Text) (d : Cursor)
      → d.rest ≡ rest
      → Consumes s d
      → (run finish d ≡ [] → All P s)
      → All P s
  unfolding run
  finish-one s [] d e (used, p, q) ih = rw (p ∙ ap (λ u. used ++ u) e ∙ append-nil used) q
  finish-one s (x ∷ t) d e h ih = ih (rw e)

  finish-All :
      (s : Text) (ds : List Cursor)
      → All (Consumes s) ds
      → nonempty (concat_map (run finish) ds) ≡ true
      → All P s
  finish-All s [] h k = cc
  finish-All s (d ∷ ds) (h, hs) k =
      finish-one s d.rest d refl h (λ e. finish-All s ds hs (rw e at k))

whole-none : (r : Regex) (b : ℕ) (s : Text) → nonempty (run (whole r) (cursor (some b) s)) ≡ false
unfolding run whole
whole-none r b s = refl

test_from-whole : (r : Regex) (b : ℕ) (s : Text) → test_from (whole r) (some b) s ≡ false
unfolding test_from
test_from-whole r b [] = whole-none r b []
test_from-whole r b (c ∷ s) = rw (whole-none r b (c ∷ s)) (test_from-whole r c s)

-- An anchored pattern is tried at the start only.
pub test-whole :
    (r : Regex) (s : Text) → test (whole r) s ≡ nonempty (run (whole r) (cursor none s))
unfolding test test_from
test-whole r [] = refl
test-whole r (c ∷ s) = rw (test_from-whole r c s) (or-false _)
  where
    or-false : (b : Bool) → (b || false) ≡ b
    or-false true = refl
    or-false false = refl

whole-run :
    (r : Regex) (s : Text)
    → test (whole r) s ≡ true
    → nonempty (concat_map (run finish) (run r (cursor none s)) ++ []) ≡ true
unfolding run whole
whole-run r s h = sym (test-whole r s) ∙ h

pub test-whole-All :
    (P : ℕ → Type 0) (r : Regex) → Within P r → (s : Text) → test (whole r) s ≡ true → All P s
test-whole-All P r w s h =
    finish-All P s (run r (cursor none s)) (run-Consumes P r w (cursor none s))
      (rw (append-nil (concat_map (run finish) (run r (cursor none s)))) at (whole-run r s h))
