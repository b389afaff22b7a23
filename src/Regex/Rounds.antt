-- ===== src/Regex/Rounds.antt =====
-- The rounds of a loop in a pattern: the length of the text is enough for them.
use nginx_admin.Common.{
  ℕ, zero, suc, ◌≤◌, ◌≡◌, refl, ap, ap₂, sym, ◌∙◌, Bool, true, false, List, [], ◌∷◌, ◌++◌, ltb→lt,
  length, if◌then◌else◌, arith,
}
use nginx_admin.Regex.Defs.{
  Regex, star, lazy, Cursor, concat_map, shorter, repeat, repeat_lazy, run,
}

concat_map-cong :
    (f g : Cursor → List Cursor) (ds : List Cursor)
    → ((d : Cursor) → f d ≡ g d)
    → concat_map f ds ≡ concat_map g ds
concat_map-cong f g [] h = refl
concat_map-cong f g (d ∷ ds) h = ap₂ (λ x y. x ++ y) (h d) (concat_map-cong f g ds h)

-- What a round goes on with, by the function for the rounds after it.
abbrev next : (Cursor → List Cursor) → Cursor → Cursor → List Cursor
next more c d = if shorter c d then more d else []

next-nil : (more : Cursor → List Cursor) (c d : Cursor) → length c.rest ≤ 0 → next more c d ≡ []
next-nil more c d h = ground arith

spent :
    (more : Cursor → List Cursor) (c : Cursor) (ds : List Cursor)
    → length c.rest ≤ 0
    → concat_map (next more c) ds ≡ []
spent more c [] h = refl
spent more c (d ∷ ds) h = ap₂ (λ x y. x ++ y) (next-nil more c d h) (spent more c ds h)

guarded :
    (b : Bool) (x y : List Cursor)
    → (b ≡ true → x ≡ y)
    → (if b then x else []) ≡ (if b then y else [])
guarded true x y h = h refl
guarded false x y h = refl

-- Two amounts of rounds, each at least the length of the text, give the same matches.
repeat-enough :
    (step : Cursor → List Cursor) (f g : ℕ) (c : Cursor)
    → length c.rest ≤ f
    → length c.rest ≤ g
    → repeat step f c ≡ repeat step g c
unfolding repeat
repeat-enough step zero zero c p q = refl
repeat-enough step zero (suc g) c p q =
    sym (ap (λ ds. ds ++ c ∷ []) (spent (repeat step g) c (step c) p))
repeat-enough step (suc f) zero c p q = ap (λ ds. ds ++ c ∷ []) (spent (repeat step f) c (step c) q)
repeat-enough step (suc f) (suc g) c p q =
    ap (λ ds. ds ++ c ∷ [])
      (concat_map-cong _ _ (step c) (λ d.
        guarded (shorter c d) (repeat step f d) (repeat step g d) (λ e.
          let lt = ltb→lt (length d.rest) (length c.rest) e in
          repeat-enough step f g d (omega arith) (omega arith))))

repeat_lazy-enough :
    (step : Cursor → List Cursor) (f g : ℕ) (c : Cursor)
    → length c.rest ≤ f
    → length c.rest ≤ g
    → repeat_lazy step f c ≡ repeat_lazy step g c
unfolding repeat_lazy
repeat_lazy-enough step zero zero c p q = refl
repeat_lazy-enough step zero (suc g) c p q =
    sym (ap (λ ds. c ∷ ds) (spent (repeat_lazy step g) c (step c) p))
repeat_lazy-enough step (suc f) zero c p q =
    ap (λ ds. c ∷ ds) (spent (repeat_lazy step f) c (step c) q)
repeat_lazy-enough step (suc f) (suc g) c p q =
    ap (λ ds. c ∷ ds)
      (concat_map-cong _ _ (step c) (λ d.
        guarded (shorter c d) (repeat_lazy step f d) (repeat_lazy step g d) (λ e.
          let lt = ltb→lt (length d.rest) (length c.rest) e in
          repeat_lazy-enough step f g d (omega arith) (omega arith))))

-- The bound never ends a loop: `r*` matches as its round that is followed by `r*` again, whenever
-- the round consumed a character, before it matches nothing; and `r*?` the other way round.
run-loops :
    (r : Regex) (c : Cursor)
    → (run (star r) c
        ≡ concat_map (λ d. if shorter c d then run (star r) d else []) (run r c) ++ c ∷ [])
      × (run (lazy r) c
          ≡ c ∷ concat_map (λ d. if shorter c d then run (lazy r) d else []) (run r c))
unfolding run repeat repeat_lazy
run-loops r c = (
  repeat-enough (run r) (length c.rest) (suc (length c.rest)) c (omega arith) (omega arith)
      ∙ ap (λ ds. ds ++ c ∷ [])
          (concat_map-cong _ _ (run r c) (λ d. guarded (shorter c d) _ _ (λ e.
            let lt = ltb→lt (length d.rest) (length c.rest) e in
            repeat-enough (run r) (length c.rest) (length d.rest) d (omega arith) (omega arith)))),
  repeat_lazy-enough (run r) (length c.rest) (suc (length c.rest)) c (omega arith) (omega arith)
      ∙ ap (λ ds. c ∷ ds)
          (concat_map-cong _ _ (run r c) (λ d. guarded (shorter c d) _ _ (λ e.
            let lt = ltb→lt (length d.rest) (length c.rest) e in
            repeat_lazy-enough (run r) (length c.rest) (length d.rest) d (omega arith)
              (omega arith)))),
)
