-- ===== src/Zod/Inversion.antt =====
-- What follows from a parse by the package `zod` that succeeded or failed.
use nginx_admin.Common.{
  ◌≡◌, refl, sym, ◌∙◌, ap, Option, some, List, [], ◌∷◌, Option-cases, inl, inr, ◌⊎◌,
}
use nginx_admin.Zod.{Issue, ParseResult, success, Fails, Zod}

pub not-Fails : {V : Type 0} (r : ParseResult V) {x : V} → r ≡ success x → Fails r → ⊥
not-Fails r e (i, is, f) = cc

module _ (zod : Zod) (V : Type 0) (fields : V → Option V) (refine : V → V × List Issue) where
  issues-cases :
      (w : V)
      → ((x : V) × (refine w ≡ (x, [])))
        ⊎ ((x : V) × (i : Issue) × (is : List Issue) × (refine w ≡ (x, i ∷ is)))
  issues-cases w = split (refine w).0 (refine w).1 refl
    where
      split :
          (x : V) (l : List Issue)
          → refine w ≡ (x, l)
          → ((x : V) × (refine w ≡ (x, [])))
            ⊎ ((x : V) × (i : Issue) × (is : List Issue) × (refine w ≡ (x, i ∷ is)))
      split x [] e = inl (x, e)
      split x (i ∷ is) e = inr (x, i, is, e)

  -- A parse that succeeds had fields that all parse and no issue.
  pub parse-success :
      (v x : V)
      → zod.parse_object V fields refine v ≡ success x
      → (w : V) × (fields v ≡ some w) × (refine w ≡ (x, []))
  parse-success v x e = elim (Option-cases (fields v)) [
    | inl missing ↦ absurd (not-Fails _ e (zod.parse_refused V fields refine v missing))
    | inr (w, found) ↦ elim (issues-cases w) [
      | inl (y, ok) ↦
          let same : success y ≡ success x =
            sym (zod.parse_accepted V fields refine v w y found ok) ∙ e in
          let eq : y ≡ x = cc in (w, found, ok ∙ ap (λ z. (z, [])) eq)
      | inr (y, i, is, bad) ↦
          absurd (not-Fails _ e (zod.parse_refined V fields refine v w y i is found bad))
    ]
  ]
