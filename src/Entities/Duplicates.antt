-- ===== src/Entities/Duplicates.antt =====
-- The search for repeated location paths in the `superRefine` of `RouteSchema`.
use nginx_admin.Common.{
  ℕ, suc, ◌≤◌, ◌<◌, ◌≡◌, refl, sym, ap, ◌∙◌, ◌≢◌, ◌↔◌, true, List, [], ◌∷◌, ◌++◌, append_assoc,
  Text, ◌===◌, ===_iff, ===_refl, ◌==◌, length, All, All-append, Bool-cases, inl, inr, arith,
  length-append, ==_iff, subst,
}
use nginx_admin.Entities.Schemas.{index_of, duplicates_from, duplicates}

-- No path stands twice in the list.
abbrev pub Distinct : List Text → Type 0
Distinct [] = Unit
Distinct (p ∷ ps) = All (λ q. q ≢ p) ps × Distinct ps

index_of-le :
    (pre : List Text) (p : Text) (ps : List Text) → index_of p (pre ++ p ∷ ps) ≤ length pre
unfolding ◌===◌
index_of-le [] p ps = rw (===_refl p) (omega arith)
index_of-le (q ∷ pre) p ps = elim (Bool-cases (q === p)) [
  | inl e ↦ rw e (omega arith)
  | inr e ↦ rw e (omega (arith, index_of-le pre p ps))
]

index_of-eq :
    (pre : List Text) (p : Text) (ps : List Text)
    → All (λ q. q ≢ p) pre
    → index_of p (pre ++ p ∷ ps) ≡ length pre
index_of-eq [] p ps h = rw (===_refl p)
index_of-eq (q ∷ pre) p ps (new, h) = elim (Bool-cases (q === p)) [
  | inl e ↦ absurd (new ((===_iff q p).0 e))
  | inr e ↦ rw e (ap suc (index_of-eq pre p ps h))
]

duplicates_from-cons :
    (paths : List Text) (i : ℕ) (p : Text) (ps : List Text)
    → duplicates_from paths i (p ∷ ps) ≡ []
    → (index_of p paths ≡ i) × (duplicates_from paths (suc i) ps ≡ [])
duplicates_from-cons paths i p ps h = elim (Bool-cases (index_of p paths == i)) [
  | inl e ↦ ((==_iff _ _).0 e, rw e at h)
  | inr e ↦ let h' = rw e at h in cc
]

duplicates_from-later :
    (pre : List Text) (p : Text) (ps qs : List Text) (i : ℕ)
    → length pre < i
    → duplicates_from (pre ++ p ∷ ps) i qs ≡ []
    → All (λ q. q ≢ p) qs
duplicates_from-later pre p ps [] i h e = tt
duplicates_from-later pre p ps (q ∷ qs) i h e =
    let (here, later) = duplicates_from-cons (pre ++ p ∷ ps) i q qs e in
    (
      λ same.
          let low = index_of-le pre p ps in
          let at_p = subst (λ r. index_of r (pre ++ p ∷ ps) ≡ i) same here in omega arith,
      duplicates_from-later pre p ps qs (suc i) (omega arith) later,
    )

snoc : (pre : List Text) (p : Text) (ps : List Text) → pre ++ p ∷ ps ≡ (pre ++ p ∷ []) ++ ps
snoc pre p ps = sym (append_assoc pre (p ∷ []) ps)

length-snoc : (pre : List Text) (p : Text) → length (pre ++ p ∷ []) ≡ suc (length pre)
length-snoc pre p = omega (arith, length-append pre (p ∷ []))

duplicates_from-Distinct :
    (pre ps : List Text) (i : ℕ)
    → length pre ≡ i
    → duplicates_from (pre ++ ps) i ps ≡ []
    → Distinct ps
duplicates_from-Distinct pre [] i n e = tt
duplicates_from-Distinct pre (p ∷ ps) i n e =
    let (here, later) = duplicates_from-cons (pre ++ p ∷ ps) i p ps e in
    (
      duplicates_from-later pre p ps ps (suc i) (omega arith) later,
      duplicates_from-Distinct (pre ++ p ∷ []) ps (suc i) (length-snoc pre p ∙ ap suc n)
          (subst (λ l. duplicates_from l (suc i) ps ≡ []) (snoc pre p ps) later),
    )

widen :
    (pre : List Text) (p : Text) (rs : List Text)
    → All (λ r. All (λ q. q ≢ r) pre) rs
    → All (λ q. q ≢ p) rs
    → All (λ r. All (λ q. q ≢ r) (pre ++ p ∷ [])) rs
widen pre p [] h k = tt
widen pre p (r ∷ rs) (h, hs) (k, ks) =
    (All-append (λ q. q ≢ r) pre (p ∷ []) h ((λ e. k (sym e)), tt), widen pre p rs hs ks)

Distinct-duplicates_from :
    (pre ps : List Text) (i : ℕ)
    → length pre ≡ i
    → All (λ p. All (λ q. q ≢ p) pre) ps
    → Distinct ps
    → duplicates_from (pre ++ ps) i ps ≡ []
Distinct-duplicates_from pre [] i n h d = refl
Distinct-duplicates_from pre (p ∷ ps) i n (new, h) (other, d) =
    let found : (index_of p (pre ++ p ∷ ps) == i) ≡ true =
      (==_iff _ _).1 (index_of-eq pre p ps new ∙ n) in
    rw found (
      subst (λ l. duplicates_from l (suc i) ps ≡ []) (sym (snoc pre p ps))
        (Distinct-duplicates_from (pre ++ p ∷ []) ps (suc i) (length-snoc pre p ∙ ap suc n)
          (widen pre p ps h other) d))

All-trivial : (rs : List Text) → All (λ r. Unit {0}) rs
All-trivial [] = tt
All-trivial (r ∷ rs) = (tt, All-trivial rs)

-- `duplicates` is empty exactly when no path stands twice.
pub duplicates-eq-nil_iff : (ps : List Text) → (duplicates ps ≡ []) ↔ Distinct ps
unfolding duplicates
duplicates-eq-nil_iff ps =
    (duplicates_from-Distinct [] ps 0 refl, Distinct-duplicates_from [] ps 0 refl (All-trivial ps))
