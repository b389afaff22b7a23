-- ===== src/Preview/Layout.antt =====
-- packages/core/src/services/ConfigGenerator.ts: the blank lines and the end of the text.
use nginx_admin.Common.{
  ℕ, suc, ltb, Bool, true, false, ◌&&◌, ◌==◌, List, [], ◌∷◌, ◌++◌, Text, text, if◌then◌else◌,
  includes, starts_with, trim_end, is_space, join, ◌≡◌, refl, ◌∙◌, ap, append_assoc, arith,
}
use nginx_admin.Entities.{Route}
use nginx_admin.Preview.{config_lines, squeeze, generate_config_preview}

-- At most `2 - n` line feeds at the start, and nowhere three in a row.
abbrev calm : ℕ → Text → Bool
calm n [] = true
calm n (c ∷ s) = if c == 10 then ltb n 2 && calm (suc n) s else calm 0 s

squeeze-calm : (n : ℕ) (s : Text) → calm n (squeeze n s) ≡ true
unfolding squeeze
squeeze-calm n [] = refl
squeeze-calm n (c ∷ s) = ground (arith, squeeze-calm (suc n) s, squeeze-calm n s, squeeze-calm 0 s)

-- Without line feeds at its end, a text is squeezed apart from what follows.
squeeze-brace : (n : ℕ) (s : Text) → squeeze n (s ++ text "}") ≡ squeeze n s ++ text "}"
unfolding squeeze
squeeze-brace n [] = refl
squeeze-brace n (c ∷ s) =
    ground (arith, squeeze-brace (suc n) s, squeeze-brace n s, squeeze-brace 0 s)

trim_end-brace : (s : Text) → trim_end (s ++ text "}") ≡ s ++ text "}"
unfolding trim_end is_space
trim_end-brace [] = refl
trim_end-brace (c ∷ []) = refl
trim_end-brace (c ∷ d ∷ s) = rw (trim_end-brace (d ∷ s))

calm-brace : (n : ℕ) (s : Text) → calm n s ≡ true → calm n (s ++ text "}\n") ≡ true
calm-brace n [] h = refl
calm-brace n (c ∷ s) h = ground (arith, calm-brace (suc n) s, calm-brace 0 s)

starts_with-calm : (n : ℕ) (s : Text) → calm n s ≡ true → starts_with s (10 ∷ 10 ∷ 10 ∷ []) ≡ false
unfolding starts_with
starts_with-calm n [] h = refl
starts_with-calm n (c ∷ []) h = ground arith
starts_with-calm n (c ∷ d ∷ []) h = ground arith
starts_with-calm n (c ∷ d ∷ e ∷ s) h = ground arith

includes-calm : (n : ℕ) (s : Text) → calm n s ≡ true → includes s (10 ∷ 10 ∷ 10 ∷ []) ≡ false
unfolding includes
includes-calm n [] h = unfold starts_with in refl
includes-calm n (c ∷ s) h =
    ground (arith, starts_with-calm n (c ∷ s), includes-calm (suc n) s, includes-calm 0 s)

join-brace :
    (lines : List Text)
    → (body : Text) × (join (10 ∷ []) (lines ++ text "}" ∷ []) ≡ body ++ text "}")
unfolding join
join-brace [] = ([], refl)
join-brace (x ∷ []) = (x ++ 10 ∷ [], rw append_assoc)
join-brace (x ∷ y ∷ lines) =
    let (body, e) = join-brace (y ∷ lines) in
    (x ++ 10 ∷ body, rw append_assoc (ap (λ t. x ++ 10 ∷ t) e))

generate_lem :
    (route : Route)
    → generate_config_preview route
      ≡ trim_end (squeeze 0 (join (10 ∷ []) (config_lines route ++ text "}" ∷ []))) ++ 10 ∷ []
unfolding generate_config_preview
generate_lem route = refl

-- The preview ends with the closing brace and one line feed behind it, and nowhere in it are there
-- three line feeds in a row, whatever blank lines the blocks and the directives of the route bring.
preview_layout :
    (route : Route)
    → (body : Text) × (generate_config_preview route ≡ body ++ text "}\n")
      × (includes (generate_config_preview route) (10 ∷ 10 ∷ 10 ∷ []) ≡ false)
preview_layout route =
    let (body, e) = join-brace (config_lines route) in
    let shape : generate_config_preview route ≡ squeeze 0 body ++ text "}\n" =
      generate_lem route
      ∙ rw (e, squeeze-brace 0 body, trim_end-brace (squeeze 0 body), append_assoc) in
    (
      squeeze 0 body,
      shape,
      rw shape (includes-calm 0 _ (calm-brace 0 (squeeze 0 body) (squeeze-calm 0 body))),
    )
