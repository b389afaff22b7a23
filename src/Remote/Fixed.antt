-- ===== src/Remote/Fixed.antt =====
-- Routes that redaction leaves as they are.
use nginx_admin.Common.{
  ◌≡◌, refl, ap, ap₂, ◌∙◌, sym, Bool, true, false, some, List, [], ◌∷◌, Text, All, if◌then◌else◌,
  ◌===◌, Bool-cases, inl, inr, subst, ===_iff, some_path,
}
use nginx_admin.Common.Keyed.{find_key, remove_key, replace_key}
use nginx_admin.Secrets.{redact_potential_secrets}
use nginx_admin.Remote.Types.{Route, id_of}
use nginx_admin.Remote.Drafts.{Ambient, toggled}
use nginx_admin.Remote.Local.{sanitize_route, sanitize_routes}

-- No text of the route looks like a secret.
abbrev pub IsFixed : Route → Type 0
IsFixed r = sanitize_route r ≡ r

pub sanitize_routes-All : (rs : List Route) → All IsFixed rs → sanitize_routes rs ≡ rs
unfolding sanitize_routes
sanitize_routes-All [] h = refl
sanitize_routes-All (r ∷ rs) (h, hs) = ap₂ (λ x xs. x ∷ xs) h (sanitize_routes-All rs hs)

module _ (k : Text) where
  pub remove_key-All : (rs : List Route) → All IsFixed rs → All IsFixed (remove_key id_of k rs)
  unfolding remove_key
  remove_key-All [] h = tt
  remove_key-All (r ∷ rs) (h, hs) =
      elim (r.id === k)
        as (λ b. All IsFixed (if b then remove_key id_of k rs else r ∷ remove_key id_of k rs)) [
          | true ↦ remove_key-All rs hs
          | false ↦ (h, remove_key-All rs hs)
        ]

  pub replace_key-All :
      (v : Route) (rs : List Route)
      → IsFixed v
      → All IsFixed rs
      → All IsFixed (replace_key id_of k v rs)
  unfolding replace_key
  replace_key-All v [] e h = tt
  replace_key-All v (r ∷ rs) e (h, hs) = (
    (elim (r.id === k) as (λ b. IsFixed (if b then v else r)) [ true ↦ e | false ↦ h ]),
    replace_key-All v rs e hs,
  )

  pub find_key-Fixed :
      (rs : List Route) (r : Route) → find_key id_of k rs ≡ some r → All IsFixed rs → IsFixed r
  unfolding find_key
  find_key-Fixed [] r e h = cc
  find_key-Fixed (x ∷ rs) r e (h, hs) = elim (Bool-cases (x.id === k)) [
    | inl same ↦ let eq : x ≡ r = some_path (rw same at e) in subst IsFixed eq h
    | inr other ↦ find_key-Fixed rs r (rw other at e) hs
  ]

pub find_key-id : (k : Text) (rs : List Route) (r : Route) → find_key id_of k rs ≡ some r → r.id ≡ k
unfolding find_key
find_key-id k [] r e = cc
find_key-id k (x ∷ rs) r e = elim (Bool-cases (x.id === k)) [
  | inl same ↦
      let eq : x ≡ r = some_path (rw same at e) in sym (ap id_of eq) ∙ (===_iff x.id k).0 same
  | inr other ↦ find_key-id k rs r (rw other at e)
]

pub toggled-Fixed :
    (env : Ambient) (enabled : Bool) (current : Route)
    → redact_potential_secrets env.now ≡ env.now
    → IsFixed current
    → IsFixed (toggled env enabled current)
unfolding toggled sanitize_route
toggled-Fixed env enabled current now e =
    cc (ap (λ r. r.id) e, ap (λ r. r.host) e, ap (λ r. r.destination) e)
