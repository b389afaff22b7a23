-- ===== src/Entities/Reparse.antt =====
-- packages/core/src/entities/types.ts: what the schemas make of what they have made.
use nginx_admin.Common.{
  ◌≡◌, refl, sym, ap, ap₂, ◌∙◌, Bool, true, false, not, ◌&&◌, Option, none, some, Text, ◌||◌, List,
  [], ◌∷◌, arith, Bool-cases, inl, inr, some_path, subst, if◌then◌else◌,
}
use nginx_admin.Zod.{Issue, ParseResult, success, failure, Zod, parsed}
use nginx_admin.Zod.Inversion.{parse-success}
use nginx_admin.Entities.Types.{LocationConfig, AdvancedConfig, Route}
use nginx_admin.Entities.Primitives.{time_unit_schema, optionally}
use nginx_admin.Entities.Schemas.{
  location_schema, location_fields, location_ok, refine_location, locations_schema, advanced_schema,
  advanced_fields, refine_advanced, optional_advanced, route_schema, route_fields, refine_route,
  clear_ssl, route_issues, own_fields_ok, is_given, add_issue_if, with_fields, is_blank,
  text_or_empty,
}
use nginx_admin.Entities.Parsed.{Parsed, route_fields-Parsed, parsed-some, with_location-some}

location_fields-same : (l w : LocationConfig) → location_fields l ≡ some w → l ≡ w
unfolding location_fields
location_fields-same l w e = elim (Bool-cases (location_ok l)) [
  | inl ok ↦ some_path (rw ok at e)
  | inr bad ↦ let h = rw bad at e in cc
]

-- What `superRefine` leaves of a setting that a flag governs.
abbrev dropped : Bool → Option Text → Option Text
dropped b o = if not b && is_given o then none else o

dropped-dropped : (b : Bool) (o : Option Text) → dropped b (dropped b o) ≡ dropped b o
dropped-dropped true o = refl
dropped-dropped false none = refl
dropped-dropped false (some s) = ground arith

-- A test behind the flag does not see what was dropped.
tested-dropped :
    (b : Bool) (test : Option Text → Bool) (o : Option Text)
    → (b && test (dropped b o)) ≡ (b && test o)
tested-dropped true test o = refl
tested-dropped false test o = refl

add_issue_if-same :
    {b c : Bool} {is js : List Issue} (i : Issue)
    → b ≡ c
    → is ≡ js
    → add_issue_if b i is ≡ add_issue_if c i js
add_issue_if-same i e h = ap₂ (λ t ks. add_issue_if t i ks) e h

refine_advanced-again :
    (a : AdvancedConfig)
    → (refine_advanced a).1 ≡ []
    → refine_advanced (refine_advanced a).0 ≡ ((refine_advanced a).0, [])
unfolding refine_advanced
refine_advanced-again a e =
    ap₂ (λ x y. (x, y))
      (ap₂ (λ g c. record a { gzip_types = g; cache_valid = c })
        (dropped-dropped a.gzip a.gzip_types) (dropped-dropped a.caching a.cache_valid))
      (add_issue_if-same _
          (tested-dropped a.gzip (λ o. not (is_given o) || is_blank (text_or_empty o)) a.gzip_types)
          (add_issue_if-same _ (tested-dropped a.caching (λ o. not (is_given o)) a.cache_valid)
            refl)
        ∙ e)

optionally-dropped :
    (b : Bool) (o : Option Text)
    → optionally time_unit_schema o ≡ true
    → optionally time_unit_schema (dropped b o) ≡ true
optionally-dropped b o h = ground arith

advanced_fields-same : (a w : AdvancedConfig) → advanced_fields a ≡ some w → a ≡ w
unfolding advanced_fields
advanced_fields-same a w e = ground arith

advanced_fields-again :
    (a w : AdvancedConfig)
    → advanced_fields a ≡ some w
    → advanced_fields (refine_advanced a).0 ≡ some (refine_advanced a).0
unfolding advanced_fields refine_advanced
advanced_fields-again a w e = ground (arith, optionally-dropped a.caching a.cache_valid)

own_fields-cleared :
    (r : Route)
    → own_fields_ok r ≡ true
    → own_fields_ok (record r { ssl_certificate = none; ssl_certificate_key = none }) ≡ true
own_fields-cleared r h = ground arith

clear_ssl-cases :
    (P : Route → Type 0) (r : Route)
    → P r
    → P (record r { ssl_certificate = none; ssl_certificate_key = none })
    → P (clear_ssl r)
unfolding clear_ssl
clear_ssl-cases P r h k = split r.ssl
  where
    split :
        (b : Bool)
        → P (if b then r else record r { ssl_certificate = none; ssl_certificate_key = none })
    split true = h
    split false = k

clear_ssl-clear_ssl : (r : Route) → clear_ssl (clear_ssl r) ≡ clear_ssl r
unfolding clear_ssl
clear_ssl-clear_ssl r = ground arith

and-off : (b x y : Bool) → b ≡ false → (b && x) ≡ (b && y)
and-off true x y h = cc
and-off false x y h = refl

route_issues-certificates :
    (r : Route)
    → r.ssl ≡ false
    → route_issues (record r { ssl_certificate = none; ssl_certificate_key = none })
      ≡ route_issues r
unfolding route_issues
route_issues-certificates r h = add_issue_if-same _ (and-off r.ssl _ _ h) refl

route_issues-clear_ssl : (r : Route) → route_issues (clear_ssl r) ≡ route_issues r
unfolding clear_ssl
route_issues-clear_ssl r = elim (Bool-cases r.ssl) [
  | inl on ↦ ap (λ b. route_issues (if b then r else cleared)) on
  | inr off ↦
      ap (λ b. route_issues (if b then r else cleared)) off ∙ route_issues-certificates r off
]
  where
    cleared : Route
    cleared = record r { ssl_certificate = none; ssl_certificate_key = none }

optional_parse :
    (r : ParseResult AdvancedConfig) (adv : Option AdvancedConfig)
    → (elim (parsed r) [ none ↦ none | some b ↦ some (some b) ]) ≡ some adv
    → (b : AdvancedConfig) × (r ≡ success b) × (some b ≡ adv)
optional_parse (success b) adv e = (b, refl, some_path e)
optional_parse (failure i is) adv e = cc

module _ (zod : Zod) where
  location_schema-same : (l x : LocationConfig) → parsed (location_schema zod l) ≡ some x → x ≡ l
  unfolding location_schema refine_location
  location_schema-same l x e =
      let (w, fields, refined) =
        parse-success zod LocationConfig location_fields refine_location l x (parsed-some _ e) in
      sym (ap (λ p. p.0) refined) ∙ sym (location_fields-same l w fields)

  locations_schema-same :
      (ls xs : List LocationConfig) → locations_schema zod ls ≡ some xs → xs ≡ ls
  unfolding locations_schema
  locations_schema-same [] xs e = sym (some_path e)
  locations_schema-same (l ∷ ls) xs e =
      let (x, rest, first, later, same) =
        with_location-some (parsed (location_schema zod l)) (locations_schema zod ls) xs e in
      sym same
      ∙ ap₂ (λ y ys. y ∷ ys) (location_schema-same l x first) (locations_schema-same ls rest later)

  advanced_schema-again :
      (a b : AdvancedConfig) → advanced_schema zod a ≡ success b → advanced_schema zod b ≡ success b
  unfolding advanced_schema
  advanced_schema-again a b e =
      let (w, fields, refined) =
        parse-success zod AdvancedConfig advanced_fields refine_advanced a b e in
      let same : (refine_advanced a).0 ≡ b =
        ap (λ v. (refine_advanced v).0) (advanced_fields-same a w fields) ∙ ap (λ p. p.0) refined in
      let none_left : (refine_advanced a).1 ≡ [] =
        ap (λ v. (refine_advanced v).1) (advanced_fields-same a w fields) ∙ ap (λ p. p.1) refined in
      zod.parse_accepted AdvancedConfig advanced_fields refine_advanced b b b
        (subst (λ v. advanced_fields v ≡ some v) same (advanced_fields-again a w fields))
        (subst (λ v. refine_advanced v ≡ (v, [])) same (refine_advanced-again a none_left))

  optional_advanced-again :
      (o adv : Option AdvancedConfig)
      → optional_advanced zod o ≡ some adv
      → optional_advanced zod adv ≡ some adv
  unfolding optional_advanced
  optional_advanced-again none adv e =
      subst (λ o. optional_advanced zod o ≡ some o) (some_path e) refl
  optional_advanced-again (some a) adv e =
      let (b, success_b, same) = optional_parse (advanced_schema zod a) adv e in
      subst (λ o. optional_advanced zod o ≡ some o) same
        (rw (optional_advanced, advanced_schema-again a b success_b) refl)

  -- The properties of the parsed object parse to themselves.
  fields_parse :
      (x : Route)
      → own_fields_ok x ≡ true
      → locations_schema zod x.locations ≡ some x.locations
      → optional_advanced zod x.advanced ≡ some x.advanced
      → route_fields zod x ≡ some x
  unfolding route_fields
  fields_parse x own locations advanced =
      ap
        (λ b. with_fields x b (locations_schema zod x.locations) (optional_advanced zod x.advanced))
        own
      ∙ ap₂ (λ ls adv. with_fields x true ls adv) locations advanced

  route_fields-again :
      (route w : Route) → Parsed zod route w → route_fields zod (clear_ssl w) ≡ some (clear_ssl w)
  route_fields-again route w p =
      let same_ls : p.ls ≡ route.locations =
        locations_schema-same route.locations p.ls p.locations in
      let locations : locations_schema zod w.locations ≡ some w.locations =
        subst (λ v. locations_schema zod v.locations ≡ some v.locations) p.same
          (ap (locations_schema zod) same_ls ∙ p.locations) in
      let advanced : optional_advanced zod w.advanced ≡ some w.advanced =
        subst (λ v. optional_advanced zod v.advanced ≡ some v.advanced) p.same
          (optional_advanced-again route.advanced p.adv p.advanced) in
      let own : own_fields_ok w ≡ true = subst (λ v. own_fields_ok v ≡ true) p.same p.own in
      clear_ssl-cases (λ v. route_fields zod v ≡ some v) w (fields_parse w own locations advanced)
        (fields_parse (record w { ssl_certificate = none; ssl_certificate_key = none })
          (own_fields-cleared w own) locations advanced)

  -- What `RouteSchema` has parsed is a value of its output type: the schema accepts it once more
  -- and gives it back unchanged.
  pub route_schema-route_schema :
      (route x : Route) → route_schema zod route ≡ success x → route_schema zod x ≡ success x
  unfolding route_schema refine_route
  route_schema-route_schema route x e =
      let (w, fields, refined) =
        parse-success zod Route (route_fields zod) refine_route route x e in
      let cleared : clear_ssl w ≡ x = ap (λ p. p.0) refined in
      zod.parse_accepted Route (route_fields zod) refine_route x x x
        (subst (λ y. route_fields zod y ≡ some y) cleared
          (route_fields-again route w (route_fields-Parsed zod route w fields)))
        (subst (λ y. refine_route y ≡ (y, [])) cleared
          (ap₂ (λ y is. (y, is)) (clear_ssl-clear_ssl w)
            (route_issues-clear_ssl w ∙ ap (λ p. p.1) refined)))
