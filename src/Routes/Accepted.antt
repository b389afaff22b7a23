-- ===== src/Routes/Accepted.antt =====
-- The routes that the use cases let through: those that `RouteSchema` accepts.
use nginx_admin.Common.{
  ◌≡◌, refl, ap, ap₂, ◌∙◌, Bool, true, false, Option, none, some, List, [], Text, arith,
}
use nginx_admin.Zod.{success, Zod}
use nginx_admin.Zod.Inversion.{parse-success}
use nginx_admin.Entities.{LocationConfig, AdvancedConfig, Metadata, Route}
use nginx_admin.Entities.Schemas.{
  with_fields, route_fields, refine_route, clear_ssl, route_issues, route_schema,
}

abbrev pub Accepted : Zod → Route → Type 0
Accepted zod r = (x : Route) × (route_schema zod r ≡ success x)

-- The three fields that no rule of the schema reads.
abbrev pub relabel : Text → Bool → Option Metadata → Route → Route
relabel i b m r = record r { id = i; enabled = b; metadata = m }

module _ (i : Text) (b : Bool) (m : Option Metadata) where
  with_fields-relabel :
      (r w : Route) (ok : Bool) (ls : Option (List LocationConfig))
      (adv : Option (Option AdvancedConfig))
      → with_fields r ok ls adv ≡ some w
      → with_fields (relabel i b m r) ok ls adv ≡ some (relabel i b m w)
  with_fields-relabel r w true (some ls) (some adv) e = ground arith
  with_fields-relabel r w true none adv e = ground arith
  with_fields-relabel r w true (some ls) none e = ground arith
  with_fields-relabel r w false ls adv e = ground arith

  clear_ssl-relabel : (r : Route) → clear_ssl (relabel i b m r) ≡ relabel i b m (clear_ssl r)
  unfolding clear_ssl
  clear_ssl-relabel r = ground arith

  route_issues-relabel : (r : Route) → route_issues (relabel i b m r) ≡ route_issues r
  unfolding route_issues
  route_issues-relabel r = refl

  refine-relabel :
      (w x : Route)
      → refine_route w ≡ (x, [])
      → refine_route (relabel i b m w) ≡ (relabel i b m x, [])
  unfolding refine_route
  refine-relabel w x e =
      ap₂ (λ y is. (y, is)) (clear_ssl-relabel w ∙ ap (λ p. relabel i b m p.0) e)
        (route_issues-relabel w ∙ ap (λ p. p.1) e)

  pub Accepted-relabel : (zod : Zod) (r : Route) → Accepted zod r → Accepted zod (relabel i b m r)
  unfolding route_schema
  Accepted-relabel zod r (x, e) =
      let (w, fields, refined) = parse-success zod Route (route_fields zod) refine_route r x e in
      (
        relabel i b m x,
        zod.parse_accepted Route (route_fields zod) refine_route (relabel i b m r) (relabel i b m w)
            (relabel i b m x) (unfold route_fields in with_fields-relabel r w _ _ _ fields)
            (refine-relabel w x refined),
      )
