-- ===== src/Entities/Valid.antt =====
-- What a route that `RouteSchema` accepts satisfies.
use nginx_admin.Common.{
  ◌≡◌, refl, sym, ap, ◌∙◌, Bool, true, false, not, ◌&&◌, ◌||◌, none, List, [], ◌∷◌, arith, ◌==◌,
  subst,
}
use nginx_admin.Zod.{Issue, success, Zod}
use nginx_admin.Zod.Inversion.{parse-success}
use nginx_admin.Entities.Types.{Route}
use nginx_admin.Entities.Schemas.{
  is_given, is_blank, add_issue_if, is_nil, paths_of, duplicates, clear_ssl, route_issues,
  refine_route, route_fields, route_schema,
}
use nginx_admin.Entities.Duplicates.{Distinct, duplicates-eq-nil_iff}

-- The rules of the `superRefine` of `RouteSchema`, on the parsed route.
pub record IsValid (route : Route) : Type 0 where
  pub certified :
      route.ssl ≡ true
      → (is_given route.ssl_certificate ≡ true) × (is_given route.ssl_certificate_key ≡ true)
  pub cleared :
      route.ssl ≡ false → (route.ssl_certificate ≡ none) × (route.ssl_certificate_key ≡ none)
  pub proxy_alone : is_given route.proxy_pass ≡ true → route.locations ≡ []
  pub rooted : is_given route.proxy_pass ≡ false → is_blank route.root ≡ false
  pub https_port : route.port ≡ 443 → route.ssl ≡ true
  pub http_port : route.port ≡ 80 → route.ssl ≡ false
  pub distinct : Distinct (paths_of route.locations)

add_issue_if-nil :
    (b : Bool) (i : Issue) (is : List Issue) → add_issue_if b i is ≡ [] → (b ≡ false) × (is ≡ [])
add_issue_if-nil true i is e = cc
add_issue_if-nil false i is e = (refl, e)

nil_of_is_nil : {A : Type 0} (xs : List A) → not (is_nil xs) ≡ false → xs ≡ []
nil_of_is_nil [] h = refl
nil_of_is_nil (x ∷ xs) h = cc

module _ (r : Route) where
  -- The conditions of the six issues, each of them false.
  record NoIssue : Type 0 where
    certified :
        (r.ssl && (not (is_given r.ssl_certificate) || not (is_given r.ssl_certificate_key)))
        ≡ false
    proxy_alone : (is_given r.proxy_pass && not (is_nil r.locations)) ≡ false
    rooted : (not (is_given r.proxy_pass) && is_blank r.root) ≡ false
    https_port : (r.port == 443 && not r.ssl) ≡ false
    http_port : (r.port == 80 && r.ssl) ≡ false
    distinct : not (is_nil (duplicates (paths_of r.locations))) ≡ false

  route_issues-NoIssue : route_issues r ≡ [] → NoIssue
  unfolding route_issues
  route_issues-NoIssue e =
      let (certified, e1) = add_issue_if-nil _ _ _ e in
      let (proxy_alone, e2) = add_issue_if-nil _ _ _ e1 in
      let (rooted, e3) = add_issue_if-nil _ _ _ e2 in
      let (https_port, e4) = add_issue_if-nil _ _ _ e3 in
      let (http_port, e5) = add_issue_if-nil _ _ _ e4 in
      let (distinct, e6) = add_issue_if-nil _ _ _ e5 in
      record {
        certified = certified;
        proxy_alone = proxy_alone;
        rooted = rooted;
        https_port = https_port;
        http_port = http_port;
        distinct = distinct;
      }

  clear_ssl-locations : (clear_ssl r).locations ≡ r.locations
  unfolding clear_ssl
  clear_ssl-locations = ground arith

  clear_ssl-proxy_pass : (clear_ssl r).proxy_pass ≡ r.proxy_pass
  unfolding clear_ssl
  clear_ssl-proxy_pass = ground arith

  nil_when_proxied : NoIssue → is_given r.proxy_pass ≡ true → r.locations ≡ []
  nil_when_proxied n h = nil_of_is_nil r.locations (ground arith)

  NoIssue-Distinct : NoIssue → Distinct (paths_of r.locations)
  NoIssue-Distinct n = (duplicates-eq-nil_iff _).0 (nil_of_is_nil _ n.distinct)

  NoIssue-IsValid : NoIssue → IsValid (clear_ssl r)
  unfolding clear_ssl
  NoIssue-IsValid n = record {
    certified = ground arith;
    cleared = ground arith;
    proxy_alone = λ h. clear_ssl-locations ∙ nil_when_proxied n (rw clear_ssl-proxy_pass at h);
    rooted = ground arith;
    https_port = ground arith;
    http_port = ground arith;
    distinct = subst (λ ls. Distinct (paths_of ls)) (sym clear_ssl-locations) (NoIssue-Distinct n);
  }

refined_IsValid : (w x : Route) → refine_route w ≡ (x, []) → IsValid x
unfolding refine_route
refined_IsValid w x e =
    subst IsValid (ap (λ p. p.0) e) (NoIssue-IsValid w (route_issues-NoIssue w (ap (λ p. p.1) e)))

-- A route that `RouteSchema` accepts obeys its rules: SSL comes with a certificate and a key and
-- without SSL both are dropped; a proxy target excludes locations and its absence requires a root
-- that is not blank; port 443 has SSL and port 80 has none; no two locations have one path.
pub route_schema-IsValid :
    (zod : Zod) (route parsed : Route) → route_schema zod route ≡ success parsed → IsValid parsed
unfolding route_schema
route_schema-IsValid zod route parsed e =
    let (w, fields, refined) =
      parse-success zod Route (route_fields zod) refine_route route parsed e in
    refined_IsValid w parsed refined
