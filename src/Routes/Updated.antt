-- ===== src/Routes/Updated.antt =====
-- packages/core/src/useCases/routes.ts: what each property of an updated route is.
use nginx_admin.Common.{ℕ, ◌≡◌, refl, ◌∙◌, ap, Bool, Option, none, some, List, [], ◌∷◌, Text}
use nginx_admin.Entities.{LocationConfig, AdvancedConfig, Metadata, Route}
use nginx_admin.Routes.UseCases.{
  Update, set_domain, set_root, set_port, set_enabled, set_ssl, set_ssl_certificate,
  set_ssl_certificate_key, set_proxy_pass, set_locations, set_advanced, set_metadata, assign,
  assign_all, touched, updated_route,
}

-- What an update says of one property.
abbrev pub Reads : Type 0 → Type 0
Reads A = Update → Option A

abbrev pub domain_in : Reads Text
domain_in (set_domain v) = some v
domain_in _ = none

abbrev pub port_in : Reads ℕ
port_in (set_port v) = some v
port_in _ = none

abbrev pub root_in : Reads Text
root_in (set_root v) = some v
root_in _ = none

abbrev pub enabled_in : Reads Bool
enabled_in (set_enabled v) = some v
enabled_in _ = none

abbrev pub ssl_in : Reads Bool
ssl_in (set_ssl v) = some v
ssl_in _ = none

abbrev pub certificate_in : Reads (Option Text)
certificate_in (set_ssl_certificate v) = some v
certificate_in _ = none

abbrev pub key_in : Reads (Option Text)
key_in (set_ssl_certificate_key v) = some v
key_in _ = none

abbrev pub proxy_pass_in : Reads (Option Text)
proxy_pass_in (set_proxy_pass v) = some v
proxy_pass_in _ = none

abbrev pub locations_in : Reads (List LocationConfig)
locations_in (set_locations v) = some v
locations_in _ = none

abbrev pub advanced_in : Reads (Option AdvancedConfig)
advanced_in (set_advanced v) = some v
advanced_in _ = none

abbrev pub or_old : {A : Type 0} → Option A → A → A
or_old none old = old
or_old (some v) old = v

-- The last value that the updates give to the property, or else the old one.
abbrev pub last_in : {A : Type 0} → Reads A → List Update → A → A
last_in reads [] old = old
last_in reads (u ∷ us) old = last_in reads us (or_old (reads u) old)

assign_all-last_in :
    {A : Type 0} (get : Route → A) (reads : Reads A)
    → ((u : Update) (r : Route) → get (assign u r) ≡ or_old (reads u) (get r))
    → (us : List Update) (r : Route) → get (assign_all us r) ≡ last_in reads us (get r)
unfolding assign_all
assign_all-last_in get reads h [] r = refl
assign_all-last_in get reads h (u ∷ us) r =
    assign_all-last_in get reads h us (assign u r) ∙ ap (last_in reads us) (h u r)

-- One update: it leaves the id, and gives each property what it says of it.
Assigned : Update → Route → Type 0
Assigned u r =
    ((assign u r).id ≡ r.id)
    × ((assign u r).domain ≡ or_old (domain_in u) r.domain)
    × ((assign u r).port ≡ or_old (port_in u) r.port)
    × ((assign u r).root ≡ or_old (root_in u) r.root)
    × ((assign u r).enabled ≡ or_old (enabled_in u) r.enabled)
    × ((assign u r).ssl ≡ or_old (ssl_in u) r.ssl)
    × ((assign u r).ssl_certificate ≡ or_old (certificate_in u) r.ssl_certificate)
    × ((assign u r).ssl_certificate_key ≡ or_old (key_in u) r.ssl_certificate_key)
    × ((assign u r).proxy_pass ≡ or_old (proxy_pass_in u) r.proxy_pass)
    × ((assign u r).locations ≡ or_old (locations_in u) r.locations)
    × ((assign u r).advanced ≡ or_old (advanced_in u) r.advanced)

assign-Assigned : (u : Update) (r : Route) → Assigned u r
unfolding Assigned
assign-Assigned (set_domain v) r =
    (refl, refl, refl, refl, refl, refl, refl, refl, refl, refl, refl)
assign-Assigned (set_port v) r = (refl, refl, refl, refl, refl, refl, refl, refl, refl, refl, refl)
assign-Assigned (set_root v) r = (refl, refl, refl, refl, refl, refl, refl, refl, refl, refl, refl)
assign-Assigned (set_enabled v) r =
    (refl, refl, refl, refl, refl, refl, refl, refl, refl, refl, refl)
assign-Assigned (set_ssl v) r = (refl, refl, refl, refl, refl, refl, refl, refl, refl, refl, refl)
assign-Assigned (set_ssl_certificate v) r =
    (refl, refl, refl, refl, refl, refl, refl, refl, refl, refl, refl)
assign-Assigned (set_ssl_certificate_key v) r =
    (refl, refl, refl, refl, refl, refl, refl, refl, refl, refl, refl)
assign-Assigned (set_proxy_pass v) r =
    (refl, refl, refl, refl, refl, refl, refl, refl, refl, refl, refl)
assign-Assigned (set_locations v) r =
    (refl, refl, refl, refl, refl, refl, refl, refl, refl, refl, refl)
assign-Assigned (set_advanced v) r =
    (refl, refl, refl, refl, refl, refl, refl, refl, refl, refl, refl)
assign-Assigned (set_metadata v) r =
    (refl, refl, refl, refl, refl, refl, refl, refl, refl, refl, refl)

assign_all-id : (us : List Update) (r : Route) → (assign_all us r).id ≡ r.id
unfolding assign_all Assigned
assign_all-id [] r = refl
assign_all-id (u ∷ us) r = assign_all-id us (assign u r) ∙ (assign-Assigned u r).0

-- The metadata with the time of the change, if there are any.
abbrev pub restamped : ℕ → Option Metadata → Option Metadata
restamped now none = none
restamped now (some m) = some (record {
  created_at = m.created_at;
  updated_at = now;
  created_by = m.created_by;
  tags = m.tags;
})

touched-restamped : (now : ℕ) (o : Option Metadata) → touched now o ≡ restamped now o
touched-restamped now none = refl
touched-restamped now (some m) = refl

-- What `updateRoute` makes of a route that exists: the id stays, each other property is the last
-- one that the updates give, or else the old one, and the metadata are the old ones with the new
-- time.
pub record Updated (now : ℕ) (us : List Update) (old new : Route) : Type 0 where
  pub id : new.id ≡ old.id
  pub domain : new.domain ≡ last_in domain_in us old.domain
  pub port : new.port ≡ last_in port_in us old.port
  pub root : new.root ≡ last_in root_in us old.root
  pub enabled : new.enabled ≡ last_in enabled_in us old.enabled
  pub ssl : new.ssl ≡ last_in ssl_in us old.ssl
  pub ssl_certificate : new.ssl_certificate ≡ last_in certificate_in us old.ssl_certificate
  pub ssl_certificate_key : new.ssl_certificate_key ≡ last_in key_in us old.ssl_certificate_key
  pub proxy_pass : new.proxy_pass ≡ last_in proxy_pass_in us old.proxy_pass
  pub locations : new.locations ≡ last_in locations_in us old.locations
  pub advanced : new.advanced ≡ last_in advanced_in us old.advanced
  pub metadata : new.metadata ≡ restamped now old.metadata

pub updated_route-Updated :
    (now : ℕ) (us : List Update) (r : Route) → Updated now us r (updated_route now us r)
unfolding updated_route Assigned
updated_route-Updated now us r = record {
  id = assign_all-id us r;
  domain = assign_all-last_in (λ q. q.domain) domain_in (λ u q. (assign-Assigned u q).1) us r;
  port = assign_all-last_in (λ q. q.port) port_in (λ u q. (assign-Assigned u q).2) us r;
  root = assign_all-last_in (λ q. q.root) root_in (λ u q. (assign-Assigned u q).3) us r;
  enabled = assign_all-last_in (λ q. q.enabled) enabled_in (λ u q. (assign-Assigned u q).4) us r;
  ssl = assign_all-last_in (λ q. q.ssl) ssl_in (λ u q. (assign-Assigned u q).5) us r;
  ssl_certificate =
      assign_all-last_in (λ q. q.ssl_certificate) certificate_in (λ u q. (assign-Assigned u q).6) us
        r;
  ssl_certificate_key =
      assign_all-last_in (λ q. q.ssl_certificate_key) key_in (λ u q. (assign-Assigned u q).7) us r;
  proxy_pass =
      assign_all-last_in (λ q. q.proxy_pass) proxy_pass_in (λ u q. (assign-Assigned u q).8) us r;
  locations =
      assign_all-last_in (λ q. q.locations) locations_in (λ u q. (assign-Assigned u q).9) us r;
  advanced =
      assign_all-last_in (λ q. q.advanced) advanced_in (λ u q. (assign-Assigned u q).10) us r;
  metadata = touched-restamped now r.metadata;
}
