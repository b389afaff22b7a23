-- ===== src/Remote/Local/Refines.antt =====
-- The executor over the browser's storage behaves as the one in memory.
use nginx_admin.Common.{
  ◌≡◌, refl, ap, ◌∙◌, sym, Bool, true, Option, List, [], ◌∷◌, Text, All, All-append, if◌then◌else◌,
  Option-cases, inl, inr, subst,
}
use nginx_admin.Common.Keyed.{find_key, remove_key}
use nginx_admin.Secrets.{redact_potential_secrets}
use nginx_admin.Remote.Types.{Route, RouteDraft, id_of}
use nginx_admin.Remote.Drafts.{Ambient, route_of_draft, toggled}
use nginx_admin.Effects.{Result}
use nginx_admin.Remote.Mock
use nginx_admin.Remote.Local
use nginx_admin.Remote.Local.{Renderer, Stored, saved, load_routes, save_routes, sanitize_routes}
use nginx_admin.Remote.Fixed.{
  IsFixed, sanitize_routes-All, remove_key-All, replace_key-All, find_key-Fixed, toggled-Fixed,
}

-- The storage holds the routes that the other executor keeps in memory.
pub record Holds (s : Renderer) (rs : List Route) : Type 0 where
  pub window : s.has_window ≡ true
  pub loaded : load_routes s ≡ rs
  pub fixed : All IsFixed rs

save_routes-eq :
    (s : Renderer) (rs : List Route)
    → s.has_window ≡ true
    → save_routes rs s ≡ record s { stored = saved (sanitize_routes rs) }
unfolding save_routes
save_routes-eq s rs w = simp w

stored-Holds :
    (s : Renderer) (rs : List Route)
    → s.has_window ≡ true
    → All IsFixed rs
    → Holds (record s { stored = saved (sanitize_routes rs) }) rs
unfolding load_routes
stored-Holds s rs w h = record {
  window = w;
  loaded = ap (λ b. if b then sanitize_routes rs else []) w ∙ sanitize_routes-All rs h;
  fixed = h;
}

save_routes-Holds :
    (s : Renderer) (rs : List Route)
    → s.has_window ≡ true
    → All IsFixed rs
    → Holds (save_routes rs s) rs
save_routes-Holds s rs w h =
    subst (λ t. Holds t rs) (sym (save_routes-eq s rs w)) (stored-Holds s rs w h)

-- The same answer, and states that agree.
abbrev pub Agree : {A : Type 0} → Result A × Renderer → Result A × List Route → Type 0
Agree x y = (x.0 ≡ y.0) × Holds x.1 y.1

module _ (env : Ambient) (s : Renderer) where
  over_loaded :
      {A : Type 0} (x : Result A × Renderer) (y : List Route → Result A × List Route)
      (rs : List Route)
      → Holds s rs
      → (Holds s (load_routes s) → Agree x (y (load_routes s)))
      → Agree x (y rs)
  over_loaded x y rs h f =
      subst (λ l. Agree x (y l)) h.loaded
        (f (record {
          window = h.window;
          loaded = refl;
          fixed = subst (All IsFixed) (sym h.loaded) h.fixed;
        }))

  pub list-Agree :
      (o : Option Bool) (rs : List Route) → Holds s rs → Agree (Local.list o s) (Mock.list o rs)
  unfolding Local.list Mock.list
  list-Agree o rs h = over_loaded (Local.list o s) (Mock.list o) rs h (λ k. (refl, k))

  pub save-Agree :
      (draft : RouteDraft) (rs : List Route)
      → IsFixed (route_of_draft env draft)
      → Holds s rs
      → Agree (Local.save env draft s) (Mock.save env draft rs)
  unfolding Local.save Mock.save
  save-Agree draft rs e h = over_loaded (Local.save env draft s) (Mock.save env draft) rs h (λ k. (
    refl,
    save_routes-Holds s _ k.window (
        All-append IsFixed (remove_key id_of _ (load_routes s)) (route_of_draft env draft ∷ [])
          (remove_key-All _ (load_routes s) k.fixed) (e, tt)),
  ))

  toggle_loaded :
      (id : Text) (enabled : Bool)
      → redact_potential_secrets env.now ≡ env.now
      → Holds s (load_routes s)
      → Agree (Local.toggle env id enabled s) (Mock.toggle env id enabled (load_routes s))
  unfolding Local.toggle Mock.toggle
  toggle_loaded id enabled now h = elim (Option-cases (find_key id_of id (load_routes s))) [
    | inl missing ↦ rw (missing, Local.toggle, Mock.toggle) (refl, h)
    | inr (current, found) ↦
        rw (found, Local.toggle, Mock.toggle)
          (
            refl,
            save_routes-Holds s _ h.window (
                replace_key-All id (toggled env enabled current) (load_routes s)
                  (toggled-Fixed env enabled current now
                    (find_key-Fixed id (load_routes s) current found h.fixed))
                  h.fixed),
          )
  ]

  pub toggle-Agree :
      (id : Text) (enabled : Bool) (rs : List Route)
      → redact_potential_secrets env.now ≡ env.now
      → Holds s rs
      → Agree (Local.toggle env id enabled s) (Mock.toggle env id enabled rs)
  toggle-Agree id enabled rs now h =
      over_loaded (Local.toggle env id enabled s) (Mock.toggle env id enabled) rs h
        (toggle_loaded id enabled now)
