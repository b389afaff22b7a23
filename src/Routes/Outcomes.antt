-- ===== src/Routes/Outcomes.antt =====
-- What the use cases on routes return and store, over any repository that keeps its promises.
use nginx_admin.Common.{
  ℕ, ◌≡◌, refl, Bool, true, false, ◌&&◌, Option, none, some, List, [], Text, text, ◌⊎◌, inl, inr,
  ◌===◌, if◌then◌else◌, Bool-cases, Option-cases, and-eq-true_iff,
}
use nginx_admin.Zod.{Issue, ParseResult, success, failure, Zod}
use nginx_admin.Effects.{Failure, error, Result, ok, fail}
use nginx_admin.Entities.{Route}
use nginx_admin.Entities.Primitives.{domain_schema, port_schema, unix_path_schema}
use nginx_admin.Entities.Schemas.{route_schema}
use nginx_admin.Routes.Repository.{RouteRepository, IsLawful}
use nginx_admin.Routes.UseCases.{
  Creation, Update, updated_route, new_route, save_parsed, create_checked, create_route,
  update_route,
}
use nginx_admin.Routes.Accepted.{Accepted}
use nginx_admin.Routes.Updated.{Updated, updated_route-Updated}

-- The three tests of `createRoute`.
abbrev pub checked : Route → Bool
checked r = domain_schema r.domain && (port_schema r.port && unix_path_schema r.root)

-- What is stored of a new route.
abbrev pub stamped : Creation → Route → Route
stamped env r = record r {
  id = env.id;
  metadata = some (record {
    created_at = env.created_at;
    updated_at = env.updated_at;
    created_by = text "system";
    tags = [];
  });
}

module _ {S : Type 0} (zod : Zod) (zod_message : Issue → List Issue → Text)
    (repository : RouteRepository S) (view : Text → S → Option Route)
    (lawful : IsLawful repository view) where
  -- The state `s'` holds the route, and what `s` holds under other ids.
  abbrev pub Stores : Route → S → S → Type 0
  Stores r s s' = (k : Text) → view k s' ≡ (if r.id === k then some r else view k s)

  -- A result of `RouteSchema.parse` followed by `save`.
  abbrev pub Saves : {A : Type 0} → A → Route → S → Result A × S → Type 0
  Saves a r s y = (y.0 ≡ ok a) × Stores r s y.1

  -- `RouteSchema` refuses the route: its error is thrown, and nothing is changed.
  abbrev pub Refused : {A : Type 0} → Route → Result A × S → S → Type 0
  Refused r y s =
      (i : Issue) × (is : List Issue) × (route_schema zod r ≡ failure i is)
      × (y ≡ (fail (error (zod_message i is)), s))

  pub save_parsed-cases :
      (r : Route) (s : S)
      → (Accepted zod r × Saves tt r s (save_parsed zod zod_message repository r s))
        ⊎ Refused r (save_parsed zod zod_message repository r s) s
  unfolding save_parsed
  save_parsed-cases r s = split (route_schema zod r) refl
    where
      split :
          (p : ParseResult Route)
          → route_schema zod r ≡ p
          → (Accepted zod r × Saves tt r s (save_parsed zod zod_message repository r s))
            ⊎ Refused r (save_parsed zod zod_message repository r s) s
      split (success x) e =
          inl ((x, e), (rw e (lawful.save_succeeds r s), rw e (lawful.view-save r s)))
      split (failure i is) e = inr (i, is, e, rw e)

  pub save_parsed-Saves :
      (r : Route) (s : S)
      → Accepted zod r
      → Saves tt r s (save_parsed zod zod_message repository r s)
  unfolding save_parsed
  save_parsed-Saves r s (x, e) = (rw e (lawful.save_succeeds r s), rw e (lawful.view-save r s))

  create_checked-cases :
      (env : Creation) (r : Route) (s : S)
      → (Accepted zod (new_route env r)
          × Saves env.id (new_route env r) s (create_checked zod zod_message repository env r s))
        ⊎ Refused (new_route env r) (create_checked zod zod_message repository env r s) s
  unfolding create_checked
  create_checked-cases env r s = elim (save_parsed-cases (new_route env r) s) [
    | inl (accepted, saved) ↦ inl (accepted, (rw saved.0 refl, rw saved.0 saved.1))
    | inr (i, is, bad, failed) ↦ inr (i, is, bad, rw failed)
  ]

  -- `createRoute` returns the new id, and has stored under it what it was handed, with this id and
  -- with metadata of the times of its call, the creator "system" and no tags; every other id holds
  -- what it held. So it is when the domain, the port and the root are well formed and `RouteSchema`
  -- accepts the new route. When one of these is not so, it throws and leaves the repository as it
  -- was.
  pub create_route-cases :
      (env : Creation) (r : Route) (s : S)
      → let y = create_route zod zod_message repository env r s in
        ((checked r ≡ true)
          × Accepted zod (stamped env r)
          × (y.0 ≡ ok env.id)
          × ((k : Text) → view k y.1 ≡ (if env.id === k then some (stamped env r) else view k s)))
        ⊎ ((checked r ≡ true) × Refused (stamped env r) y s)
        ⊎ ((checked r ≡ false) × (e : Failure) × (y ≡ (fail e, s)))
  unfolding create_route new_route
  create_route-cases env r s = elim (Bool-cases (domain_schema r.domain)) [
    | inr bad ↦ inr (inr (rw bad refl, error (text "Invalid domain format"), rw bad))
    | inl d ↦ elim (Bool-cases (port_schema r.port)) [
      | inr bad ↦
          inr (inr (rw (d, bad) refl, error (text "Port must be between 1 and 65535"), rw (d, bad)))
      | inl p ↦ elim (Bool-cases (unix_path_schema r.root)) [
        | inr bad ↦
            inr (inr (rw (d, p, bad) refl, error (text "Invalid path format"), rw (d, p, bad)))
        | inl u ↦ elim (create_checked-cases env r s) [
          | inl (accepted, saved) ↦
              inl (rw (d, p, u) refl, accepted, rw (d, p, u) saved.0, rw (d, p, u) saved.1)
          | inr (i, is, refused, failed) ↦
              inr (inl (rw (d, p, u) refl, (i, is, refused, rw (d, p, u) failed)))
        ]
      ]
    ]
  ]

  -- What `updateRoute` does: without a route of this id it throws and changes nothing. Otherwise it
  -- makes a new route of the one that it finds: if `RouteSchema` accepts it, the new route is
  -- stored and every other id holds what it held; if the schema refuses it, the error of the schema
  -- is thrown and nothing is changed.
  pub update_route-cases :
      (now : ℕ) (id : Text) (us : List Update) (s : S)
      → let y = update_route zod zod_message repository now id us s in
        ((view id s ≡ none) × (y ≡ (fail (error (text "Route not found")), s)))
        ⊎ ((r : Route) × (u : Route) × (view id s ≡ some r)
            × Updated now us r u
            × ((Accepted zod u × Saves tt u s y) ⊎ Refused u y s))
  unfolding update_route
  update_route-cases now id us s = elim (Option-cases (view id s)) [
    | inl missing ↦ inl (missing, rw (lawful.find_by_id_lem id s, missing))
    | inr (r, found) ↦ inr (
      r,
      updated_route now us r,
      found,
      updated_route-Updated now us r,
      rw (lawful.find_by_id_lem id s, found) (save_parsed-cases (updated_route now us r) s),
    )
  ]

-- A route that passes the three tests and that `RouteSchema` accepts is saved, and its id returned.
pub create_route-returns :
    {S : Type 0} (zod : Zod) (zod_message : Issue → List Issue → Text)
    (repository : RouteRepository S) (env : Creation) (r : Route) (s : S)
    → checked r ≡ true
    → Accepted zod (new_route env r)
    → (repository.save (new_route env r) s).0 ≡ ok tt
    → create_route zod zod_message repository env r s
      ≡ (ok env.id, (repository.save (new_route env r) s).1)
unfolding create_route create_checked save_parsed
create_route-returns zod zod_message repository env r s fine (x, accepted) saves =
    let (d, rest) = (and-eq-true_iff (domain_schema r.domain) _).0 fine in
    let (p, u) = (and-eq-true_iff (port_schema r.port) _).0 rest in
    rw (d, p, u, accepted, saves) refl
