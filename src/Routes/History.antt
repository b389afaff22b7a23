-- ===== src/Routes/History.antt =====
-- Sequences of use cases on one repository.
use nginx_admin.Common.{
  ℕ, ◌≡◌, ◌∙◌, sym, subst, not, Option, some, List, [], ◌∷◌, Text, arith, inl, inr, ◌===◌, ===_iff,
  Bool-cases, Option-cases, some_path,
}
use nginx_admin.Zod.{Issue, Zod}
use nginx_admin.Entities.{Route}
use nginx_admin.Routes.Repository.{RouteRepository, IsLawful}
use nginx_admin.Routes.UseCases.{
  Creation, Update, set_enabled, create_route, update_route, toggle_route_status,
}
use nginx_admin.Routes.Accepted.{Accepted}
use nginx_admin.Routes.Outcomes.{Stores, stamped, create_route-cases, update_route-cases}
use nginx_admin.Routes.Toggle.{toggle_route_status-missing, toggle-eq-update}

pub data Call : Type 0 where
  create : Creation → Route → Call
  update : ℕ → Text → List Update → Call
  toggle : ℕ → Text → Call
  remove : Text → Call

module _ {S : Type 0} (zod : Zod) (zod_message : Issue → List Issue → Text)
    (repository : RouteRepository S) where
  unfoldable pub perform : Call → S → S
  unfolding create_route update_route toggle_route_status
  perform (create env r) s = (create_route zod zod_message repository env r s).1
  perform (update now id us) s = (update_route zod zod_message repository now id us s).1
  perform (toggle now id) s = (toggle_route_status zod zod_message repository now id s).1
  perform (remove id) s = (repository.delete id s).1

  unfoldable pub perform_all : List Call → S → S
  unfolding perform
  perform_all [] s = s
  perform_all (c ∷ cs) s = perform_all cs (perform c s)

  module _ (view : Text → S → Option Route) (lawful : IsLawful repository view) where
    -- Every stored route stands under its own id, and `RouteSchema` accepts it.
    pub record IsSound (s : S) : Type 0 where
      pub entry : (k : Text) (r : Route) → view k s ≡ some r → (r.id ≡ k) × Accepted zod r

    Stores-IsSound :
        (r : Route) (s s' : S)
        → Accepted zod r
        → Stores zod zod_message repository view lawful r s s'
        → IsSound s
        → IsSound s'
    Stores-IsSound r s s' accepted stored sound = record {
      entry = λ k q found. elim (Bool-cases (r.id === k)) [
        | inl same ↦
            let eq : r ≡ q = some_path (sym (stored k ∙ rw same) ∙ found) in
            subst (λ z. (z.id ≡ k) × Accepted zod z) eq ((===_iff r.id k).0 same, accepted)
        | inr other ↦ sound.entry k q (sym (stored k ∙ rw other) ∙ found)
      ];
    }

    update-IsSound :
        (now : ℕ) (id : Text) (us : List Update) (s : S)
        → IsSound s
        → IsSound (update_route zod zod_message repository now id us s).1
    update-IsSound now id us s sound =
        elim (update_route-cases zod zod_message repository view lawful now id us s) [
          | inl (missing, e) ↦ rw e sound
          | inr (r, u, found, updated, inl (accepted, saved)) ↦
              Stores-IsSound u s _ accepted saved.1 sound
          | inr (r, u, found, updated, inr (i, is, refused, e)) ↦ rw e sound
        ]

    create-IsSound :
        (env : Creation) (r : Route) (s : S)
        → IsSound s
        → IsSound (create_route zod zod_message repository env r s).1
    create-IsSound env r s sound =
        elim (create_route-cases zod zod_message repository view lawful env r s) [
          | inl (tested, accepted, answer, stored) ↦
              Stores-IsSound (stamped env r) s _ accepted stored sound
          | inr (inl (tested, (i, is, refused, e))) ↦ rw e sound
          | inr (inr (untested, f, e)) ↦ rw e sound
        ]

    toggle-IsSound :
        (now : ℕ) (id : Text) (s : S)
        → IsSound s
        → IsSound (toggle_route_status zod zod_message repository now id s).1
    toggle-IsSound now id s sound = elim (Option-cases (view id s)) [
      | inl missing ↦
          rw (toggle_route_status-missing zod zod_message repository view lawful now id s missing)
            sound
      | inr (r, found) ↦
          rw (toggle-eq-update zod zod_message repository view lawful now id r s found)
            (update-IsSound now id (set_enabled (not r.enabled) ∷ []) s sound)
    ]

    delete-IsSound : (id : Text) (s : S) → IsSound s → IsSound (repository.delete id s).1
    delete-IsSound id s sound = record {
      entry = λ k q found. elim (Bool-cases (id === k)) [
        | inl same ↦ let e = lawful.view-delete id s k in ground arith
        | inr other ↦ sound.entry k q (sym (lawful.view-delete id s k ∙ rw other) ∙ found)
      ];
    }

    perform-IsSound : (c : Call) (s : S) → IsSound s → IsSound (perform c s)
    unfolding perform
    perform-IsSound (create env r) s sound = create-IsSound env r s sound
    perform-IsSound (update now id us) s sound = update-IsSound now id us s sound
    perform-IsSound (toggle now id) s sound = toggle-IsSound now id s sound
    perform-IsSound (remove id) s sound = delete-IsSound id s sound

    -- Whatever routes are created, updated, toggled and deleted, and whichever of the calls fail:
    -- if at first every stored route stands under its own id and is accepted by `RouteSchema`, so
    -- it is afterwards.
    pub perform_all-IsSound : (cs : List Call) (s : S) → IsSound s → IsSound (perform_all cs s)
    unfolding perform_all
    perform_all-IsSound [] s sound = sound
    perform_all-IsSound (c ∷ cs) s sound =
        perform_all-IsSound cs (perform c s) (perform-IsSound c s sound)
