-- ===== src/Routes/Operations/Outcome.antt =====
-- What the operations on routes tell the user.
use nginx_admin.Common.{ℕ, ◌≡◌, refl, false, Option, none, some, List, Text, text}
use nginx_admin.Zod.{Issue, Zod}
use nginx_admin.Effects.{error, remote_error, thrown, Action, Result, ok, fail, ◌>>◌}
use nginx_admin.Entities.{Route}
use nginx_admin.Routes.Repository.{RouteRepository}
use nginx_admin.Routes.UseCases.{Creation, Update, create_route, update_route, toggle_route_status}
use nginx_admin.Secrets.{redact_potential_secrets}
use nginx_admin.Routes.Operations.{Flags, settle, wrap, create, update, toggle, remove}

-- The result of the calls that an operation wraps, what it returns, and the flags.
pub data Told {A : Type 0} (success : Text) : Result A → Result (Option A) → Flags → Type 0 where
  done :
      (a : A)
      → Told success
          (ok a)
          (ok (some a))
          (record { loading = false; error = none; success = some success })
  refused :
      (message : Text)
      → Told success (fail (error message)) (ok none) (record {
        loading = false;
        error = some (redact_potential_secrets message);
        success = none;
      })
  refused_remotely :
      (message code : Text)
      → Told success (fail (remote_error message code)) (ok none) (record {
        loading = false;
        error = some (redact_potential_secrets message);
        success = none;
      })
  broken :
      Told success
        (fail thrown)
        (fail (error (text "Cannot read properties of undefined (reading 'replace')")))
        (record { loading = false; error = none; success = none })

module _ {T A : Type 0} (fn : Action T A) (success : Text) (t : T) (flags : Flags) where
  wrap-Told :
      ((wrap fn success (t, flags)).1.0 ≡ (fn t).1)
      × Told success (fn t).0 (wrap fn success (t, flags)).0 (wrap fn success (t, flags)).1.1
  unfolding wrap
  wrap-Told = split (fn t).0
    where
      split :
          (r : Result A)
          → ((settle success (r, (fn t).1)).1.0 ≡ (fn t).1)
            × Told success r (settle success (r, (fn t).1)).0 (settle success (r, (fn t).1)).1.1
      split (ok a) = (refl, done a)
      split (fail (error m)) = (refl, refused m)
      split (fail (remote_error m code)) = (refl, refused_remotely m code)
      split (fail thrown) = (refl, broken)

Told-loading :
    {A : Type 0} (success : Text) {r : Result A} {q : Result (Option A)} {flags : Flags}
    → Told success r q flags
    → flags.loading ≡ false
Told-loading success (done a) = refl
Told-loading success (refused m) = refl
Told-loading success (refused_remotely m code) = refl
Told-loading success broken = refl

told-not_loading :
    {T A : Type 0} (fn : Action T A) (success : Text) (t : T) (flags : Flags)
    → ((wrap fn success (t, flags)).1.0 ≡ (fn t).1)
      × ((wrap fn success (t, flags)).1.1.loading ≡ false)
      × Told success (fn t).0 (wrap fn success (t, flags)).0 (wrap fn success (t, flags)).1.1
told-not_loading fn success t flags =
    let (same, told) = wrap-Told fn success t flags in (same, Told-loading success told, told)

pub data Operation : Type 0 where
  creation : Creation → Route → Operation
  updating : ℕ → Text → List Update → Operation
  toggling : ℕ → Text → Operation
  removal : Text → Operation

abbrev pub success_of : Operation → Text
success_of (creation env route) = text "Сохранено"
success_of (updating now id updates) = text "Обновлено"
success_of (toggling now id) = text "Готово"
success_of (removal id) = text "Удалено"

module _ {T : Type 0} (zod : Zod) (zod_message : Issue → List Issue → Text)
    (repository : RouteRepository T) (load_routes : Action T (Unit {0})) where
  abbrev pub perform : Operation → Action (T × Flags) (Option (Unit {0}))
  perform (creation env route) = create zod zod_message repository load_routes env route
  perform (updating now id us) = update zod zod_message repository load_routes now id us
  perform (toggling now id) = toggle zod zod_message repository load_routes now id
  perform (removal id) = remove zod zod_message repository load_routes id

  -- The use case behind an operation, and the load that follows it if it succeeds.
  abbrev pub calls : Operation → Action T (Unit {0})
  calls (creation env route) = create_route zod zod_message repository env route >> load_routes
  calls (updating now id us) = update_route zod zod_message repository now id us >> load_routes
  calls (toggling now id) = toggle_route_status zod zod_message repository now id >> load_routes
  calls (removal id) = repository.delete id >> load_routes

  -- Each operation leaves the stores as its use case and the load after it leave them, and is then
  -- no longer loading. If they return, it shows its success and no error; if they throw an `Error`,
  -- it shows the redacted message and no success and returns `null`, so that nothing is thrown to
  -- its caller. For a thrown value that is no `Error` it shows nothing and throws an `Error`
  -- itself.
  pub perform-Told :
      (op : Operation) (t : T) (flags : Flags)
      → ((perform op (t, flags)).1.0 ≡ (calls op t).1)
        × ((perform op (t, flags)).1.1.loading ≡ false)
        × Told (success_of op) (calls op t).0 (perform op (t, flags)).0 (perform op (t, flags)).1.1
  unfolding create update toggle remove
  perform-Told (creation env route) t flags =
      told-not_loading (calls (creation env route)) (success_of (creation env route)) t flags
  perform-Told (updating now id us) t flags =
      told-not_loading (calls (updating now id us)) (success_of (updating now id us)) t flags
  perform-Told (toggling now id) t flags =
      told-not_loading (calls (toggling now id)) (success_of (toggling now id)) t flags
  perform-Told (removal id) t flags =
      told-not_loading (calls (removal id)) (success_of (removal id)) t flags
