-- ===== src/Routes/Operations.antt =====
-- apps/web/src/processes/useRouteOperations.ts: operations with flags for loading, error and
-- success. `repository` and `load_routes` work on the state of the stores.
pub mod Outcome
use nginx_admin.Common.{ℕ, Bool, true, false, Option, none, some, List, [], ◌∷◌, Text, text}
use nginx_admin.Secrets.{redact_potential_secrets}
use nginx_admin.Zod.{Issue, Zod}
use nginx_admin.Effects.{Failure, error, Action, Result, ok, fail, ◌>>=◌, ◌>>◌}
use nginx_admin.Entities.{Route}
use nginx_admin.Routes.Repository.{RouteRepository}
use nginx_admin.Routes.UseCases.{Creation, Update, create_route, update_route, toggle_route_status}
use nginx_admin.Routes.Slice.{message_of, type_error}

pub record Flags : Type 0 where
  pub loading : Bool
  pub error : Option Text
  pub success : Option Text

abbrev pub started : Flags
started = record { loading = true; error = none; success = none }

abbrev pub succeeded : Text → Flags
succeeded message = record { loading = false; error = none; success = some message }

abbrev pub failed : Text → Flags
failed message = record {
  loading = false;
  error = some (redact_potential_secrets message);
  success = none;
}

module _ {T A : Type 0} where
  -- What `try`, `catch` and `finally` make of the result, from the flags that `wrap` sets first.
  abbrev pub settle : Text → Result A × T → Result (Option A) × (T × Flags)
  settle success_message (ok res, t) = (ok (some res), (t, succeeded success_message))
  settle success_message (fail e, t) = elim (message_of e) [
    | some message ↦ (ok none, (t, failed message))
    | none ↦ (fail type_error, (t, record started { loading = false }))
  ]

  unfoldable pub wrap : Action T A → Text → Action (T × Flags) (Option A)
  wrap fn success_message (t, flags) = settle success_message (fn t)

module _ {T : Type 0} (zod : Zod) (zod_message : Issue → List Issue → Text)
    (repository : RouteRepository T) (load_routes : Action T (Unit {0})) where
  unfoldable pub create : Creation → Route → Action (T × Flags) (Option (Unit {0}))
  unfolding wrap
  create env route =
      wrap (create_route zod zod_message repository env route >> load_routes) (text "Сохранено")

  unfoldable pub update : ℕ → Text → List Update → Action (T × Flags) (Option (Unit {0}))
  unfolding wrap
  update now id updates =
      wrap (update_route zod zod_message repository now id updates >> load_routes)
        (text "Обновлено")

  unfoldable pub toggle : ℕ → Text → Action (T × Flags) (Option (Unit {0}))
  unfolding wrap
  toggle now id =
      wrap (toggle_route_status zod zod_message repository now id >> load_routes) (text "Готово")

  unfoldable pub remove : Text → Action (T × Flags) (Option (Unit {0}))
  unfolding wrap
  remove id = wrap (repository.delete id >> load_routes) (text "Удалено")

abbrev pub reset : Flags
reset = record { loading = false; error = none; success = none }
