-- ===== src/Routes/Repository.antt =====
-- packages/core/src/repositories/RouteRepository.ts, and what a repository promises to the use
-- cases: a view of its state as a map from ids to routes.
use nginx_admin.Common.{◌≡◌, Option, none, some, List, Text, ◌===◌, if◌then◌else◌}
use nginx_admin.Effects.{Action, ok}
use nginx_admin.Entities.{Route}

-- A `Map<string, Route>`: its entries in the order of insertion.
abbrev pub RouteMap : Type 0
RouteMap = List (Text × Route)

pub record RouteRepository (S : Type 0) : Type 0 where
  pub save : Route → Action S (Unit {0})
  pub find_by_id : Text → Action S (Option Route)
  pub find_all : Action S (List Route)
  pub delete : Text → Action S (Unit {0})
  pub save_all : RouteMap → Action S (Unit {0})
  pub load_all : Action S RouteMap

pub record IsLawful {S : Type 0} (repository : RouteRepository S) (view : Text → S → Option Route)
    : Type 0 where
  pub find_by_id_lem : (id : Text) (s : S) → repository.find_by_id id s ≡ (ok (view id s), s)
  pub save_succeeds : (r : Route) (s : S) → (repository.save r s).0 ≡ ok tt
  pub view-save :
      (r : Route) (s : S) (k : Text)
      → view k (repository.save r s).1 ≡ (if r.id === k then some r else view k s)
  pub delete_succeeds : (id : Text) (s : S) → (repository.delete id s).0 ≡ ok tt
  pub view-delete :
      (id : Text) (s : S) (k : Text)
      → view k (repository.delete id s).1 ≡ (if id === k then none else view k s)
