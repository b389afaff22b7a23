-- ===== src/Storage/Lookup.antt =====
-- packages/infra/src/repositories/BrowserLocalStorageRouteRepository.ts: what is found after a
-- change of the stored routes.
use nginx_admin.Common.{
  ℕ, ◌≡◌, refl, ap, ap₂, ◌∙◌, Option, none, some, List, [], ◌∷◌, Text, ◌===◌, Bool, true, false,
  if◌then◌else◌, All,
}
use nginx_admin.Common.Keyed.{find_key, find_key-remove_key, upsert_key-All, remove_key-All}
use nginx_admin.Entities.{Metadata, Route}
use nginx_admin.Routes.Repository.{RouteMap}
use nginx_admin.Routes.Adapter.{map_set, map_get, map_get-map_set, values, key_of, route_in}
use nginx_admin.Storage.{
  Item, to_persisted_route, from_persisted_route, sanitize_persisted, serialized, find_all,
  map_from, save, delete, find_by_id, load_all, id_of, when_some, persisted_metadata,
  revived_metadata,
}

-- Writing the route finds no secret in it.
unfoldable pub IsFixed : Route → Type 0
IsFixed r = sanitize_persisted (to_persisted_route r) ≡ to_persisted_route r

revived-persisted :
    (now : ℕ) (m : Option Metadata)
    → when_some (revived_metadata now) (when_some persisted_metadata m) ≡ m
revived-persisted now none = refl
revived-persisted now (some m) = refl

from_persisted_route-to_persisted_route :
    (now : ℕ) (r : Route) → from_persisted_route now (to_persisted_route r) ≡ r
unfolding from_persisted_route to_persisted_route
from_persisted_route-to_persisted_route now r =
    ap (λ m. record r { metadata = m }) (revived-persisted now r.metadata)

found-all : (now : ℕ) (rs : List Route) → All IsFixed rs → find_all now (serialized rs) ≡ rs
unfolding find_all serialized IsFixed
found-all now [] h = refl
found-all now (r ∷ rs) (p, h) =
    ap₂ (λ x xs. x ∷ xs)
      (ap (from_persisted_route now) p ∙ from_persisted_route-to_persisted_route now r)
      (found-all now rs h)

-- An entry of a `Map` of such routes by their ids.
abbrev IsEntry : Text × Route → Type 0
IsEntry e = (e.1.id ≡ e.0) × IsFixed e.1

map_set-All : (r : Route) (m : RouteMap) → IsFixed r → All IsEntry m → All IsEntry (map_set r m)
unfolding map_set
map_set-All r m p h = upsert_key-All key_of IsEntry r.id (r.id, r) m (refl, p) h

map_from-All :
    (m : RouteMap) (rs : List Route) → All IsEntry m → All IsFixed rs → All IsEntry (map_from m rs)
unfolding map_from
map_from-All m [] h k = h
map_from-All m (r ∷ rs) h (p, k) = map_from-All (map_set r m) rs (map_set-All r m p h) k

values-All : (m : RouteMap) → All IsEntry m → All IsFixed (values m)
values-All [] h = tt
values-All (e ∷ es) ((q, p), h) = (p, values-All es h)

found-values : (k : Text) (m : RouteMap) → All IsEntry m → find_key id_of k (values m) ≡ map_get k m
unfolding find_key map_get
found-values k [] h = refl
found-values k (e ∷ es) ((q, p), h) =
    ap₂ (λ i o. if i === k then some e.1 else o) q (found-values k es h) ∙ outside (e.0 === k)
  where
    outside :
        (b : Bool)
        → (if b then some e.1 else map_get k es)
          ≡ route_in (if b then some e else find_key key_of k es)
    outside true = refl
    outside false = refl

module _ (now : ℕ) (item : Item) (fixed : All IsFixed (find_all now item)) where
  -- When no route of the storage and not the route that is saved holds what would be taken for a
  -- secret, then after `save` the repository finds the saved route by its id, and by another id the
  -- route that the `Map` of `loadAll` had there; and after `delete` it finds nothing by the deleted
  -- id, and by another id what it found before. So it is also when the item of the storage was
  -- missing or could not be read.
  pub find_by_id-save :
      (r : Route) (k id : Text)
      → IsFixed r
      → (find_by_id now k (save now r item)
          ≡ (if r.id === k then some r else map_get k (load_all now item)))
        × (find_by_id now k (delete now id item)
            ≡ (if id === k then none else find_by_id now k item))
  unfolding find_by_id save delete load_all
  find_by_id-save r k id p = (
    ap (find_key id_of k) (found-all now _ (values-All _ entries))
        ∙ found-values k _ entries
        ∙ map_get-map_set r (map_from [] (find_all now item)) k,
    ap (find_key id_of k)
          (found-all now _ (remove_key-All id_of IsFixed id (find_all now item) fixed))
        ∙ find_key-remove_key id_of k id (find_all now item),
  )
    where
      entries : All IsEntry (map_set r (map_from [] (find_all now item)))
      entries = map_set-All r _ p (map_from-All [] (find_all now item) tt fixed)
