-- ===== src/CoreStorage/Lookup.antt =====
-- packages/core/src/repositories/LocalStorageRouteRepository.ts: what is found after a change.
use nginx_admin.Common.{
  ◌≡◌, refl, ap, ap₂, sym, ◌∙◌, Bool, true, false, Option, none, some, List, [], ◌∷◌, ◌++◌, Text,
  ◌===◌, ===_iff, map, if◌then◌else◌, All, arith,
}
use nginx_admin.Common.Keyed.{
  find_key, remove_key, replace_key, upsert_key, has_key, find_key-upsert_key, upsert_key-All,
  remove_key-All,
}
use nginx_admin.Secrets.{redact_potential_secrets}
use nginx_admin.Entities.{Route}
use nginx_admin.Routes.Sanitised.{sanitize_route}
use nginx_admin.CoreStorage.{
  ParsedRoute, ParsedMap, Item, absent, corrupt, stored, entry_id, entry_value, map_of, load_all,
  when_some, as_json, Held, dated, written, write_entry, write_map, loaded_entry, save, delete,
  find_by_id,
}

-- Writing an entry that was loaded finds no secret in it.
unfoldable pub IsFixed : Text × ParsedRoute → Type 0
IsFixed e = write_entry (loaded_entry e) ≡ e

-- Writing a route with dates finds no secret in it.
pub record IsPlain (r : Route) : Type 0 where
  pub id : redact_potential_secrets r.id ≡ r.id
  pub route : sanitize_route r ≡ r

-- The last entry of the key, or else what was there before.
last_of : {A : Type 0} → Text → List (Text × A) → Option (Text × A) → Option (Text × A)
last_of k [] o = o
last_of k (e ∷ es) o = last_of k es (if e.0 === k then some e else o)

find_key-map_of :
    (k : Text) (m es : ParsedMap)
    → find_key entry_id k (map_of m es) ≡ last_of k es (find_key entry_id k m)
unfolding map_of last_of
find_key-map_of k m [] = refl
find_key-map_of k m (e ∷ es) =
    find_key-map_of k (upsert_key entry_id e.0 e m) es
    ∙ ap (last_of k es) (find_key-upsert_key entry_id k e m)

last_of-append :
    {A : Type 0} (k : Text) (es : List (Text × A)) (v : Text × A) (o : Option (Text × A))
    → last_of k (es ++ v ∷ []) o ≡ (if v.0 === k then some v else last_of k es o)
unfolding last_of
last_of-append k [] v o = refl
last_of-append k (e ∷ es) v o = last_of-append k es v (if e.0 === k then some e else o)

last_of-replace_key :
    {A : Type 0} (k : Text) (v : Text × A) (es : List (Text × A)) (o : Option (Text × A))
    → last_of k (replace_key entry_id v.0 v es) o
      ≡ (if v.0 === k then if has_key entry_id v.0 es then some v else o else last_of k es o)
unfolding last_of replace_key has_key
last_of-replace_key k v [] o = ground arith
last_of-replace_key k v (e ∷ es) o = ground (
  arith,
  last_of-replace_key k v es
      (if (if e.0 === v.0 then v else e).0 === k then some (if e.0 === v.0 then v else e) else o),
  ===_iff e.0 v.0,
  ===_iff e.0 k,
  ===_iff v.0 k,
)

last_of-upsert_key :
    {A : Type 0} (k : Text) (v : Text × A) (es : List (Text × A)) (o : Option (Text × A))
    → last_of k (upsert_key entry_id v.0 v es) o ≡ (if v.0 === k then some v else last_of k es o)
unfolding upsert_key
last_of-upsert_key k v es o = ground (arith, last_of-append k es v o, last_of-replace_key k v es o)

last_of-remove_key :
    {A : Type 0} (k j : Text) (es : List (Text × A)) (o : Option (Text × A))
    → last_of k (remove_key entry_id j es) o ≡ (if j === k then o else last_of k es o)
unfolding last_of remove_key
last_of-remove_key k j [] o = ground arith
last_of-remove_key k j (e ∷ es) o = ground (
  arith,
  last_of-remove_key k j es o,
  last_of-remove_key k j es (if e.0 === k then some e else o),
  ===_iff e.0 j,
  ===_iff e.0 k,
  ===_iff j k,
)

last_of-map_of :
    (k : Text) (m es : ParsedMap) (o : Option (Text × ParsedRoute))
    → last_of k (map_of m es) o ≡ last_of k es (last_of k m o)
unfolding map_of last_of
last_of-map_of k m [] o = refl
last_of-map_of k m (e ∷ es) o =
    last_of-map_of k (upsert_key entry_id e.0 e m) es o
    ∙ ap (last_of k es) (last_of-upsert_key k e m o)

-- In a map that was loaded the last entry of a key is the first.
last_of-load_all :
    (k : Text) (item : Item) → last_of k (load_all item) none ≡ find_key entry_id k (load_all item)
unfolding load_all last_of find_key
last_of-load_all k absent = refl
last_of-load_all k corrupt = refl
last_of-load_all k (stored es) = last_of-map_of k [] es none ∙ sym (find_key-map_of k [] es)

abbrev KeepsId : Text × Held → Type 0
KeepsId e = redact_potential_secrets e.0 ≡ e.0

rewritten : (m : ParsedMap) → All IsFixed m → map write_entry (map loaded_entry m) ≡ m
unfolding IsFixed
rewritten [] h = refl
rewritten (e ∷ es) (p, h) = ap₂ (λ x xs. x ∷ xs) p (rewritten es h)

loaded-KeepsId : (m : ParsedMap) → All IsFixed m → All KeepsId (map loaded_entry m)
unfolding IsFixed write_entry
loaded-KeepsId [] h = tt
loaded-KeepsId (e ∷ es) (p, h) = (ap (λ x. x.0) p, loaded-KeepsId es h)

write-if :
    (b : Bool) (x y : Option (Text × Held))
    → when_some write_entry (if b then x else y)
      ≡ (if b then when_some write_entry x else when_some write_entry y)
write-if true x y = refl
write-if false x y = refl

last_of-write :
    (k : Text) (es : List (Text × Held)) (o : Option (Text × Held))
    → All KeepsId es
    → last_of k (map write_entry es) (when_some write_entry o)
      ≡ when_some write_entry (last_of k es o)
unfolding last_of write_entry
last_of-write k [] o h = refl
last_of-write k (e ∷ es) o (p, h) =
    ap (last_of k (map write_entry es)) (
      ap (λ i. if i === k then some (write_entry e) else when_some write_entry o) p
      ∙ sym (write-if (e.0 === k) (some e) o))
    ∙ last_of-write k es (if e.0 === k then some e else o) h

value-if :
    (b : Bool) (e : Text × Held) (y : Option (Text × Held))
    → entry_value (when_some write_entry (if b then some e else y))
      ≡ (if b then some (written e.1) else entry_value (when_some write_entry y))
unfolding write_entry
value-if true e y = refl
value-if false e y = refl

value-unless :
    (b : Bool) (y : Option (Text × Held))
    → entry_value (when_some write_entry (if b then none else y))
      ≡ (if b then none else entry_value (when_some write_entry y))
value-unless true y = refl
value-unless false y = refl

-- What is found behind a map that was written: the last entry of the key.
found :
    (k : Text) (es : List (Text × Held))
    → All KeepsId es
    → find_by_id k (write_map es) ≡ entry_value (when_some write_entry (last_of k es none))
unfolding find_by_id load_all write_map
found k es h =
    ap entry_value (find_key-map_of k [] (map write_entry es) ∙ last_of-write k es none h)

module _ (item : Item) (fixed : All IsFixed (load_all item)) where
  unchanged :
      (k : Text)
      → entry_value (when_some write_entry (last_of k (map loaded_entry (load_all item)) none))
        ≡ find_by_id k item
  unfolding find_by_id
  unchanged k = ap entry_value (
      sym (last_of-write k _ none (loaded-KeepsId (load_all item) fixed))
      ∙ ap (λ m. last_of k m none) (rewritten (load_all item) fixed)
      ∙ last_of-load_all k item)

  -- When no entry that is loaded and not the route that is saved holds what would be taken for a
  -- secret, then after `save` the repository finds, under the id of the route, the route as it
  -- stands in a JSON text, its dates as texts; after `delete` it finds nothing by the deleted id,
  -- and by every other id what it found before. So it is also when the item of the storage was
  -- missing, could not be read or had several entries of one id.
  pub find_by_id-save-delete :
      (r : Route) (k id : Text)
      → IsPlain r
      → (find_by_id k (save r item) ≡ (if r.id === k then some (as_json r) else find_by_id k item))
        × (find_by_id k (delete id item) ≡ (if id === k then none else find_by_id k item))
  unfolding save delete written
  find_by_id-save-delete r k id p =
      let held = map loaded_entry (load_all item) in
      let keep = loaded-KeepsId (load_all item) fixed in
      (
        found k _ (upsert_key-All entry_id KeepsId r.id (r.id, dated r) held p.id keep)
            ∙ ap (λ o. entry_value (when_some write_entry o))
                (last_of-upsert_key k (r.id, dated r) held none)
            ∙ value-if (r.id === k) (r.id, dated r) (last_of k held none)
            ∙ ap
                (λ q.
                  if r.id === k
                  then some (as_json q)
                  else entry_value (when_some write_entry (last_of k held none)))
                p.route
            ∙ ap (λ o. if r.id === k then some (as_json r) else o) (unchanged k),
        found k _ (remove_key-All entry_id KeepsId id held keep)
            ∙ ap (λ o. entry_value (when_some write_entry o)) (last_of-remove_key k id held none)
            ∙ value-unless (id === k) (last_of k held none)
            ∙ ap (λ o. if id === k then none else o) (unchanged k),
      )
