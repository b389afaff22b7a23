-- ===== src/Common/Keyed.antt =====
-- Lists of items with a key: arrays searched by id, and the entries of a JavaScript `Map`.
use mathlib.Core.Path.{◌≡◌, refl}
use mathlib.Core.Bool.{Bool, true, false, ◌||◌}
use mathlib.Core.List.{List, [], ◌∷◌, ◌++◌}
use mathlib.Core.Option.{Option, none, some}
use native.Mathlib.Omega.{arith}
use nginx_admin.Common.Lists.{All, All-append}
use nginx_admin.Common.Tests.{if◌then◌else◌, is_some}
use nginx_admin.Common.Strings.{Text, ◌===◌, ===_iff}

module _ {ℓ} {A : Type ℓ} (key : A → Text) where
  -- `xs.find((x) => x.id === k)`
  unfoldable pub find_key : Text → List A → Option A
  find_key k [] = none
  find_key k (x ∷ xs) = let rest = find_key k xs in if key x === k then some x else rest

  -- `xs.some((x) => x.id === k)`
  unfoldable pub has_key : Text → List A → Bool
  has_key k [] = false
  has_key k (x ∷ xs) = key x === k || has_key k xs

  -- `xs.filter((x) => x.id !== k)`
  unfoldable pub remove_key : Text → List A → List A
  remove_key k [] = []
  remove_key k (x ∷ xs) = let rest = remove_key k xs in if key x === k then rest else x ∷ rest

  -- `xs.map((x) => (x.id === k ? v : x))`
  unfoldable pub replace_key : Text → A → List A → List A
  replace_key k v [] = []
  replace_key k v (x ∷ xs) = (if key x === k then v else x) ∷ replace_key k v xs

  -- `map.set(k, v)`: an old entry keeps its place.
  unfoldable pub upsert_key : Text → A → List A → List A
  unfolding has_key replace_key
  upsert_key k v xs = if has_key k xs then replace_key k v xs else xs ++ v ∷ []

  pub find_key-remove_key :
      (k j : Text) (xs : List A)
      → find_key k (remove_key j xs) ≡ (if j === k then none else find_key k xs)
  unfolding find_key remove_key
  find_key-remove_key k j [] = ground arith
  find_key-remove_key k j (x ∷ xs) =
      ground (arith, find_key-remove_key k j xs, ===_iff j k, ===_iff (key x) k, ===_iff (key x) j)

  pub find_key-append :
      (k : Text) (v : A) (xs : List A)
      → find_key k (xs ++ v ∷ [])
        ≡ (if is_some (find_key k xs) then find_key k xs else if key v === k then some v else none)
  unfolding find_key
  find_key-append k v [] = ground arith
  find_key-append k v (x ∷ xs) = ground (arith, find_key-append k v xs)

  pub find_key-replace_key :
      (k j : Text) (v : A) (xs : List A)
      → key v ≡ j
      → find_key k (replace_key j v xs)
        ≡ (if j === k then if has_key j xs then some v else none else find_key k xs)
  unfolding find_key replace_key has_key
  find_key-replace_key k j v [] e = ground arith
  find_key-replace_key k j v (x ∷ xs) e = ground (
    arith,
    find_key-replace_key k j v xs e,
    ===_iff j k,
    ===_iff (key x) k,
    ===_iff (key x) j,
    ===_iff (key v) k,
  )

  pub has_key-is_some : (k : Text) (xs : List A) → has_key k xs ≡ is_some (find_key k xs)
  unfolding find_key has_key
  has_key-is_some k [] = refl
  has_key-is_some k (x ∷ xs) = ground (arith, has_key-is_some k xs)

  -- Removing the key and appending the item sets it.
  pub find_key-set :
      (k : Text) (v : A) (xs : List A)
      → find_key k (remove_key (key v) xs ++ v ∷ [])
        ≡ (if key v === k then some v else find_key k xs)
  find_key-set k v xs =
      ground (arith, find_key-append k v (remove_key (key v) xs), find_key-remove_key k (key v) xs)

  -- So does `upsert_key`.
  pub find_key-upsert_key :
      (k : Text) (v : A) (xs : List A)
      → find_key k (upsert_key (key v) v xs) ≡ (if key v === k then some v else find_key k xs)
  unfolding upsert_key
  find_key-upsert_key k v xs = ground (
    arith,
    find_key-replace_key k (key v) v xs refl,
    find_key-append k v xs,
    has_key-is_some (key v) xs,
    ===_iff (key v) k,
  )

chosen {ℓ κ} :
    {A : Type ℓ} (P : A → Type κ) (b : Bool) (x y : A) → P x → P y → P (if b then x else y)
chosen P true x y h k = h
chosen P false x y h k = k

-- What holds of all items and of the new one.
module _ {ℓ κ} {A : Type ℓ} (key : A → Text) (P : A → Type κ) where
  replace_key-All :
      (k : Text) (v : A) (xs : List A) → P v → All P xs → All P (replace_key key k v xs)
  unfolding replace_key
  replace_key-All k v [] p h = tt
  replace_key-All k v (x ∷ xs) p (q, h) =
      (chosen P (key x === k) v x p q, replace_key-All k v xs p h)

  pub upsert_key-All :
      (k : Text) (v : A) (xs : List A) → P v → All P xs → All P (upsert_key key k v xs)
  unfolding upsert_key
  upsert_key-All k v xs p h =
      chosen (All P) (has_key key k xs) (replace_key key k v xs) (xs ++ v ∷ [])
        (replace_key-All k v xs p h) (All-append P xs (v ∷ []) h (p, tt))

  pub remove_key-All : (k : Text) (xs : List A) → All P xs → All P (remove_key key k xs)
  unfolding remove_key
  remove_key-All k [] h = tt
  remove_key-All k (x ∷ xs) (p, h) =
      chosen (All P) (key x === k) _ _ (remove_key-All k xs h) (p, remove_key-All k xs h)
