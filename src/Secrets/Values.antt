-- ===== src/Secrets/Values.antt =====
-- The values that `sanitizeForJson` takes apart, and the operations of the language on them.
use nginx_admin.Common.{ℕ, Bool, true, false, List, [], ◌∷◌, Text, if◌then◌else◌, to_iso_string}

-- An object is the list of its own enumerable properties, with distinct keys in their order; a
-- date is its instant. The numbers of the program's records are naturals.
mutual
  pub data Value : Type 0 where
    undefined null : Value
    bool : Bool → Value
    num : ℕ → Value
    str : Text → Value
    date : ℕ → Value
    arr : Items → Value
    obj : Fields → Value

  pub data Items : Type 0 where
    nil : Items
    cons : Value → Items → Items

  pub data Fields : Type 0 where
    end : Fields
    field : Text → Value → Fields → Fields

-- `Object.keys(o)`
abbrev pub keys : Fields → List Text
keys end = []
keys (field k v fs) = k ∷ keys fs

abbrev pub is_undefined : Value → Bool
is_undefined undefined = true
is_undefined _ = false

-- In an array `undefined` is written as `null`.
abbrev pub or_null : Value → Value
or_null undefined = null
or_null v = v

-- `JSON.parse(JSON.stringify(v))`: what a JSON text keeps of a value. A date becomes its ISO text
-- and a property that is `undefined` is left out.
unfoldable mutual
  unfolding to_iso_string

  pub through_json : Value → Value
  through_json undefined = undefined
  through_json null = null
  through_json (bool b) = bool b
  through_json (num n) = num n
  through_json (str s) = str s
  through_json (date t) = str (to_iso_string t)
  through_json (arr xs) = arr (items_through_json xs)
  through_json (obj fs) = obj (fields_through_json fs)

  pub items_through_json : Items → Items
  items_through_json nil = nil
  items_through_json (cons x xs) = cons (or_null (through_json x)) (items_through_json xs)

  pub fields_through_json : Fields → Fields
  fields_through_json end = end
  fields_through_json (field k v fs) =
      let rest = fields_through_json fs in
      if is_undefined v then rest else field k (through_json v) rest
