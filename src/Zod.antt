-- ===== src/Zod.antt =====
-- What the schemas of packages/core/src/entities/types.ts ask of the package `zod`, which is not
-- part of the repository: `z.object({...}).superRefine(f)` and `z.array`, with `parse`.
pub mod Inversion
use nginx_admin.Common.{◌≡◌, refl, Option, none, some, List, [], ◌∷◌, Text}

-- `ctx.addIssue({ message, path })`
pub record Issue : Type 0 where
  pub message : Text
  pub path : List Text

-- A failure has at least one issue.
pub data ParseResult (V : Type 0) : Type 0 where
  success : V → ParseResult V
  failure : Issue → List Issue → ParseResult V

abbrev pub Fails : {V : Type 0} → ParseResult V → Type 0
Fails r = (i : Issue) × (is : List Issue) × (r ≡ failure i is)

-- `parse_object fields refine v` is `safeParse` of an object schema whose property schemas turn
-- `v` into `fields v`, or refuse it, and whose `superRefine` changes the parsed object and adds
-- issues.
pub record Zod : Type 1 where
  pub parse_object : (V : Type 0) → (V → Option V) → (V → V × List Issue) → V → ParseResult V
  pub parse_accepted :
      (V : Type 0) (fields : V → Option V) (refine : V → V × List Issue) (v w x : V)
      → fields v ≡ some w
      → refine w ≡ (x, [])
      → parse_object V fields refine v ≡ success x
  pub parse_refined :
      (V : Type 0) (fields : V → Option V) (refine : V → V × List Issue) (v w x : V) (i : Issue)
      (is : List Issue)
      → fields v ≡ some w
      → refine w ≡ (x, i ∷ is)
      → Fails (parse_object V fields refine v)
  pub parse_refused :
      (V : Type 0) (fields : V → Option V) (refine : V → V × List Issue) (v : V)
      → fields v ≡ none
      → Fails (parse_object V fields refine v)

-- `.success` and the parsed value.
abbrev pub parsed : {V : Type 0} → ParseResult V → Option V
parsed (success v) = some v
parsed (failure i is) = none
