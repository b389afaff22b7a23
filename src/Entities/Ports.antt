-- ===== src/Entities/Ports.antt =====
-- packages/core/src/entities/types.ts: `PortSchema` on what a form or a file may hold as a port.
use nginx_admin.Common.{ℕ, Option, none, some, Text, trim, truthy, if◌then◌else◌}
use nginx_admin.Entities.Primitives.{port_schema}

-- A number of the language: NaN, a natural number, or another one, that is negative, has a fraction
-- or is infinite.
pub data Number : Type 0 where
  nan other_number : Number
  natural : ℕ → Number

pub data PortInput : Type 0 where
  undefined : PortInput
  number : Number → PortInput
  string : Text → PortInput

abbrev pub unless_nan : Text → Number → PortInput
unless_nan val nan = string val
unless_nan val other_number = number other_number
unless_nan val (natural n) = number (natural n)

-- `z.number().int().min(1).max(65535)`
abbrev pub number_schema : PortInput → Option ℕ
number_schema (number (natural n)) = if port_schema n then some n else none
number_schema _ = none

module _ (to_number : Text → Number) where
  unfoldable pub preprocess_port : PortInput → PortInput
  preprocess_port (string val) =
      if truthy (trim val) then unless_nan val (to_number val) else string val
  preprocess_port val = val

  -- `PortSchema.safeParse`; the conversion `Number` is a parameter.
  unfoldable pub parse_port : PortInput → Option ℕ
  unfolding preprocess_port port_schema
  parse_port val = number_schema (preprocess_port val)
