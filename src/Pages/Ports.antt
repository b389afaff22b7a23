-- ===== src/Pages/Ports.antt =====
-- apps/web/src/pages/routes/RouteModal/BasicTab.tsx: the field of the port. It parses the value
-- while it is drawn; an exception there takes the page away, since the application has no boundary
-- for errors. The library of forms is a parameter: what value the field has after a change.
use nginx_admin.Common.{
  ℕ, Bool, true, false, ◌&&◌, Option, none, some, List, [], ◌∷◌, Text, truthy, ◌≡◌, refl, ap, ◌∙◌,
  all, leb, if◌then◌else◌, and-eq-true_iff,
}
use nginx_admin.Entities.Primitives.{port_schema}
use nginx_admin.Entities.Ports.{
  Number, nan, other_number, natural, PortInput, undefined, number, parse_port, preprocess_port,
}

pub data PortField : Type 0 where
  drawn : ℕ → PortField
  page_gone : PortField

abbrev pub draw_port : Option ℕ → PortField
draw_port (some n) = drawn n
draw_port none = page_gone

module _ (to_number : Text → Number) (field_value : PortInput → PortInput) where
  -- `onChange` of the input
  abbrev pub port_changed : Text → PortInput
  port_changed value = if truthy value then number (to_number value) else undefined

  unfoldable pub type_port : Text → PortField → PortField
  unfolding parse_port
  type_port value page_gone = page_gone
  type_port value (drawn n) = draw_port (parse_port to_number (field_value (port_changed value)))

  unfoldable pub type_ports : List Text → PortField → PortField
  unfolding type_port
  type_ports [] f = f
  type_ports (value ∷ values) f = type_ports values (type_port value f)

abbrev pub is_port : Number → Bool
is_port (natural n) = leb 1 n && leb n 65535
is_port _ = false

abbrev pub port_of : Number → ℕ
port_of (natural n) = n
port_of _ = 0

-- The last port that was typed, and before that the first one.
abbrev pub last_port : (Text → Number) → List Text → ℕ → ℕ
last_port to_number [] n = n
last_port to_number (value ∷ values) n = last_port to_number values (port_of (to_number value))

draw_if :
    (b : Bool) (n : ℕ) → draw_port (if b then some n else none) ≡ (if b then drawn n else page_gone)
draw_if true n = refl
draw_if false n = refl

module _ (to_number : Text → Number) where
  drawn_number :
      (x : Number)
      → draw_port (parse_port to_number (number x))
        ≡ (if is_port x then drawn (port_of x) else page_gone)
  unfolding parse_port preprocess_port port_schema
  drawn_number nan = refl
  drawn_number other_number = refl
  drawn_number (natural n) = draw_if (port_schema n) n

  module _ (field_value : PortInput → PortInput)
      (keeps_number : (x : Number) → field_value (number x) ≡ number x) where
    type_port_lem :
        (value : Text) (n : ℕ)
        → truthy value ≡ true
        → type_port to_number field_value value (drawn n)
          ≡ (if is_port (to_number value) then drawn (port_of (to_number value)) else page_gone)
    unfolding type_port parse_port preprocess_port
    type_port_lem [] n h = cc
    type_port_lem (c ∷ cs) n h =
        ap (λ v. draw_port (parse_port to_number v)) (keeps_number (to_number (c ∷ cs)))
        ∙ drawn_number (to_number (c ∷ cs))

    stays_gone :
        (values : List Text) → type_ports to_number field_value values page_gone ≡ page_gone
    unfolding type_ports type_port
    stays_gone [] = refl
    stays_gone (value ∷ values) = stays_gone values

    type_ports-drawn :
        (b : Bool) (values : List Text) (x : Number) (later : PortField)
        → type_ports to_number field_value values (drawn (port_of x)) ≡ later
        → type_ports to_number field_value values (if b then drawn (port_of x) else page_gone)
          ≡ (if b then later else page_gone)
    type_ports-drawn true values x later h = h
    type_ports-drawn false values x later h = stays_gone values

    if-and :
        (a b : Bool) (n : ℕ)
        → (if a then if b then drawn n else page_gone else page_gone)
          ≡ (if a && b then drawn n else page_gone)
    if-and true b n = refl
    if-and false b n = refl

    -- However the port is typed, without the field being cleared, the page stays exactly as long as
    -- every text that the field held on the way denotes a whole number from 1 to 65535, and then
    -- shows the last one. One other text, as `0` or a digit too many, takes the page away for good.
    -- The library of forms gives back a number that it was handed.
    pub type_ports_lem :
        (values : List Text) (n : ℕ)
        → all truthy values ≡ true
        → type_ports to_number field_value values (drawn n) ≡ (
            if all (λ value. is_port (to_number value)) values
            then drawn (last_port to_number values n)
            else page_gone)
    unfolding type_ports
    type_ports_lem [] n h = refl
    type_ports_lem (value ∷ values) n h =
        let (now, later) = (and-eq-true_iff (truthy value) (all truthy values)).0 h in
        let x = to_number value in
        ap (type_ports to_number field_value values) (type_port_lem value n now)
        ∙ type_ports-drawn (is_port x) values x _ (type_ports_lem values (port_of x) later)
        ∙ if-and (is_port x) _ _
