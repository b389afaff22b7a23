-- ===== src/Examples/Ports.antt =====
-- Examples on the field of the port.
use nginx_admin.Common.{
  ℕ, ◌+◌, ◌*◌, ◌-◌, ◌&&◌, leb, List, [], ◌∷◌, Text, text, ◌≡◌, refl, if◌then◌else◌,
}
use nginx_admin.Entities.Ports.{Number, nan, natural, PortInput}
use nginx_admin.Pages.Ports.{drawn, page_gone, type_ports, type_ports_lem}

-- Decimal digits, in the place of `Number`.
abbrev read : Text → ℕ → Number
read [] n = natural n
read (c ∷ cs) n =
    let rest = read cs (n * 10 + (c - 48)) in if leb 48 c && leb c 57 then rest else nan

abbrev to_number : Text → Number
to_number s = read s 0

abbrev field_value : PortInput → PortInput
field_value v = v

-- 8080 is typed behind 80, and then a digit too many.
abbrev typed_texts : List Text
typed_texts = text "808" ∷ text "8080" ∷ text "80800" ∷ []

type_ports_lem_example : type_ports to_number field_value typed_texts (drawn 80) ≡ page_gone
type_ports_lem_example = type_ports_lem to_number field_value (λ x. refl) typed_texts 80 refl
