-- ===== src/Cdc/Text/Lines.antt =====
-- A line as it is meant: a command and fields of a key and a value; and how it is written.
use pico_sdemu.Common.{ℕ, ◌≤◌, ◌≢◌, List, [], ◌∷◌, ◌++◌, map, length, All}
use pico_sdemu.Cdc.Text.{Token}

abbrev pub Field : Type 0
Field = Token × Token

pub record Line : Type 0 where
  pub command : Token
  pub fields : List Field

abbrev pub field_token : Field → Token
field_token (k, v) = k ++ (b'=' ∷ v)

abbrev pub tokens_of : Line → List Token
tokens_of l = l.command ∷ map field_token l.fields

unfoldable pub print_fields : List Field → List ℕ
print_fields [] = []
print_fields (f ∷ fs) = b' ' ∷ (field_token f ++ print_fields fs)

unfoldable pub print_line : Line → List ℕ
unfolding print_fields
print_line l = l.command ++ print_fields l.fields

-- Printable ASCII other than the space.
abbrev pub IsPrintable : List ℕ → Type 0
IsPrintable = All (λ c. (0x21 ≤ c) × (c ≤ 0x7e))

abbrev pub HasNoEquals : List ℕ → Type 0
HasNoEquals = All (λ c. c ≢ b'=')

abbrev pub NotIn : Token → List Token → Type 0
NotIn k = All (λ s. s ≢ k)

-- Nonempty printable keys and values, no `=` in a key, and no key twice or among those seen.
abbrev pub AreFields : List Token → List Field → Type 0
AreFields seen [] = Unit {0}
AreFields seen ((k, v) ∷ fs) =
    (k ≢ [])
    × (v ≢ [])
    × IsPrintable k
    × HasNoEquals k
    × IsPrintable v
    × NotIn k seen
    × AreFields (seen ++ (k ∷ [])) fs

pub record IsWellFormed (l : Line) : Type 0 where
  pub named : l.command ≢ []
  pub printable : IsPrintable l.command
  pub no_equals : HasNoEquals l.command
  pub fits : length l.fields ≤ 15
  pub keyed : AreFields [] l.fields
