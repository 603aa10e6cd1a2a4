-- ===== src/Closure/Builder/Names.antt =====
-- The arguments that the builder checks: names, kinds, types and rights of src/closure.c.
use kobox.Prelude.{
  ℕ, Bool, true, false, [], ◌∷◌, Option, none, some, ◌&&◌, ◌||◌, not, ltb, leb, ◌==◌, length,
  if◌then◌else◌,
}
use kobox.Closure.{Bytes}

-- KB2_CLOSURE_NAME_MAX
abbrev pub name_max : ℕ
name_max = 127

-- A printing character that is no slash: the test in the loop of `kb2_name_valid`.
unfoldable pub name_byte_valid : ℕ → Bool
name_byte_valid b = not (ltb b 0x21 || (ltb 0x7e b || (b == b'/' || b == 0x5c)))

unfoldable pub name_bytes_valid : Bytes → Bool
unfolding name_byte_valid
name_bytes_valid [] = true
name_bytes_valid (b ∷ bs) = name_byte_valid b && name_bytes_valid bs

unfoldable pub name_valid : Option Bytes → Bool
unfolding name_bytes_valid
name_valid none = false
name_valid (some name) =
    not (length name == 0) && (leb (length name) name_max && name_bytes_valid name)

abbrev pub artifact_kind_valid : ℕ → Bool
artifact_kind_valid kind = leb kind 1

abbrev pub symbol_kind_valid : ℕ → Bool
symbol_kind_valid kind = leb kind 1

abbrev pub resource_type_valid : ℕ → Bool
resource_type_valid type = leb type 4

-- The rights of memory, device, storage, notification and channel, and of no other type.
unfoldable pub known_resource_rights : ℕ → ℕ
known_resource_rights type =
    if type == 0
    then 15
    else if type == 1
    then 7
    else if type == 2
    then 15
    else if type == 3
    then 3
    else if type == 4
    then 3
    else 0
