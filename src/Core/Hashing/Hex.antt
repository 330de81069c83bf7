-- ===== src/Core/Hashing/Hex.antt =====
-- `hex_encode` of crates/decision-gate-core/src/core/hashing.rs
use Prim.Native.Char.{Char}
use Prim.Native.String.{String}
use Prim.Native.Nat.{ℕ, ◌/◌, ◌%◌}
use mathlib.Core.List.{List, [], ◌∷◌}
use decision_gate.Prelude.{get_elem?, none, some}

abbrev hex_table : List Char
hex_table =
    "0" ∷ "1" ∷ "2" ∷ "3" ∷ "4" ∷ "5" ∷ "6" ∷ "7" ∷ "8" ∷ "9" ∷ "a" ∷ "b" ∷ "c" ∷ "d" ∷ "e" ∷ "f"
    ∷ []

-- `HEX[i]`; the index of a nibble is below 16.
pub hex_digit : ℕ → Char
hex_digit i = elim (get_elem? hex_table i) [ none ↦ "0" | some c ↦ c ]

unfoldable pub hex_encode : List ℕ → String
unfolding hex_digit
hex_encode [] = String.[]
hex_encode (byte ∷ bytes) =
    String.◌∷◌ (hex_digit (byte / 16)) (String.◌∷◌ (hex_digit (byte % 16)) (hex_encode bytes))
