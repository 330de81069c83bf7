-- ===== src/Runtime/Comparator/Text.antt =====
-- The operations on `str` and byte slices that comparator.rs calls.
use Prim.Native.Nat.{compare, Ordering}
use Prim.Native.Char.{Char, code}
use decision_gate.Prelude.{
  ℕ, ◌+◌, ◌*◌, ◌-◌, String, Bool, true, false, ◌&&◌, ◌||◌, Option, none, some, List, [], ◌∷◌, leb,
  ltb, nat_beq, if◌then◌else◌,
}

-- `str::cmp`: the bytes of UTF-8 are ordered as the code points are.
unfoldable pub string_cmp : String → String → Ordering
string_cmp String.[] String.[] = Ordering.eq
string_cmp String.[] (String.◌∷◌ d t) = Ordering.lt
string_cmp (String.◌∷◌ c s) String.[] = Ordering.gt
string_cmp (String.◌∷◌ c s) (String.◌∷◌ d t) =
    let rest = string_cmp s t in
    elim (compare (code c) (code d)) [
      | Ordering.lt ↦ Ordering.lt
      | Ordering.eq ↦ rest
      | Ordering.gt ↦ Ordering.gt
    ]

starts_with : String → String → Bool
starts_with s String.[] = true
starts_with String.[] (String.◌∷◌ d t) = false
starts_with (String.◌∷◌ c s) (String.◌∷◌ d t) = nat_beq (code c) (code d) && starts_with s t

-- `haystack.contains(needle)`
unfoldable pub contains_text : String → String → Bool
unfolding starts_with
contains_text String.[] needle = starts_with String.[] needle
contains_text (String.◌∷◌ c s) needle =
    starts_with (String.◌∷◌ c s) needle || contains_text s needle

-- `value.split('-')`: one part more than there are dashes.
abbrev extend : Char → List String → List String
extend c [] = String.◌∷◌ c String.[] ∷ []
extend c (part ∷ parts) = String.◌∷◌ c part ∷ parts

unfoldable pub split : String → List String
split String.[] = String.[] ∷ []
split (String.◌∷◌ c s) =
    let rest = split s in if nat_beq (code c) b'-' then String.[] ∷ rest else extend c rest

digits : ℕ → ℕ → String → Option ℕ
digits bound n String.[] = some n
digits bound n (String.◌∷◌ c s) =
    let m = n * 10 + (code c - b'0') in
    let rest = digits bound m s in
    if leb b'0' (code c) && leb (code c) b'9' then (if ltb bound m then none else rest) else none

unsigned : ℕ → String → Option ℕ
unfolding digits
unsigned bound String.[] = none
unsigned bound s = digits bound 0 s

-- `parse()` for a number up to `bound`, on a text with no dash: digits after an optional plus.
unfoldable pub parse_unsigned : ℕ → String → Option ℕ
unfolding unsigned
parse_unsigned bound String.[] = none
parse_unsigned bound (String.◌∷◌ c s) =
    if nat_beq (code c) b'+' then unsigned bound s else unsigned bound (String.◌∷◌ c s)

abbrev pub bytes_beq : List ℕ → List ℕ → Bool
bytes_beq [] [] = true
bytes_beq (a ∷ as') (b ∷ bs) = nat_beq a b && bytes_beq as' bs
bytes_beq _ _ = false
