-- ===== src/Trinary/Tryte.antt =====
-- trinary/trinary.go: single trytes. A character is its byte, a tryte value an int8.
pub mod Values
pub mod Groups
use Prim.Native.String.{String}
use iota_go.Common.{
  ℕ, zero, suc, ◌+◌, ◌-◌, ◌%◌, Bool, true, false, ◌&&◌, ◌||◌, not, List, [], ◌∷◌, ltb, leb, ◌==◌,
  if◌then◌else◌, get_elem?, Option, none, some, drop, ◌++◌, ℤ, pos, negsuc, ◌+ℤ◌, ◌-ℤ◌, scale, int8,
  uint64,
}
use iota_go.Consts.{Result, ok, err, panic, invalid_trytes, ◌>>=◌}
use iota_go.Trinary.Trits.{Trits}

-- An index out of range panics.
abbrev pub at {ℓ} : {A : Type ℓ} → List A → ℕ → Result A
at xs i = elim (get_elem? xs i) [ none ↦ panic | some a ↦ ok a ]

abbrev pub at_ℤ {ℓ} : {A : Type ℓ} → List A → ℤ → Result A
at_ℤ xs (pos i) = at xs i
at_ℤ xs (negsuc i) = panic

abbrev m : ℤ
m = negsuc 0

abbrev z : ℤ
z = pos 0

abbrev p : ℤ
p = pos 1

abbrev row : ℤ → ℤ → ℤ → Trits
row a b c = a ∷ b ∷ c ∷ []

abbrev pub tryte_value_to_trits_lut : List Trits
tryte_value_to_trits_lut =
    row m m m
    ∷ row z m m
    ∷ row p m m
    ∷ row m z m
    ∷ row z z m
    ∷ row p z m
    ∷ row m p m
    ∷ row z p m
    ∷ row p p m
    ∷ row m m z
    ∷ row z m z
    ∷ row p m z
    ∷ row m z z
    ∷ row z z z
    ∷ row p z z
    ∷ row m p z
    ∷ row z p z
    ∷ row p p z
    ∷ row m m p
    ∷ row z m p
    ∷ row p m p
    ∷ row m z p
    ∷ row z z p
    ∷ row p z p
    ∷ row m p p
    ∷ row z p p
    ∷ row p p p
    ∷ []

abbrev pub tryte_value_to_tryte_lut : List ℕ
tryte_value_to_tryte_lut =
    b'N' ∷ b'O' ∷ b'P' ∷ b'Q' ∷ b'R' ∷ b'S' ∷ b'T' ∷ b'U' ∷ b'V' ∷ b'W' ∷ b'X' ∷ b'Y' ∷ b'Z' ∷ b'9'
    ∷ b'A' ∷ b'B' ∷ b'C' ∷ b'D' ∷ b'E' ∷ b'F' ∷ b'G' ∷ b'H' ∷ b'I' ∷ b'J' ∷ b'K' ∷ b'L' ∷ b'M' ∷ []

abbrev pub tryte_to_tryte_value_lut : List ℤ
tryte_to_tryte_value_lut =
    pos 0
    ∷ pos 0
    ∷ pos 0
    ∷ pos 0
    ∷ pos 0
    ∷ pos 0
    ∷ pos 0
    ∷ pos 0
    ∷ pos 1
    ∷ pos 2
    ∷ pos 3
    ∷ pos 4
    ∷ pos 5
    ∷ pos 6
    ∷ pos 7
    ∷ pos 8
    ∷ pos 9
    ∷ pos 10
    ∷ pos 11
    ∷ pos 12
    ∷ pos 13
    ∷ negsuc 12
    ∷ negsuc 11
    ∷ negsuc 10
    ∷ negsuc 9
    ∷ negsuc 8
    ∷ negsuc 7
    ∷ negsuc 6
    ∷ negsuc 5
    ∷ negsuc 4
    ∷ negsuc 3
    ∷ negsuc 2
    ∷ negsuc 1
    ∷ negsuc 0
    ∷ []

-- v - MinTryteValue, in an int8
abbrev pub tryte_index : ℤ → ℤ
tryte_index v = int8 (v -ℤ negsuc 12)

-- uint(v - MinTryteValue): a negative index becomes one of at least 2^63, which panics too.
unfoldable pub must_tryte_value_to_tryte : ℤ → Result ℕ
unfolding int8 uint64 ◌-ℤ◌
must_tryte_value_to_tryte v =
    let idx = uint64 (tryte_index v) in
    if leb 27 idx then panic else at tryte_value_to_tryte_lut idx

-- t - '9' in a byte
unfoldable pub must_tryte_to_tryte_value : ℕ → Result ℤ
must_tryte_to_tryte_value t = at tryte_to_tryte_value_lut ((t + 256 - b'9') % 256)

-- (t >= 'A' && t <= 'Z') || t == '9'
unfoldable pub is_valid_tryte : ℕ → Bool
is_valid_tryte t = leb b'A' t && leb t b'Z' || t == b'9'

unfoldable pub valid_tryte : ℕ → Result (Unit {0})
unfolding is_valid_tryte
valid_tryte t = if not (is_valid_tryte t) then err invalid_trytes else ok tt

-- trits[0] + trits[1]*3 + trits[2]*9, each step in an int8
unfoldable pub must_trits_to_tryte_value : Trits → Result ℤ
unfolding int8 ◌+ℤ◌ scale
must_trits_to_tryte_value (a ∷ b ∷ c ∷ rest) =
    ok (int8 (int8 (a +ℤ int8 (scale 3 b)) +ℤ int8 (scale 9 c)))
must_trits_to_tryte_value _ = panic

-- Writes the three trits of `v` over the first three of `trits`, or panics: the index is tested
-- when the first trit is read.
unfoldable pub must_put_tryte_trits : Trits → ℤ → Result Trits
unfolding int8 ◌-ℤ◌
must_put_tryte_trits (a ∷ b ∷ c ∷ rest) v = do
  trits ← at_ℤ tryte_value_to_trits_lut (tryte_index v)
  ok (trits ++ rest)
must_put_tryte_trits _ v = panic

-- The sign-neutral value of three trits as they stand in a tryte.
abbrev pub tryte_value : ℤ → ℤ → ℤ → ℤ
tryte_value a b c = a +ℤ (scale 3 (b +ℤ scale 3 c))
