-- ===== src/Trinary/Convert.antt =====
-- trinary/trinary.go: conversions between trits and trytes. A string of trytes is its bytes: the
-- loops of `ValidTrytes` go over runes, and a byte above 127 begins a rune that is no tryte.
pub mod RoundTrip
use mathlib.Core.List.{reverse}
use iota_go.Common.{
  ℕ, ◌+◌, ◌-◌, ◌%◌, ◌≡◌, refl, arith, Bool, true, false, ◌&&◌, not, List, [], ◌∷◌, ◌++◌, ltb, leb,
  ◌==◌, if◌then◌else◌, length, is_empty, replicate, pos,
}
use iota_go.Consts.{
  Result, ok, err, panic, ◌>>=◌, ◌>>◌, invalid_trytes, invalid_trits_length, trits_per_tryte,
}
use iota_go.Trinary.Trits.{Trits, valid_trits, can_trits_to_trytes}
use iota_go.Trinary.Tryte.{
  must_tryte_value_to_tryte, must_tryte_to_tryte_value, is_valid_tryte, must_trits_to_tryte_value,
  must_put_tryte_trits,
}

abbrev pub Trytes : Type 0
Trytes = List ℕ

-- The loop makes len(trits)/3 rounds: one or two trits at the end are left out.
unfoldable pub must_trits_to_trytes : Trits → Result Trytes
must_trits_to_trytes (a ∷ b ∷ c ∷ rest) = do
  v ← must_trits_to_tryte_value (a ∷ b ∷ c ∷ rest)
  tryte ← must_tryte_value_to_tryte v
  trytes ← must_trits_to_trytes rest
  ok (tryte ∷ trytes)
must_trits_to_trytes _ = ok []

unfoldable pub trits_to_trytes : Trits → Result Trytes
trits_to_trytes trits = do
  valid_trits trits
  if not (can_trits_to_trytes trits) then err invalid_trits_length else must_trits_to_trytes trits

-- The loop of `ValidTrytes`.
unfoldable pub all_valid_trytes : Trytes → Result (Unit {0})
all_valid_trytes [] = ok tt
all_valid_trytes (t ∷ ts) =
    if not (is_valid_tryte t) then err invalid_trytes else all_valid_trytes ts

unfoldable pub valid_trytes : Trytes → Result (Unit {0})
valid_trytes trytes = if is_empty trytes then err invalid_trytes else all_valid_trytes trytes

unfoldable pub new_trytes : Trytes → Result Trytes
unfolding valid_trytes
new_trytes s = do valid_trytes s; ok s

-- Each tryte is put into the three zero trits of the new slice at its place.
unfoldable pub must_trytes_to_trits : Trytes → Result Trits
must_trytes_to_trits [] = ok []
must_trytes_to_trits (t ∷ ts) = do
  v ← must_tryte_to_tryte_value t
  group ← must_put_tryte_trits (replicate 3 (pos 0)) v
  trits ← must_trytes_to_trits ts
  ok (group ++ trits)

unfoldable pub trytes_to_trits : Trytes → Result Trits
trytes_to_trits trytes = do valid_trytes trytes; must_trytes_to_trits trytes

unfoldable pub must_pad : Trytes → ℕ → Trytes
must_pad trytes n =
    if leb n (length trytes) then trytes else trytes ++ replicate (n - length trytes) b'9'

unfoldable pub pad : Trytes → ℕ → Result Trytes
unfolding valid_trytes must_pad
pad trytes n = do if is_empty trytes then ok tt else valid_trytes trytes; ok (must_pad trytes n)

-- Equality of strings.
unfoldable pub trytes_eq : Trytes → Trytes → Bool
trytes_eq [] [] = true
trytes_eq [] (b ∷ bs) = false
trytes_eq (a ∷ xs) [] = false
trytes_eq (a ∷ xs) (b ∷ bs) = let rest = trytes_eq xs bs in a == b && rest

pub trytes_eq_refl : (ts : Trytes) → trytes_eq ts ts ≡ true
unfolding trytes_eq
trytes_eq_refl [] = refl
trytes_eq_refl (t ∷ ts) = ground (arith, trytes_eq_refl ts)

pub trytes_eq→eq : (a b : Trytes) → trytes_eq a b ≡ true → a ≡ b
unfolding trytes_eq
trytes_eq→eq [] [] h = refl
trytes_eq→eq [] (b ∷ bs) h = absurd (cc)
trytes_eq→eq (a ∷ xs) [] h = absurd (cc)
trytes_eq→eq (a ∷ xs) (b ∷ bs) h =
    let head : a ≡ b = ground arith in let tail = trytes_eq→eq xs bs (ground arith) in cc
