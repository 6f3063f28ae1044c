-- ===== src/Trinary/Examples.antt =====
-- The theorems on trits and trytes at concrete inputs.
use mathlib.Core.List.{reverse}
use iota_go.Common.{◌*◌, ◌≡◌, refl, true, [], ◌∷◌, length, arith, ℤ, pos, negsuc, ◌+ℤ◌}
use iota_go.Consts.{ok}
use iota_go.Trinary.Reverse.{reverse_trits-reverse}
use iota_go.Trinary.Trits.{Trits, reverse_trits, valid_trit, valid_trits, all_valid_trits}
use iota_go.Trinary.Tryte.{
  is_valid_tryte, must_tryte_to_tryte_value, must_tryte_value_to_tryte, must_trits_to_tryte_value,
  must_put_tryte_trits,
}
use iota_go.Trinary.Convert.{
  Trytes, valid_trytes, all_valid_trytes, must_trytes_to_trits, must_trits_to_trytes,
  trits_to_trytes, trytes_to_trits,
}
use iota_go.Trinary.Convert.RoundTrip.{
  AllTrits, AreTrytes, trits_to_trytes-trytes_to_trits, trytes_to_trits-trits_to_trytes,
}
use iota_go.Trinary.Value.{value, shift}
use iota_go.Trinary.Number.{min_trits, int_to_trytes, int_to_trits, trytes_to_int}
use iota_go.Trinary.Number.Digits.{max_27}
use iota_go.Trinary.Number.Bounds.{IsLeast, min_trits-IsLeast}
use iota_go.Trinary.Number.RoundTrip.{
  trytes_to_int-int_to_trytes, trytes_value, Represents, trits_to_int-int_to_trits,
}
use iota_go.Trinary.Adder.{add_trits}
use iota_go.Trinary.Adder.Sums.{value-add_trits}

-- The trytes AZ and their trits.
abbrev two_trytes : Trytes
two_trytes = b'A' ∷ b'Z' ∷ []

abbrev six_trits : Trits
six_trits = pos 1 ∷ pos 0 ∷ pos 0 ∷ negsuc 0 ∷ pos 0 ∷ pos 0 ∷ []

to_trits_run : trytes_to_trits two_trytes ≡ ok six_trits
unfolding trytes_to_trits valid_trytes is_valid_tryte must_trytes_to_trits must_tryte_to_tryte_value
    must_put_tryte_trits all_valid_trytes
to_trits_run = refl

to_trytes_run : trits_to_trytes six_trits ≡ ok two_trytes
unfolding trits_to_trytes valid_trits must_trits_to_trytes must_trits_to_tryte_value
    must_tryte_value_to_tryte all_valid_trits valid_trit
to_trytes_run = refl

six_trits-AllTrits : AllTrits six_trits
unfolding valid_trit
six_trits-AllTrits = (refl, (refl, (refl, (refl, (refl, (refl, tt))))))

trits_to_trytes-trytes_to_trits_example :
    (trits_to_trytes six_trits ≡ ok two_trytes) × (length six_trits ≡ 3 * length two_trytes)
trits_to_trytes-trytes_to_trits_example =
    trits_to_trytes-trytes_to_trits two_trytes six_trits to_trits_run

trytes_to_trits-trits_to_trytes_example :
    (trytes_to_trits two_trytes ≡ ok six_trits) × (length six_trits ≡ 3 * length two_trytes)
trytes_to_trits-trits_to_trytes_example =
    trytes_to_trits-trits_to_trytes six_trits two_trytes to_trytes_run

min_trits-IsLeast_example : IsLeast 40 (min_trits (negsuc 39))
min_trits-IsLeast_example = min_trits-IsLeast (negsuc 39) (omega arith)

trytes_to_int-int_to_trytes_example :
    (s : Trytes) × (int_to_trytes (negsuc 99) 3 ≡ ok s)
    × (length s ≡ 3)
    × AreTrytes s
    × (trytes_value s ≡ negsuc 99)
    × (trytes_to_int s ≡ ok (negsuc 99))
trytes_to_int-int_to_trytes_example =
    trytes_to_int-int_to_trytes (negsuc 99) 3 (omega arith) (unfold max_27 in omega arith)

trits_to_int-int_to_trits_example :
    (ts : Trits) × (int_to_trits (negsuc 99) ≡ ok ts) × Represents (negsuc 99) ts
trits_to_int-int_to_trits_example = trits_to_int-int_to_trits (negsuc 99) (omega arith)

value-add_trits_example :
    (carry : ℤ) × (valid_trit carry ≡ true)
    × (value (add_trits six_trits six_trits) +ℤ shift (length (add_trits six_trits six_trits)) carry
        ≡ value six_trits +ℤ value six_trits)
    × AllTrits (add_trits six_trits six_trits)
value-add_trits_example = value-add_trits six_trits six_trits six_trits-AllTrits six_trits-AllTrits

reverse_trits-reverse_example : reverse_trits six_trits ≡ reverse six_trits
reverse_trits-reverse_example = reverse_trits-reverse six_trits
