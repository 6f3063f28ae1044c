-- ===== src/Trinary/Number.antt =====
-- trinary/trinary.go and math/math.go: integers as trits and trytes. An int64 is an integer, and a
-- uint64 a number; both wrap where the code's word does.
pub mod Bounds
pub mod Digits
pub mod RoundTrip
use iota_go.Common.{
  ℕ, zero, suc, ◌+◌, ◌-◌, ◌*◌, ◌/◌, ◌%◌, ◌^◌, Bool, List, [], ◌∷◌, ltb, leb, ◌==◌, if◌then◌else◌,
  take, ℤ, pos, negsuc, ◌+ℤ◌, ◌-ℤ◌, scale, neg, eqb_ℤ, ltb_ℤ, int8, int64, uint64,
}
use iota_go.Consts.{Result, ok, err, panic, ◌>>=◌, trinary_radix, tryte_radix, trits_per_tryte}
use iota_go.Trinary.Trits.{Trits}
use iota_go.Trinary.Tryte.{must_tryte_value_to_tryte, must_tryte_to_tryte_value}
use iota_go.Trinary.Convert.{Trytes, must_trytes_to_trits}

-- `-v` of the least int64 is itself, so this one is answered first.
unfoldable pub abs_int64 : ℤ → ℕ
unfolding int64 uint64 neg
abs_int64 v =
    if eqb_ℤ v (negsuc (2 ^ 63 - 1))
    then 2 ^ 63
    else if ltb_ℤ v (pos 0)
    then uint64 (int64 (neg v))
    else uint64 v

-- `for valueAbs > vp { vp = vp*TrinaryRadix + 1; num++ }`. 41 trits hold every int64, and `num`
-- begins at 1, so 40 rounds are enough.
unfoldable pub min_trits_loop : ℕ → ℕ → ℕ → ℕ → ℕ
min_trits_loop zero value_abs vp num = num
min_trits_loop (suc rounds) value_abs vp num =
    let more = min_trits_loop rounds value_abs ((vp * trinary_radix + 1) % 2 ^ 64) (num + 1) in
    if ltb vp value_abs then more else num

unfoldable pub min_trits : ℤ → ℕ
min_trits value =
    let value_abs = abs_int64 value in
    if leb 308836698141973 value_abs
    then min_trits_loop 40 value_abs 308836698141973 31
    else if leb 5230176601 value_abs
    then min_trits_loop 40 value_abs 5230176601 21
    else if leb 88573 value_abs
    then min_trits_loop 40 value_abs 88573 11
    else min_trits_loop 40 value_abs 1 1

-- One digit of `IntToTrytes`, from v + TryteRadix/2 in a uint64.
unfoldable pub tryte_digit : ℕ → Bool → ℤ
unfolding int8 ◌-ℤ◌ neg
tryte_digit v negative =
    let tryte = int8 (int8 (pos (v % tryte_radix)) -ℤ pos (tryte_radix / 2)) in
    if negative then int8 (neg tryte) else tryte

unfoldable pub int_to_trytes_loop : ℕ → ℕ → Bool → Result Trytes
int_to_trytes_loop zero v negative = ok []
int_to_trytes_loop (suc n) v negative =
    let nine = (do rest ← int_to_trytes_loop n v negative; ok (b'9' ∷ rest)) in
    let raised = (v + tryte_radix / 2) % 2 ^ 64 in
    let digit = (do
      tryte ← must_tryte_value_to_tryte (tryte_digit raised negative)
      rest ← int_to_trytes_loop n (raised / tryte_radix) negative
      ok (tryte ∷ rest)) in
    if v == 0 then nine else digit

unfoldable pub int_to_trytes : ℤ → ℕ → Result Trytes
int_to_trytes value trytes_cnt =
    int_to_trytes_loop trytes_cnt (abs_int64 value) (ltb_ℤ value (pos 0))

unfoldable pub int_to_trits : ℤ → Result Trits
int_to_trits value = do
  let num_trits = min_trits value
  let num_trytes = (num_trits + trits_per_tryte - 1) / trits_per_tryte
  trytes ← int_to_trytes value num_trytes
  trits ← must_trytes_to_trits trytes
  ok (take num_trits trits)

-- The loop runs from the last trit down.
unfoldable pub trits_to_int : Trits → ℤ
trits_to_int [] = pos 0
trits_to_int (t ∷ ts) = int64 (int64 (scale trinary_radix (trits_to_int ts)) +ℤ t)

-- What is left when the 9s at the end are ignored.
unfoldable pub keep : ℕ → Trytes → Trytes
keep t [] = if t == b'9' then [] else t ∷ []
keep t (r ∷ rs) = t ∷ r ∷ rs

unfoldable pub trim_nines : Trytes → Trytes
trim_nines [] = []
trim_nines (t ∷ ts) = keep t (trim_nines ts)

unfoldable pub trytes_to_int_loop : Trytes → Result ℤ
trytes_to_int_loop [] = ok (pos 0)
trytes_to_int_loop (t ∷ ts) = do
  val ← trytes_to_int_loop ts
  v ← must_tryte_to_tryte_value t
  ok (int64 (int64 (scale tryte_radix val) +ℤ v))

unfoldable pub trytes_to_int : Trytes → Result ℤ
trytes_to_int t = trytes_to_int_loop (trim_nines t)
