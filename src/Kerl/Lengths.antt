-- ===== src/Kerl/Lengths.antt =====
-- The conversion of bytes gives 81 values and 243 trits.
use iota_go.Common.{
  ℕ, zero, suc, ◌+◌, ◌*◌, ◌/◌, ◌≡◌, refl, ap, sym, ◌∙◌, inl, inr, Bool, true, ◌&&◌, List, [], ◌∷◌,
  ◌==◌, if◌then◌else◌, length, replicate, length-set, length-append, get_elem?, arith, ℤ, pos,
  negsuc, Option-cases,
}
use iota_go.Consts.{ok, >>=_split, ok_inj}
use iota_go.Trinary.Trits.{Trits}
use iota_go.Trinary.Tryte.{at, at_ℤ, tryte_index, tryte_value_to_trits_lut, must_put_tryte_trits}
use iota_go.Kerl.Bigint.{set_bytes, msb, add}
use iota_go.Kerl.Convert.{
  max_ter_243, chunk_digits, uint32_to_tryte_values, divide_loop, zero_last_value,
  bytes_to_tryte_values, trits_of_values,
}

length-chunk_digits : (n c : ℕ) → length (chunk_digits n c) ≡ n
unfolding chunk_digits
length-chunk_digits zero c = refl
length-chunk_digits (suc zero) c = refl
length-chunk_digits (suc (suc n)) c = ap suc (length-chunk_digits (suc n) (c / 27))

length-uint32_to_tryte_values :
    (c : ℕ) (cs : List ℕ) → length (uint32_to_tryte_values (c ∷ cs)) ≡ 6 * length cs + 3
unfolding uint32_to_tryte_values
length-uint32_to_tryte_values c [] = length-chunk_digits 3 c
length-uint32_to_tryte_values c (d ∷ cs) = omega (
  arith,
  length-append (chunk_digits 6 c) (uint32_to_tryte_values (d ∷ cs)),
  length-chunk_digits 6 c,
  length-uint32_to_tryte_values d cs,
)

length-divide_loop : (n rem : ℕ) (words : List ℕ) → length (divide_loop n rem words) ≡ n
unfolding divide_loop
length-divide_loop zero rem words = refl
length-divide_loop (suc n) rem words = ap suc (length-divide_loop n 0 _)

length-zero_last_value : (vs : List ℤ) → length (zero_last_value vs) ≡ length vs
unfolding zero_last_value
length-zero_last_value vs = elim (Option-cases (get_elem? vs 80)) [
  | inl at ↦ rw (zero_last_value, at) refl
  | inr (v, at) ↦ rw (zero_last_value, at) (length-set vs 80 _)
]

length-values_of_chunks : (cs : List ℕ) → length cs ≡ 14 → length (uint32_to_tryte_values cs) ≡ 81
length-values_of_chunks [] size = absurd (omega (arith, size))
length-values_of_chunks (c ∷ cs) size = omega (arith, size, length-uint32_to_tryte_values c cs)

-- 81 values, whatever the bytes are.
pub length-bytes_to_tryte_values :
    (bytes : List ℕ) (vs : List ℤ) → bytes_to_tryte_values bytes ≡ ok vs → length vs ≡ 81
unfolding bytes_to_tryte_values
length-bytes_to_tryte_values bytes vs done =
    let (b, h1, h2) = >>=_split (set_bytes (replicate 12 0) bytes) _ done in
    let (top, h3, h4) = >>=_split (msb b) _ h2 in
    let (sum, h5, h6) = >>=_split (add b max_ter_243) _ h4 in
    let carry = if top == 0 then sum.1 + 1 else sum.1 in
    let words = divide_loop 14 carry (sum.0) in
    ap length (sym (ok_inj h6))
    ∙ length-zero_last_value (uint32_to_tryte_values words)
    ∙ length-values_of_chunks words (length-divide_loop 14 carry (sum.0))

-- Rows of three trits.
rows_of_three : List Trits → Bool
rows_of_three [] = true
rows_of_three (r ∷ rows) = (length r == 3) && rows_of_three rows

length-at :
    (rows : List Trits) (i : ℕ) (ts : Trits)
    → rows_of_three rows ≡ true
    → at rows i ≡ ok ts
    → length ts ≡ 3
unfolding rows_of_three
length-at [] i ts all found = cc
length-at (r ∷ rows) zero ts all found = ap length (sym (ok_inj found)) ∙ ground (arith, all)
length-at (r ∷ rows) (suc i) ts all found = length-at rows i ts (ground (arith, all)) found

length-must_put_tryte_trits :
    (v : ℤ) (ts : Trits) → must_put_tryte_trits (replicate 3 (pos 0)) v ≡ ok ts → length ts ≡ 3
unfolding must_put_tryte_trits rows_of_three
length-must_put_tryte_trits v ts done =
    let (row, found, joined) = >>=_split (at_ℤ tryte_value_to_trits_lut (tryte_index v)) _ done in
    let three = of_index (tryte_index v) row found in
    ap length (sym (ok_inj joined)) ∙ length-append row [] ∙ ap (λ n. n + 0) three
  where
    of_index : (i : ℤ) (row : Trits) → at_ℤ tryte_value_to_trits_lut i ≡ ok row → length row ≡ 3
    of_index (pos i) row found = length-at tryte_value_to_trits_lut i row refl found
    of_index (negsuc i) row found = cc

pub length-trits_of_values :
    (vs : List ℤ) (trits : Trits) → trits_of_values vs ≡ ok trits → length trits ≡ 3 * length vs
unfolding trits_of_values
length-trits_of_values [] trits done = ap length (sym (ok_inj done))
length-trits_of_values (v ∷ vs) trits done =
    let (group, h1, h2) = >>=_split (must_put_tryte_trits (replicate 3 (pos 0)) v) _ done in
    let (rest, h3, h4) = >>=_split (trits_of_values vs) _ h2 in
    let joined : length trits ≡ length group + length rest =
      ap length (sym (ok_inj h4)) ∙ length-append group rest in
    omega (arith, joined, length-must_put_tryte_trits v group h1, length-trits_of_values vs rest h3)
