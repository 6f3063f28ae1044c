-- ===== src/Transaction/Parts.antt =====
-- The parts of a transaction's trits, as fields that hold what is read from them.
use iota_go.Common.{
  ℕ, ◌+◌, ◌*◌, ◌≤◌, ◌<◌, ◌≡◌, refl, ap, sym, ◌∙◌, not, [], ◌∷◌, length, Bool-cases, inl, inr, arith,
  ℤ, pos, int64, uint64, InInt64, ◌^◌, slice, field, drop, length-take, length-drop, eqb_ℤ,
  replicate, ◌++◌, field_split, slice-append,
}
use mathlib.Core.List.{reverse, reverse_aux, reverse-reverse}
use iota_go.Consts.{ok, >>=_split, guard_split}
use iota_go.Trinary.Trits.{Trits, valid_trits, can_trits_to_trytes, leading_zeros, trailing_zeros}
use iota_go.Trinary.Convert.{Trytes, trits_to_trytes, must_trits_to_trytes}
use iota_go.Trinary.Convert.RoundTrip.{AllTrits, trits_of}
use iota_go.Trinary.Value.{max_value}
use iota_go.Trinary.Number.{trits_to_int}
use iota_go.Transaction.Fields.{
  AllTrits-take, AllTrits-drop, IsText, IsNumber, number_trits, length-number_trits,
}
use iota_go.Transaction.Layout.{IsCount}
use iota_go.Transaction.Parsed.{reads_text, reads-IsNumber}

count_read : (v : ℤ) → InInt64 v → (int64 (pos (uint64 v)) ≡ v) × (uint64 v < 2 ^ 64)
unfolding int64 uint64
count_read v h = ground arith

small_27 : max_value 27 < 2 ^ 63
unfolding max_value
small_27 = omega arith

small_33 : max_value 33 < 2 ^ 63
unfolding max_value
small_33 = omega arith

AllTrits-slice : (i n : ℕ) (ts : Trits) → AllTrits ts → AllTrits (slice i n ts)
unfolding slice
AllTrits-slice i n ts h = AllTrits-take n (drop i ts) (AllTrits-drop i ts h)

pub trits_to_trytes-ok :
    (ts : Trits) (s : Trytes) → trits_to_trytes ts ≡ ok s → must_trits_to_trytes ts ≡ ok s
unfolding trits_to_trytes
trits_to_trytes-ok ts s h =
    let (u, valid, h1) = >>=_split (valid_trits ts) _ h in
    (guard_split (not (can_trits_to_trytes ts)) _ h1).1

leading_zeros_bound : (ts : Trits) → leading_zeros ts ≤ length ts
unfolding leading_zeros
leading_zeros_bound [] = omega arith
leading_zeros_bound (t ∷ ts) = ground (arith, leading_zeros_bound ts)

leading_zeros-replicate :
    (ts : Trits) → leading_zeros ts ≡ length ts → ts ≡ replicate (length ts) (pos 0)
unfolding leading_zeros
leading_zeros-replicate [] h = refl
leading_zeros-replicate (t ∷ ts) h = elim (Bool-cases (eqb_ℤ t (pos 0))) [
  | inl zero ↦
      let head : t ≡ pos 0 = ground (arith, zero) in
      let tail = leading_zeros-replicate ts (ground (arith, zero, h)) in cc
  | inr other ↦ absurd (omega (arith, rw other at h))
]

length-reverse_aux : (ts us : Trits) → length (reverse_aux ts us) ≡ length ts + length us
length-reverse_aux [] us = omega arith
length-reverse_aux (t ∷ ts) us = omega (arith, length-reverse_aux ts (t ∷ us))

trailing_zeros-replicate :
    (ts : Trits) → length ts ≡ 48 → trailing_zeros ts ≡ 48 → ts ≡ replicate 48 (pos 0)
unfolding trailing_zeros
trailing_zeros-replicate ts len h =
    let size : length (reverse ts) ≡ 48 = omega (arith, length-reverse_aux ts [], len) in
    let zeros : reverse ts ≡ replicate 48 (pos 0) =
      leading_zeros-replicate (reverse ts) (h ∙ sym size) ∙ ap (λ n. replicate n (pos 0)) size in
    sym (reverse-reverse ts) ∙ ap reverse zeros

module _ (trits : Trits) (size : length trits ≡ 8019) (valid : AllTrits trits) where
  length_part : (i n : ℕ) → i + n ≤ 8019 → length (slice i n trits) ≡ n
  unfolding slice
  length_part i n h = omega (arith, length-take n (drop i trits), length-drop i trits, size)

  pub part_text :
      (i n : ℕ) (s : Trytes)
      → i + 3 * n ≤ 8019
      → must_trits_to_trytes (slice i (3 * n) trits) ≡ ok s
      → IsText n s × (trits_of s ≡ slice i (3 * n) trits)
  part_text i n s h e =
      reads_text _ n s (AllTrits-slice i (3 * n) trits valid) (length_part i (3 * n) h) e

  pub part-IsNumber :
      (i : ℕ) (v : ℤ)
      → i + 27 ≤ 8019
      → v ≡ trits_to_int (slice i 27 trits)
      → IsNumber 27 v × (field (pos 0) 27 (number_trits v) ≡ slice i 27 trits)
  part-IsNumber i v h e = rw e (
      reads-IsNumber 27 (omega arith) small_27 _ (AllTrits-slice i 27 trits valid)
        (length_part i 27 h))

  pub part-IsCount :
      (i n : ℕ)
      → i + 27 ≤ 8019
      → n ≡ uint64 (trits_to_int (slice i 27 trits))
      → IsCount n × (field (pos 0) 27 (number_trits (int64 (pos n))) ≡ slice i 27 trits)
  part-IsCount i n h e =
      let (number, held) = part-IsNumber i (trits_to_int (slice i 27 trits)) h refl in
      let (back, word) = count_read _ (number.word) in
      rw (e, back) (record { word = word; number = rw back number }, held)

  pub part_value :
      (v : ℤ)
      → v ≡ trits_to_int (slice 6804 33 trits)
      → trailing_zeros (slice 6837 48 trits) ≡ 48
      → IsNumber 33 v × (field (pos 0) 81 (number_trits v) ≡ slice 6804 81 trits)
  part_value v e unused =
      let (number, held) =
        reads-IsNumber 33 (omega arith) small_33 _ (AllTrits-slice 6804 33 trits valid)
          (length_part 6804 33 (omega arith)) in
      let zeros =
        trailing_zeros-replicate (slice 6837 48 trits) (length_part 6837 48 (omega arith)) unused in
      rw e (
        number,
        field_split (pos 0) 33 48 _ (length-number_trits 33 _ (omega arith) number)
            ∙ ap (λ xs. xs ++ replicate 48 (pos 0)) held
            ∙ ap (λ ys. slice 6804 33 trits ++ ys) (sym zeros)
            ∙ slice-append 6804 33 48 trits,
      )
