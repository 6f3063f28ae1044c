-- ===== src/Kerl/Errors.antt =====
-- The conversion of bytes to trits returns no error, whatever the bytes are.
use iota_go.Common.{
  ℕ, zero, suc, ◌*◌, inl, inr, List, [], ◌∷◌, ◌==◌, length, take, drop, replicate, get_elem?, ℤ,
  pos, negsuc, Bool-cases, Option-cases,
}
use iota_go.Consts.{Result, ok, err, panic, ◌>>=◌}
use iota_go.Trinary.Trits.{Trits}
use iota_go.Trinary.Tryte.{at_ℤ, tryte_index, tryte_value_to_trits_lut, must_put_tryte_trits}
use iota_go.Kerl.Bigint.{Bigint, set_bytes, set_loop, uint32_of, msb, add}
use iota_go.Kerl.Convert.{max_ter_243, bytes_to_tryte_values, trits_of_values}

-- A value or a panic.
unfoldable pub NeverErr {ℓ} : {A : Type ℓ} → Result A → Type 0
NeverErr (ok a) = Unit
NeverErr (err e) = ⊥
NeverErr panic = Unit

pub >>=-NeverErr {ℓ κ} :
    {A : Type ℓ} {B : Type κ} (first : Result A) (next : A → Result B)
    → NeverErr first
    → ((a : A) → NeverErr (next a))
    → NeverErr (first >>= next)
unfolding NeverErr
>>=-NeverErr (ok a) next h1 h2 = h2 a
>>=-NeverErr (err e) next h1 h2 = h1
>>=-NeverErr panic next h1 h2 = tt

uint32_of-NeverErr : (buf : List ℕ) → NeverErr (uint32_of buf)
unfolding NeverErr uint32_of
uint32_of-NeverErr [] = tt
uint32_of-NeverErr (a ∷ []) = tt
uint32_of-NeverErr (a ∷ b ∷ []) = tt
uint32_of-NeverErr (a ∷ b ∷ c ∷ []) = tt
uint32_of-NeverErr (a ∷ b ∷ c ∷ d ∷ rest) = tt

set_loop-NeverErr : (n : ℕ) (buf : List ℕ) → NeverErr (set_loop n buf)
unfolding NeverErr set_loop
set_loop-NeverErr zero buf = tt
set_loop-NeverErr (suc n) buf =
    >>=-NeverErr (uint32_of (drop (4 * n) buf)) _ (uint32_of-NeverErr _)
      (λ w. >>=-NeverErr (set_loop n (take (4 * n) buf)) _ (set_loop-NeverErr n _) (λ words. tt))

set_bytes-NeverErr : (x : Bigint) (buf : List ℕ) → NeverErr (set_bytes x buf)
unfolding NeverErr set_bytes
set_bytes-NeverErr x buf = elim (Bool-cases (length x * 4 == length buf)) [
  | inl same ↦ rw (set_bytes, same) (set_loop-NeverErr (length x) buf)
  | inr other ↦ rw (set_bytes, other) tt
]

msb-NeverErr : (x : Bigint) → NeverErr (msb x)
unfolding NeverErr msb
msb-NeverErr [] = tt
msb-NeverErr (x ∷ []) = tt
msb-NeverErr (x ∷ y ∷ words) = msb-NeverErr (y ∷ words)

add-NeverErr : (x y : Bigint) → NeverErr (add x y)
unfolding NeverErr add
add-NeverErr x y = elim (Bool-cases (length x == length y)) [
  | inl same ↦ rw (add, same) tt
  | inr other ↦ rw (add, other) tt
]

at-NeverErr : (rows : List Trits) (i : ℤ) → NeverErr (at_ℤ rows i)
unfolding NeverErr
at-NeverErr rows (negsuc i) = tt
at-NeverErr rows (pos i) = elim (Option-cases (get_elem? rows i)) [
  | inl missing ↦ rw (NeverErr, missing) tt
  | inr (row, found) ↦ rw (NeverErr, found) tt
]

pub trits_of_values-NeverErr : (vs : List ℤ) → NeverErr (trits_of_values vs)
unfolding NeverErr trits_of_values must_put_tryte_trits
trits_of_values-NeverErr [] = tt
trits_of_values-NeverErr (v ∷ vs) =
    >>=-NeverErr (must_put_tryte_trits (replicate 3 (pos 0)) v) _
      (>>=-NeverErr (at_ℤ tryte_value_to_trits_lut (tryte_index v)) _
        (at-NeverErr tryte_value_to_trits_lut (tryte_index v)) (λ row. tt))
      (λ group. >>=-NeverErr (trits_of_values vs) _ (trits_of_values-NeverErr vs) (λ rest. tt))

pub bytes_to_tryte_values-NeverErr : (bytes : List ℕ) → NeverErr (bytes_to_tryte_values bytes)
unfolding NeverErr bytes_to_tryte_values
bytes_to_tryte_values-NeverErr bytes =
    >>=-NeverErr (set_bytes (replicate 12 0) bytes) _ (set_bytes-NeverErr _ bytes) (λ b.
      >>=-NeverErr (msb b) _ (msb-NeverErr b)
        (λ top. >>=-NeverErr (add b max_ter_243) _ (add-NeverErr b _) (λ sum. tt)))
