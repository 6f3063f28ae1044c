-- ===== src/Encoding/B1t6.antt =====
-- encoding/b1t6/b1t6.go: a byte as a group of six trits, or of two trytes.
pub mod Group
pub mod RoundTrip
use iota_go.Common.{
  ℕ, zero, suc, ◌+◌, ◌-◌, ◌*◌, ◌/◌, ◌%◌, Bool, ◌||◌, List, [], ◌∷◌, ◌++◌, ◌==◌, if◌then◌else◌, take,
  drop, length, Option, none, some, ℤ, pos, negsuc, pos_part, ◌+ℤ◌, ◌-ℤ◌, scale, ltb_ℤ, int8, byte,
}
use iota_go.Consts.{Result, ok, err, panic, ◌>>=◌, invalid_length, invalid_trits, tryte_radix}
use iota_go.Trinary.Trits.{Trits}
use iota_go.Trinary.Tryte.{
  must_tryte_value_to_tryte, must_tryte_to_tryte_value, must_trits_to_tryte_value,
  must_put_tryte_trits,
}
use iota_go.Trinary.Convert.{Trytes}

abbrev pub Bytes : Type 0
Bytes = List ℕ

abbrev pub encoded_len : ℕ → ℕ
encoded_len n = n * 6

abbrev pub decoded_len : ℕ → ℕ
decoded_len n = n / 6

-- int(int8(b)) + 13 * 27 + 13 is at least 236, so quotient and remainder are those of a number.
unfoldable pub encode_group : ℕ → ℤ × ℤ
unfolding int8 ◌+ℤ◌ ◌-ℤ◌
encode_group b =
    let v = pos_part (int8 (pos b) +ℤ pos (tryte_radix / 2 * tryte_radix + tryte_radix / 2)) in
    (int8 (pos (v % tryte_radix) -ℤ pos 13), int8 (pos (v / tryte_radix) -ℤ pos 13))

-- `none` is the flag false.
unfoldable pub decode_group : ℤ → ℤ → Option ℕ
unfolding scale byte ◌+ℤ◌
decode_group t1 t2 =
    let v = t1 +ℤ scale tryte_radix t2 in
    if ltb_ℤ v (negsuc 127) || ltb_ℤ (pos 127) v then none else some (byte v)

-- `dst` is what is still to be written; a slice that is too short panics.
unfoldable pub encode_loop : Trits → Bytes → Result Trits
encode_loop dst [] = ok dst
encode_loop dst (b ∷ src) = do
  let group = encode_group b
  d ← must_put_tryte_trits dst group.0
  e ← must_put_tryte_trits (drop 3 d) group.1
  rest ← encode_loop (drop 3 e) src
  ok (take 3 d ++ (take 3 e ++ rest))

-- The slice `dst` after the call, and the number of trits written.
unfoldable pub encode : Trits → Bytes → Result (Trits × ℕ)
encode dst src = do out ← encode_loop dst src; ok (out, length src * 6)

unfoldable pub encode_to_trytes : Bytes → Result Trytes
encode_to_trytes [] = ok []
encode_to_trytes (b ∷ src) = do
  let group = encode_group b
  c1 ← must_tryte_value_to_tryte group.0
  c2 ← must_tryte_value_to_tryte group.1
  rest ← encode_to_trytes src
  ok (c1 ∷ c2 ∷ rest)

-- A byte written in front of the outcome of the later rounds.
abbrev pub wrote : ℕ → Bytes × Result ℕ → Bytes × Result ℕ
wrote b (bs, r) = (b ∷ bs, r)

-- One round: nothing is written on an error, and a full slice panics.
abbrev pub put_byte : ℕ → Result (Option ℕ) → (ℕ → Bytes × Result ℕ) → Bytes × Result ℕ
put_byte room (ok none) later = ([], err invalid_trits)
put_byte zero (ok (some b)) later = ([], panic)
put_byte (suc room) (ok (some b)) later = wrote b (later room)
put_byte room (err e) later = ([], err e)
put_byte room panic later = ([], panic)

-- The bytes written to a slice with room for so many, and the count or the error.
unfoldable pub decode_loop : ℕ → ℕ → Trits → Bytes × Result ℕ
decode_loop room i (a ∷ b ∷ c ∷ d ∷ e ∷ f ∷ rest) =
    put_byte room
      (do
        t1 ← must_trits_to_tryte_value (a ∷ b ∷ c ∷ d ∷ e ∷ f ∷ rest)
        t2 ← must_trits_to_tryte_value (d ∷ e ∷ f ∷ rest)
        ok (decode_group t1 t2))
      (λ left. decode_loop left (i + 1) rest)
decode_loop room i [] = ([], ok i)
decode_loop room i _ = ([], err invalid_length)

unfoldable pub decode : ℕ → Trits → Bytes × Result ℕ
decode room src = decode_loop room 0 src

-- The new slice has room for every byte, so no write panics.
abbrev pub then_byte : Option ℕ → Result Bytes → Result Bytes
then_byte none later = err invalid_trits
then_byte (some b) later = do bs ← later; ok (b ∷ bs)

unfoldable pub decode_trytes : Trytes → Result Bytes
decode_trytes (c1 ∷ c2 ∷ rest) = do
  t1 ← must_tryte_to_tryte_value c1
  t2 ← must_tryte_to_tryte_value c2
  then_byte (decode_group t1 t2) (decode_trytes rest)
decode_trytes [] = ok []
decode_trytes _ = err invalid_length
