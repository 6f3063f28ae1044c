-- ===== src/Encoding/T5b1.antt =====
-- encoding/t5b1/t5b1.go: five trits in a byte.
mod Table
pub mod Groups
pub mod RoundTrip
unfoldable pub use Table.{trits_lut}
use iota_go.Common.{
  ℕ, zero, suc, ◌+◌, ◌-◌, ◌*◌, ◌/◌, Bool, ◌||◌, List, [], ◌∷◌, ◌++◌, if◌then◌else◌, length, drop,
  replicate, ℤ, pos, negsuc, ◌+ℤ◌, scale, ltb_ℤ, int8, byte,
}
use iota_go.Consts.{Result, ok, err, panic, ◌>>=◌, invalid_byte, trits_per_tryte}
use iota_go.Trinary.Trits.{Trits}
use iota_go.Trinary.Tryte.{at}
use iota_go.Trinary.Convert.{Trytes, must_trytes_to_trits, must_trits_to_trytes}
use iota_go.Encoding.B1t6.{Bytes, wrote}

abbrev pub encoded_len : ℕ → ℕ
encoded_len n = (n + 5 - 1) / 5

abbrev pub decoded_len : ℕ → ℕ
decoded_len n = n * 5

-- int(src[0]) + int(src[1])*3 + int(src[2])*9 + int(src[3])*27 + int(src[4])*81
abbrev pub group_value : ℤ → ℤ → ℤ → ℤ → ℤ → ℤ
group_value a b c d e = a +ℤ scale 3 b +ℤ scale 9 c +ℤ scale 27 d +ℤ scale 81 e

-- v = v*3 + int(src[j]), from the last trit down
unfoldable pub tail_value : Trits → ℤ
tail_value [] = pos 0
tail_value (t ∷ ts) = scale 3 (tail_value ts) +ℤ t

-- dst[i] = v, in a slice with room for so many bytes
abbrev pub put_byte : ℕ → ℤ → (ℕ → Result Bytes) → Result Bytes
put_byte zero v later = panic
put_byte (suc room) v later = do bs ← later room; ok (byte v ∷ bs)

-- The bytes that are written; an incomplete group at the end is padded with zeros.
unfoldable pub encode : ℕ → Trits → Result Bytes
encode room (a ∷ b ∷ c ∷ d ∷ e ∷ rest) =
    put_byte room (group_value a b c d e) (λ left. encode left rest)
encode room [] = ok []
encode room src = put_byte room (tail_value src) (λ left. ok [])

unfoldable pub encode_trytes : Trytes → Result Bytes
encode_trytes src = do
  trits ← must_trytes_to_trits src
  encode (encoded_len (length src * trits_per_tryte)) trits

abbrev pub out_of_range : ℕ → Bool
out_of_range b = ltb_ℤ (int8 (pos b)) (negsuc 120) || ltb_ℤ (pos 121) (int8 (pos b))

-- The first five of `dst` are overwritten.
abbrev pub unpack : Trits → ℕ → Result Trits
unpack (x0 ∷ x1 ∷ x2 ∷ x3 ∷ x4 ∷ dst) b = at trits_lut b
unpack _ b = panic

-- The slice `dst` after the call.
unfoldable pub decode : Trits → Bytes → Result Trits
decode dst [] = ok dst
decode dst (b ∷ src) =
    if out_of_range b
    then err invalid_byte
    else do group ← unpack dst b; rest ← decode (drop 5 dst) src; ok (group ++ rest)

unfoldable pub decode_to_trytes : Bytes → Result Trytes
decode_to_trytes src = do
  let trytes_len = (decoded_len (length src) + trits_per_tryte - 1) / trits_per_tryte
  trits ← decode (replicate (trytes_len * trits_per_tryte) (pos 0)) src
  must_trits_to_trytes trits
