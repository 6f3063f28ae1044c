-- ===== src/Encoding/Examples.antt =====
-- The theorems on encodings at concrete inputs.
use iota_go.Common.{
  ℕ, int8, ◌-◌, ◌*◌, ◌≡◌, refl, true, List, [], ◌∷◌, ◌++◌, length, replicate, arith, pos, negsuc,
}
use iota_go.Consts.{ok}
use iota_go.Trinary.Trits.{Trits, valid_trit}
use iota_go.Trinary.Convert.{Trytes}
use iota_go.Trinary.Convert.RoundTrip.{AllTrits, AreTrytes}
use iota_go.Encoding.B1t6
use iota_go.Encoding.B1t6.RoundTrip.{AreBytes, decode-encode}
use iota_go.Encoding.T5b1
use iota_go.Encoding.T5b1.RoundTrip.{decode-encode_t5b1, encode-decode}
use iota_go.Encoding.Ascii
use iota_go.Encoding.Ascii.RoundTrip.{decode_trytes-encode_to_trytes_ascii}

abbrev two_bytes : List ℕ
two_bytes = 255 ∷ 7 ∷ []

two_bytes-AreBytes : AreBytes two_bytes
two_bytes-AreBytes = (omega arith, (omega arith, tt))

decode-encode_example :
    (trits : Trits) × (B1t6.encode (replicate 12 (pos 0)) two_bytes ≡ ok (trits, 12))
    × (length trits ≡ 12)
    × AllTrits trits
    × (B1t6.decode 2 trits ≡ (two_bytes, ok 2))
decode-encode_example = decode-encode (replicate 12 (pos 0)) two_bytes two_bytes-AreBytes refl

abbrev six_trits : Trits
six_trits = pos 1 ∷ pos 0 ∷ negsuc 0 ∷ negsuc 0 ∷ pos 1 ∷ pos 1 ∷ []

six_trits-AllTrits : AllTrits six_trits
unfolding valid_trit
six_trits-AllTrits = (refl, (refl, (refl, (refl, (refl, (refl, tt))))))

two_groups : T5b1.encoded_len 6 ≡ 2
unfolding T5b1.encoded_len
two_groups = refl

decode-encode_t5b1_example :
    (bs : List ℕ) × (T5b1.encode (T5b1.encoded_len 6) six_trits ≡ ok bs)
    × (length bs ≡ T5b1.encoded_len 6)
    × (T5b1.decode (replicate 10 (pos 0)) bs
        ≡ ok (six_trits ++ replicate (5 * T5b1.encoded_len 6 - 6) (pos 0)))
decode-encode_t5b1_example =
    decode-encode_t5b1 six_trits (replicate 10 (pos 0)) six_trits-AllTrits
      (omega (arith, two_groups))

unpack_run :
    T5b1.decode (replicate 5 (pos 0)) (121 ∷ []) ≡ ok (pos 1 ∷ pos 1 ∷ pos 1 ∷ pos 1 ∷ pos 1 ∷ [])
unfolding T5b1.decode T5b1.trits_lut int8
unpack_run = refl

encode-decode_example :
    (T5b1.encode 1 (pos 1 ∷ pos 1 ∷ pos 1 ∷ pos 1 ∷ pos 1 ∷ []) ≡ ok (121 ∷ []))
    × (length (pos 1 ∷ pos 1 ∷ pos 1 ∷ pos 1 ∷ pos 1 ∷ []) ≡ 5 * 1)
encode-decode_example =
    encode-decode (replicate 5 (pos 0)) _ (121 ∷ []) (omega arith, tt) refl unpack_run

is_ascii_run : Ascii.is_ascii (b'I' ∷ b'o' ∷ []) ≡ true
unfolding Ascii.is_ascii
is_ascii_run = refl

decode_trytes-encode_to_trytes_ascii_example :
    (s : Trytes) × (Ascii.encode_to_trytes (b'I' ∷ b'o' ∷ []) ≡ ok s)
    × AreTrytes s
    × (length s ≡ 2 * 2)
    × (Ascii.decode_trytes s ≡ ok (b'I' ∷ b'o' ∷ []))
decode_trytes-encode_to_trytes_ascii_example =
    decode_trytes-encode_to_trytes_ascii (b'I' ∷ b'o' ∷ []) is_ascii_run
