-- ===== src/Encoding/Ascii/RoundTrip.antt =====
-- ASCII text on the way to trytes and back.
use iota_go.Common.{
  ℕ, ◌*◌, ◌/◌, ◌%◌, ◌<◌, ◌≡◌, refl, Bool, true, ◌&&◌, [], ◌∷◌, arith, ◌==◌, ==_iff, length, get_or,
}
use iota_go.Consts.{ok}
use iota_go.Trinary.Tryte.{at, is_valid_tryte}
use iota_go.Trinary.Tryte.Values.{all_below, all_below_sound, is_ok_ℕ, is_ok_ℕ→eq}
use iota_go.Trinary.Convert.{Trytes}
use iota_go.Trinary.Convert.RoundTrip.{AreTrytes}
use iota_go.Encoding.B1t6.{Bytes}
use iota_go.Encoding.Ascii.{
  tryte_alphabet, is_ascii, encode_loop, encode_to_trytes, pair_value, decode_loop, decode_trytes,
}

abbrev low : ℕ → ℕ
low c = get_or tryte_alphabet (c % 27) 0

abbrev high : ℕ → ℕ
high c = get_or tryte_alphabet (c / 27) 0

abbrev low_test : ℕ → Bool
low_test c = is_ok_ℕ (at tryte_alphabet (c % 27)) (low c)

abbrev high_test : ℕ → Bool
high_test c = is_ok_ℕ (at tryte_alphabet (c / 27)) (high c)

abbrev pair_test : ℕ → Bool
pair_test c = pair_value (low c) (high c) == c

abbrev tryte_test : ℕ → Bool
tryte_test c = is_valid_tryte (low c) && is_valid_tryte (high c)

tables :
    (all_below 128 low_test ≡ true)
    × (all_below 128 high_test ≡ true)
    × (all_below 128 pair_test ≡ true)
    × (all_below 128 tryte_test ≡ true)
unfolding all_below pair_value is_valid_tryte
tables = (refl, refl, refl, refl)

low_char : (c : ℕ) → c < 128 → at tryte_alphabet (c % 27) ≡ ok (low c)
low_char c h = is_ok_ℕ→eq _ _ (all_below_sound 128 low_test c tables.0 h)

high_char : (c : ℕ) → c < 128 → at tryte_alphabet (c / 27) ≡ ok (high c)
high_char c h = is_ok_ℕ→eq _ _ (all_below_sound 128 high_test c tables.1 h)

abbrev AreAscii : Bytes → Type 0
AreAscii [] = Unit
AreAscii (c ∷ cs) = (c < 128) × AreAscii cs

is_ascii→AreAscii : (cs : Bytes) → is_ascii cs ≡ true → AreAscii cs
unfolding is_ascii
is_ascii→AreAscii [] h = tt
is_ascii→AreAscii (c ∷ cs) h = (ground arith, is_ascii→AreAscii cs (ground arith))

unfoldable pub text : Bytes → Trytes
text [] = []
text (c ∷ cs) = low c ∷ high c ∷ text cs

encode_loop-text : (cs : Bytes) → AreAscii cs → encode_loop cs ≡ ok (text cs)
unfolding encode_loop text
encode_loop-text [] h = refl
encode_loop-text (c ∷ cs) (hc, hs) = rw (low_char c hc, high_char c hc, encode_loop-text cs hs)

decode_loop-text : (cs : Bytes) → AreAscii cs → decode_loop (text cs) ≡ cs
unfolding decode_loop text
decode_loop-text [] h = refl
decode_loop-text (c ∷ cs) (hc, hs) =
    rw ((==_iff _ _).0 (all_below_sound 128 pair_test c tables.2 hc), decode_loop-text cs hs)

text-AreTrytes : (cs : Bytes) → AreAscii cs → AreTrytes (text cs)
unfolding text
text-AreTrytes [] h = tt
text-AreTrytes (c ∷ cs) (hc, hs) =
    let t = all_below_sound 128 tryte_test c tables.3 hc in
    (ground (arith, t), (ground (arith, t), text-AreTrytes cs hs))

length-text : (cs : Bytes) → length (text cs) ≡ 2 * length cs
unfolding text
length-text [] = refl
length-text (c ∷ cs) = omega (arith, length-text cs)

-- Text of ASCII characters encodes into two valid trytes for each, and decodes to itself.
pub decode_trytes-encode_to_trytes_ascii :
    (cs : Bytes)
    → is_ascii cs ≡ true
    → (s : Trytes) × (encode_to_trytes cs ≡ ok s)
      × AreTrytes s
      × (length s ≡ 2 * length cs)
      × (decode_trytes s ≡ ok cs)
unfolding encode_to_trytes decode_trytes
decode_trytes-encode_to_trytes_ascii cs h =
    let a = is_ascii→AreAscii cs h in
    let even : (length (text cs) % 2 == 0) ≡ true = ground (arith, length-text cs) in
    (
      text cs,
      rw h (encode_loop-text cs a),
      text-AreTrytes cs a,
      length-text cs,
      rw (even, decode_loop-text cs a),
    )
