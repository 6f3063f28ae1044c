-- ===== src/Encoding/Ascii.antt =====
-- encoding/ascii/ascii.go: an ASCII character as two trytes. The regular expression accepts the
-- strings whose bytes are all below 128.
pub mod RoundTrip
use iota_go.Common.{
  ℕ, suc, ◌+◌, ◌-◌, ◌*◌, ◌/◌, ◌%◌, Bool, true, false, ◌&&◌, not, List, [], ◌∷◌, ltb, ◌==◌,
  if◌then◌else◌, length, ℤ, pos, negsuc, ◌+ℤ◌, scale, byte,
}
use iota_go.Consts.{
  Result, ok, err, panic, ◌>>=◌, invalid_ascii_input, invalid_odd_length, tryte_radix,
}
use iota_go.Trinary.Tryte.{at}
use iota_go.Trinary.Convert.{Trytes}
use iota_go.Encoding.B1t6.{Bytes}

-- "9ABCDEFGHIJKLMNOPQRSTUVWXYZ"
abbrev pub tryte_alphabet : List ℕ
tryte_alphabet =
    b'9' ∷ b'A' ∷ b'B' ∷ b'C' ∷ b'D' ∷ b'E' ∷ b'F' ∷ b'G' ∷ b'H' ∷ b'I' ∷ b'J' ∷ b'K' ∷ b'L' ∷ b'M'
    ∷ b'N' ∷ b'O' ∷ b'P' ∷ b'Q' ∷ b'R' ∷ b'S' ∷ b'T' ∷ b'U' ∷ b'V' ∷ b'W' ∷ b'X' ∷ b'Y' ∷ b'Z' ∷ []

unfoldable pub is_ascii : Bytes → Bool
is_ascii [] = true
is_ascii (c ∷ cs) = ltb c 128 && is_ascii cs

unfoldable pub encode_loop : Bytes → Result Trytes
encode_loop [] = ok []
encode_loop (c ∷ cs) = do
  low ← at tryte_alphabet (c % tryte_radix)
  high ← at tryte_alphabet (c / tryte_radix)
  rest ← encode_loop cs
  ok (low ∷ high ∷ rest)

unfoldable pub encode_to_trytes : Bytes → Result Trytes
encode_to_trytes src = if not (is_ascii src) then err invalid_ascii_input else encode_loop src

-- strings.IndexByte: the first position, or -1.
unfoldable pub index_from : ℕ → List ℕ → ℕ → ℤ
index_from i [] c = negsuc 0
index_from i (x ∷ xs) c = let later = index_from (suc i) xs c in if x == c then pos i else later

-- byte(v): a character that is no tryte counts as -1.
unfoldable pub pair_value : ℕ → ℕ → ℕ
unfolding index_from byte scale ◌+ℤ◌
pair_value a b =
    byte (index_from 0 tryte_alphabet a +ℤ scale tryte_radix (index_from 0 tryte_alphabet b))

unfoldable pub decode_loop : Trytes → Bytes
decode_loop (a ∷ b ∷ rest) = pair_value a b ∷ decode_loop rest
decode_loop _ = []

unfoldable pub decode_trytes : Trytes → Result Bytes
decode_trytes src =
    if not (length src % 2 == 0) then err invalid_odd_length else ok (decode_loop src)
