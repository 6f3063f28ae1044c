-- ===== src/Kerl/Convert.antt =====
-- kerl/converter.go, and bytesToTryteValues of kerl/bytes_to_trytes_64bit.go: 243 trits as a signed integer of 384 bits,
-- and back. The variant for machines without a division of 64 bits is not modelled.
use iota_go.Common.{
  ℕ, zero, suc, ◌+◌, ◌-◌, ◌*◌, ◌/◌, ◌%◌, ◌^◌, ◌&&◌, not, List, [], ◌∷◌, ◌++◌, none, some, ltb, ◌==◌,
  if◌then◌else◌, length, take, drop, replicate, set, get_elem?, ℤ, pos, negsuc, ◌+ℤ◌, ◌-ℤ◌, ltb_ℤ,
  int8, mod_ℤ,
}
use iota_go.Consts.{
  Result, ok, err, panic, ◌>>=◌, hash_trytes_size, hash_bytes_size, tryte_radix,
  invalid_trits_length, invalid_trytes_length, invalid_bytes_length,
}
use iota_go.Trinary.Trits.{Trits, can_be_hash}
use iota_go.Trinary.Tryte.{
  must_trits_to_tryte_value, must_tryte_to_tryte_value, must_tryte_value_to_tryte,
  must_put_tryte_trits,
}
use iota_go.Trinary.Convert.{Trytes}
use iota_go.Kerl.Bigint.{Bigint, add, sub, cmp, msb, set_bytes, read}

abbrev pub half_tryte : ℕ
half_tryte = 13

abbrev pub trytes_per_uint32 : ℕ
trytes_per_uint32 = 6

abbrev pub uint32_radix : ℕ
uint32_radix = 387420489

abbrev pub hash_uint32_size : ℕ
hash_uint32_size = 14

-- The words of the constants, the least significant first.
abbrev pub max_ter_243 : Bigint
max_ter_243 =
    4050361389 ∷ 3707855676 ∷ 1032646894 ∷ 2962883211 ∷ 611113290 ∷ 4056340485 ∷ 1827558662
    ∷ 3660778147 ∷ 4259545505 ∷ 4262721552 ∷ 4185850782 ∷ 457032654 ∷ []

abbrev pub max_ter_242 : Bigint
max_ter_242 =
    2781776228 ∷ 2667607657 ∷ 344215631 ∷ 987627737 ∷ 203704430 ∷ 1352113495 ∷ 2040841986
    ∷ 1220259382 ∷ 2851504267 ∷ 2852562949 ∷ 2826939359 ∷ 1583999983 ∷ []

abbrev pub min_ter_242 : Bigint
min_ter_242 =
    1513191068 ∷ 1627359638 ∷ 3950751664 ∷ 3307339558 ∷ 4091262865 ∷ 2942853800 ∷ 2254125309
    ∷ 3074707913 ∷ 1443463028 ∷ 1442404346 ∷ 1468027936 ∷ 2710967312 ∷ []

abbrev pub trit_243 : Bigint
trit_243 =
    1268585161 ∷ 1040248019 ∷ 688431263 ∷ 1975255474 ∷ 407408860 ∷ 2704226990 ∷ 4081683972
    ∷ 2440518764 ∷ 1408041238 ∷ 1410158603 ∷ 1358911423 ∷ 3167999967 ∷ []

-- a + 3 b + 9 c without its last trit
unfoldable pub tryte_value_zero_last_trit : ℤ → ℤ
tryte_value_zero_last_trit v =
    if ltb_ℤ (pos 4) v
    then int8 (v -ℤ pos 9)
    else if ltb_ℤ v (negsuc 3)
    then int8 (v +ℤ pos 9)
    else v

-- The last of 81 values.
unfoldable pub zero_last_value : List ℤ → List ℤ
unfolding tryte_value_zero_last_trit
zero_last_value vs = elim (get_elem? vs (hash_trytes_size - 1)) [
  | none ↦ vs
  | some v ↦ set vs (hash_trytes_size - 1) (tryte_value_zero_last_trit v)
]

-- Six values in a uint32, the first the least significant.
unfoldable pub chunk_of : List ℤ → ℕ
chunk_of [] = 0
chunk_of (v ∷ vs) =
    (tryte_radix * chunk_of vs + mod_ℤ (int8 (v +ℤ pos half_tryte)) (2 ^ 32)) % 2 ^ 32

unfoldable pub chunks_of : ℕ → List ℤ → List ℕ
unfolding chunk_of
chunks_of zero vs = []
chunks_of (suc n) vs =
    chunk_of (take trytes_per_uint32 vs) ∷ chunks_of n (drop trytes_per_uint32 vs)

-- Words times the radix, plus the carry: the words, and what is carried out.
unfoldable pub scale_words : ℕ → List ℕ → List ℕ × ℕ
scale_words carry [] = ([], carry)
scale_words carry (w ∷ ws) =
    let v = uint32_radix * w + carry in
    let rest = scale_words (v / 2 ^ 32) ws in (v % 2 ^ 32 ∷ rest.0, rest.1)

-- From the last chunk down; the slice grows up to the 12 words of its array.
unfoldable pub words_of_chunks : List ℕ → List ℕ
unfolding scale_words
words_of_chunks [] = []
words_of_chunks (c ∷ cs) =
    let words = words_of_chunks cs in
    let scaled = scale_words c words in
    if ltb 0 (scaled.1) && ltb (length words) 12 then scaled.0 ++ (scaled.1 ∷ []) else scaled.0

unfoldable pub tryte_values_to_bytes : List ℤ → Result (List ℕ)
unfolding zero_last_value chunks_of words_of_chunks
tryte_values_to_bytes vs = if not (length vs == hash_trytes_size) then panic else do
  let words = words_of_chunks (chunks_of hash_uint32_size (zero_last_value vs))
  difference ← sub (words ++ replicate (12 - length words) 0) max_ter_243
  bytes ← read (difference.0) (replicate hash_bytes_size 0)
  ok (bytes.0)

-- A chunk of 48 bytes whose last trit becomes zero.
unfoldable pub kerl_bytes_zero_last_trit : List ℕ → Result (List ℕ)
kerl_bytes_zero_last_trit bytes = do
  b ← set_bytes (replicate 12 0) bytes
  top ← msb b
  low ← cmp b min_ter_242
  high ← cmp b max_ter_242
  let raised = (do sum ← add b trit_243; out ← read (sum.0) bytes; ok (out.0))
  let lowered = (do difference ← sub b trit_243; out ← read (difference.0) bytes; ok (out.0))
  if not (top == 0)
      then (if not (ltb_ℤ low (pos 0)) then ok bytes else raised)
      else (if not (ltb_ℤ (pos 0) high) then ok bytes else lowered)

-- The values of n groups of three trits; too few trits panic.
unfoldable pub group_values : ℕ → Trits → Result (List ℤ)
group_values zero trits = ok []
group_values (suc n) trits = do
  v ← must_trits_to_tryte_value trits
  vs ← group_values n (drop 3 trits)
  ok (v ∷ vs)

unfoldable pub tryte_values : Trytes → Result (List ℤ)
tryte_values [] = ok []
tryte_values (t ∷ ts) = do v ← must_tryte_to_tryte_value t; vs ← tryte_values ts; ok (v ∷ vs)

unfoldable pub kerl_trits_to_bytes : Trits → Result (List ℕ)
unfolding group_values tryte_values_to_bytes
kerl_trits_to_bytes trits =
    if not (can_be_hash trits)
    then err invalid_trits_length
    else do vs ← group_values hash_trytes_size trits; tryte_values_to_bytes vs

unfoldable pub kerl_trytes_to_bytes : Trytes → Result (List ℕ)
unfolding tryte_values tryte_values_to_bytes
kerl_trytes_to_bytes trytes =
    if not (length trytes == hash_trytes_size)
    then err invalid_trytes_length
    else do vs ← tryte_values trytes; tryte_values_to_bytes vs

-- Words divided by the radix, from the most significant down: the quotient, and the remainder.
unfoldable pub divide_words : ℕ → List ℕ → List ℕ × ℕ
divide_words rem [] = ([], rem)
divide_words rem (w ∷ ws) =
    let high = divide_words rem ws in
    let v = high.1 * 2 ^ 32 + w in (v / uint32_radix % 2 ^ 32 ∷ high.0, v % uint32_radix)

-- A most significant word of zero is dropped.
unfoldable pub trim_word : List ℕ → List ℕ
trim_word [] = []
trim_word (w ∷ []) = if w == 0 then [] else w ∷ []
trim_word (w ∷ x ∷ ws) = w ∷ trim_word (x ∷ ws)

unfoldable pub divide_loop : ℕ → ℕ → List ℕ → List ℕ
unfolding divide_words trim_word
divide_loop zero rem words = []
divide_loop (suc n) rem words =
    let divided = divide_words rem words in divided.1 ∷ divide_loop n 0 (trim_word (divided.0))

-- n digits of a chunk: the last one takes what is left.
unfoldable pub chunk_digits : ℕ → ℕ → List ℤ
chunk_digits zero c = []
chunk_digits (suc zero) c = int8 (int8 (pos c) -ℤ pos half_tryte) ∷ []
chunk_digits (suc (suc n)) c =
    int8 (int8 (pos (c % tryte_radix)) -ℤ pos half_tryte) ∷ chunk_digits (suc n) (c / tryte_radix)

-- Six digits of every chunk but the last, which has three.
unfoldable pub uint32_to_tryte_values : List ℕ → List ℤ
unfolding chunk_digits
uint32_to_tryte_values [] = []
uint32_to_tryte_values (c ∷ []) = chunk_digits 3 c
uint32_to_tryte_values (c ∷ d ∷ cs) =
    chunk_digits trytes_per_uint32 c ++ uint32_to_tryte_values (d ∷ cs)

unfoldable pub bytes_to_tryte_values : List ℕ → Result (List ℤ)
unfolding divide_loop uint32_to_tryte_values zero_last_value
bytes_to_tryte_values bytes = do
  b ← set_bytes (replicate 12 0) bytes
  top ← msb b
  sum ← add b max_ter_243
  let carry = if top == 0 then sum.1 + 1 else sum.1
  ok (zero_last_value (uint32_to_tryte_values (divide_loop hash_uint32_size carry (sum.0))))

unfoldable pub trits_of_values : List ℤ → Result Trits
trits_of_values [] = ok []
trits_of_values (v ∷ vs) = do
  group ← must_put_tryte_trits (replicate 3 (pos 0)) v
  trits ← trits_of_values vs
  ok (group ++ trits)

unfoldable pub trytes_of_values : List ℤ → Result Trytes
trytes_of_values [] = ok []
trytes_of_values (v ∷ vs) = do
  t ← must_tryte_value_to_tryte v
  trytes ← trytes_of_values vs
  ok (t ∷ trytes)

unfoldable pub kerl_bytes_to_trits : List ℕ → Result Trits
unfolding bytes_to_tryte_values trits_of_values
kerl_bytes_to_trits bytes =
    if not (length bytes == hash_bytes_size)
    then err invalid_bytes_length
    else do vs ← bytes_to_tryte_values bytes; trits_of_values vs

unfoldable pub kerl_bytes_to_trytes : List ℕ → Result Trytes
unfolding bytes_to_tryte_values trytes_of_values
kerl_bytes_to_trytes bytes =
    if not (length bytes == hash_bytes_size)
    then err invalid_bytes_length
    else do vs ← bytes_to_tryte_values bytes; trytes_of_values vs
