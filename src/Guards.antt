-- ===== src/Guards.antt =====
-- guards/guards.go: tests on trytes. Trytes are the bytes of a string; a byte of 128 or more is part of a
-- rune that no test takes for a tryte, and is none itself.
use iota_go.Common.{
  ℕ, ◌-◌, ◌*◌, ◌/◌, Bool, true, false, ◌&&◌, ◌||◌, not, [], ◌∷◌, ltb, ◌==◌, if◌then◌else◌, length,
  drop, pos, eqb_ℤ,
}
use iota_go.Consts.{
  Result, ok, panic, ◌>>=◌, hash_trytes_size, address_with_checksum_trytes_size, tag_trinary_size,
  transaction_trytes_size,
}
use iota_go.Trinary.Trits.{Trits}
use iota_go.Trinary.Convert.{Trytes, must_trytes_to_trits, trytes_to_trits}
use iota_go.Curl.{hash_trits, curl_p81}

-- The loop of the tests: no character but 9 and A to Z.
unfoldable pub all_trytes : Trytes → Bool
all_trytes [] = true
all_trytes (t ∷ ts) =
    let rest = all_trytes ts in
    if (ltb t b'A' || ltb b'Z' t) && not (t == b'9') then false else rest

unfoldable pub is_trytes : Trytes → Bool
is_trytes trytes = if ltb (length trytes) 1 then false else all_trytes trytes

unfoldable pub is_trytes_of_exact_length : Trytes → ℕ → Bool
is_trytes_of_exact_length trytes n =
    if not (length trytes == n) || length trytes == 0 then false else all_trytes trytes

unfoldable pub is_trytes_of_max_length : Trytes → ℕ → Bool
is_trytes_of_max_length trytes max =
    if ltb max (length trytes) || ltb (length trytes) 1 then false else all_trytes trytes

unfoldable pub is_empty_trytes : Trytes → Bool
is_empty_trytes [] = true
is_empty_trytes (t ∷ ts) = let rest = is_empty_trytes ts in if not (t == b'9') then false else rest

unfoldable pub is_transaction_hash : Trytes → Bool
is_transaction_hash trytes = is_trytes_of_exact_length trytes hash_trytes_size

unfoldable pub is_address_with_checksum : Trytes → Bool
is_address_with_checksum trytes = is_trytes_of_exact_length trytes address_with_checksum_trytes_size

unfoldable pub is_hash : Trytes → Bool
is_hash trytes =
    is_trytes_of_exact_length trytes hash_trytes_size
    || is_trytes_of_exact_length trytes address_with_checksum_trytes_size

unfoldable pub is_tag : Trytes → Bool
is_tag trytes = is_trytes_of_exact_length trytes (tag_trinary_size / 3)

unfoldable pub is_transaction_trytes : Trytes → Bool
is_transaction_trytes trytes = is_trytes_of_exact_length trytes transaction_trytes_size

unfoldable pub all_zero : Trits → Bool
all_zero [] = true
all_zero (t ∷ ts) = let rest = all_zero ts in if not (eqb_ℤ t (pos 0)) then false else rest

-- A minimum weight magnitude above the length of the hash panics.
unfoldable pub is_transaction_hash_with_mwm : Trytes → ℕ → Result Bool
unfolding all_zero
is_transaction_hash_with_mwm trytes mwm =
    if not (is_trytes_of_exact_length trytes hash_trytes_size) then ok false else do
      trits ← must_trytes_to_trits trytes
      if ltb (length trits) mwm then panic else ok (all_zero (drop (length trits - mwm) trits))

-- The hash is Curl-P-81's.
unfoldable pub is_transaction_trytes_with_mwm : Trytes → ℕ → Result Bool
unfolding all_zero
is_transaction_trytes_with_mwm trytes mwm =
    if not (is_trytes_of_exact_length trytes transaction_trytes_size) then ok false else do
      trits ← trytes_to_trits trytes
      hash ← hash_trits curl_p81 trits
      if ltb (length hash) mwm then panic else ok (all_zero (drop (length hash - mwm) hash))

unfoldable pub is_attached_trytes : Trytes → Bool
is_attached_trytes trytes =
    is_trytes_of_exact_length trytes transaction_trytes_size
    && not (is_empty_trytes (drop (transaction_trytes_size - 3 * hash_trytes_size) trytes))
