-- ===== src/Checksum.antt =====
-- checksum/checksum.go, and the checks of address/address.go, over the sponge that they use (Kerl).
pub mod Validity
pub mod Examples
use iota_go.Common.{
  ℕ, zero, suc, ◌+◌, ◌-◌, ◌%◌, Bool, true, false, ◌&&◌, ◌||◌, not, List, [], ◌∷◌, ◌++◌, ltb, ◌==◌,
  if◌then◌else◌, length, take, drop,
}
use iota_go.Consts.{
  Result, ok, err, panic, ◌>>=◌, ◌>>◌, hash_trinary_size, hash_trytes_size,
  address_with_checksum_trytes_size, address_checksum_trytes_size, min_checksum_trytes_size,
  invalid_address, invalid_checksum,
}
use iota_go.Trinary.Convert.{Trytes, trytes_eq, valid_trytes}
use iota_go.Guards.{is_trytes_of_exact_length}
use iota_go.Sponge.{Sponge}

-- The loop that appends a 9 until the length is a multiple of 81: 80 rounds are enough.
unfoldable pub pad_loop : ℕ → Trytes → Trytes
pad_loop zero trytes = trytes
pad_loop (suc rounds) trytes =
    let more = pad_loop rounds (trytes ++ (b'9' ∷ [])) in
    if not (length trytes % hash_trytes_size == 0) then more else trytes

unfoldable pub remove_checksum : Trytes → Result Trytes
remove_checksum input =
    if not (is_trytes_of_exact_length input hash_trytes_size)
      && not (is_trytes_of_exact_length input address_with_checksum_trytes_size)
    then err invalid_address
    else ok (take hash_trytes_size input)

module _ (sponge : Sponge) where
  open sponge use {State, fresh, absorb_trytes, squeeze_trytes}

  -- The last n trytes of the hash; a slice out of range panics.
  unfoldable pub checksum_of : Trytes → ℕ → Result Trytes
  unfolding pad_loop
  checksum_of input n = do
    s ← absorb_trytes fresh (pad_loop 80 input)
    out ← squeeze_trytes s hash_trinary_size
    let short = ltb hash_trytes_size n || ltb (length out.0) hash_trytes_size
    if short then panic else ok (take n (drop (hash_trytes_size - n) out.0))

  unfoldable pub add_checksum : Trytes → Bool → ℕ → Result Trytes
  add_checksum input is_address n =
      if is_address && not (length input == hash_trytes_size)
      then (if length input == address_with_checksum_trytes_size
          then ok input
          else err invalid_address)
      else if ltb n min_checksum_trytes_size
          || is_address && not (n == address_checksum_trytes_size)
      then err invalid_checksum
      else do sum ← checksum_of input n; ok (input ++ sum)

  unfoldable pub checksum : Trytes → Result Trytes
  checksum address = if ltb (length address) 81 then err invalid_address else do
    whole ← add_checksum (take 81 address) true 9
    if ltb (length whole) 90 then panic else ok (take 9 (drop 81 whole))

  unfoldable pub valid_checksum : Trytes → Trytes → Result (Unit {0})
  unfolding checksum
  valid_checksum address sum = do
    actual ← checksum address
    if not (trytes_eq sum actual) then err invalid_checksum else ok tt

  unfoldable pub valid_address : Trytes → Result (Unit {0})
  unfolding valid_checksum
  valid_address address =
      if length address == 90
      then (valid_checksum (take 81 address) (drop 81 address) >> valid_trytes address)
      else if length address == 81
      then valid_trytes address
      else err invalid_address
