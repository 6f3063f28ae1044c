-- ===== src/Kerl/Hash.antt =====
-- kerl/kerl.go: the hash function Kerl, over Keccak-384, a copy of a third-party package. Its state, what it
-- writes and the 48 bytes of its sum are the parameter `Keccak`.
use iota_go.Common.{
  ℕ, zero, suc, ◌-◌, ◌*◌, ◌/◌, ◌%◌, ◌≡◌, Bool, true, false, ◌&&◌, not, List, [], ◌++◌, none, some,
  map, ◌==◌, if◌then◌else◌, length, take, drop, replicate, get_elem?, pos, negsuc, eqb_ℤ, ltb_ℤ,
}
use iota_go.Consts.{
  Result, ok, err, panic, ◌>>=◌, hash_trinary_size, hash_trytes_size, hash_bytes_size,
  invalid_trits_length, invalid_trytes_length, invalid_trit, invalid_squeeze_length,
  absorb_after_squeeze,
}
use iota_go.Trinary.Trits.{Trits}
use iota_go.Trinary.Tryte.{must_tryte_to_tryte_value}
use iota_go.Trinary.Convert.{Trytes}
use iota_go.Sponge.{must}
use iota_go.Kerl.Convert.{
  kerl_trits_to_bytes, kerl_trytes_to_bytes, kerl_bytes_to_trits, kerl_bytes_to_trytes,
  kerl_bytes_zero_last_trit,
}

pub record Keccak : Type 1 where
  pub State : Type 0
  pub reset : State
  pub write : State → List ℕ → State
  pub sum : State → List ℕ
  pub length-sum : (s : State) → length (sum s) ≡ 48

-- `bs, _ := ...`: the result without its error, nil for an error.
unfoldable pub or_nil : Result (List ℕ) → Result (List ℕ)
or_nil panic = panic
or_nil (err e) = ok []
or_nil (ok bytes) = ok bytes

unfoldable pub tryte_has_zero_last_trit : ℕ → Result Bool
tryte_has_zero_last_trit t = do
  v ← must_tryte_to_tryte_value t
  ok (not (ltb_ℤ v (negsuc 3)) && not (ltb_ℤ (pos 4) v))

module _ (keccak : Keccak) where
  pub record Kerl : Type 0 where
    pub hash : keccak.State
    pub squeezing : Bool
    pub buf : List ℕ

  abbrev pub new_kerl : Kerl
  new_kerl = record { hash = keccak.reset; squeezing = false; buf = replicate hash_bytes_size 0 }

  -- Each bit of the buffer is flipped, in words of eight bytes.
  unfoldable pub not_unaligned : List ℕ → List ℕ
  not_unaligned bytes = map (λ b. 255 - b) bytes

  unfoldable pub squeeze_sum : Kerl → Kerl
  unfolding not_unaligned
  squeeze_sum k =
      let h = if k.squeezing then keccak.write (keccak.reset) (not_unaligned (k.buf)) else k.hash in
      record { hash = h; squeezing = true; buf = keccak.sum h }

  unfoldable pub write : Kerl → List ℕ → Result Kerl
  write k bytes =
      if k.squeezing
      then err absorb_after_squeeze
      else ok (record k { hash = keccak.write (k.hash) bytes })

  -- The blocks of 48 bytes; Read leaves what is behind the last whole one as it is.
  unfoldable pub read_loop : ℕ → Kerl → Result (List ℕ × Kerl)
  unfolding squeeze_sum
  read_loop zero k = ok ([], k)
  read_loop (suc n) k = do
    let k = squeeze_sum k
    block ← kerl_bytes_zero_last_trit (k.buf)
    rest ← read_loop n k
    ok (block ++ rest.0, rest.1)

  unfoldable pub read : Kerl → List ℕ → Result (List ℕ × Kerl)
  unfolding read_loop
  read k bytes = do
    out ← read_loop (length bytes / hash_bytes_size) k
    ok (out.0 ++ drop (hash_bytes_size * (length bytes / hash_bytes_size)) bytes, out.1)

  -- Read of a copy, which has the hash function in common with the original.
  unfoldable pub sum_bytes : Kerl → List ℕ → Result (List ℕ × Kerl)
  unfolding read
  sum_bytes k bytes = do
    out ← read k (replicate hash_bytes_size 0)
    ok (bytes ++ out.0, record k { hash = out.1.hash })

  unfoldable pub reset_hash : Kerl → Kerl
  reset_hash k = record k { hash = keccak.reset; squeezing = false }

  unfoldable pub absorb_loop : ℕ → Kerl → Trits → Result Kerl
  unfolding write or_nil
  absorb_loop zero k trits = ok k
  absorb_loop (suc n) k trits = elim (get_elem? trits (hash_trinary_size - 1)) [
    | none ↦ panic
    | some t ↦ if not (eqb_ℤ t (pos 0)) then err invalid_trit else do
      bytes ← or_nil (kerl_trits_to_bytes (take hash_trinary_size trits))
      k' ← write k bytes
      absorb_loop n k' (drop hash_trinary_size trits)
  ]

  unfoldable pub absorb : Kerl → Trits → Result Kerl
  unfolding absorb_loop
  absorb k trits =
      if not (length trits % hash_trinary_size == 0)
      then err invalid_trits_length
      else absorb_loop (length trits / hash_trinary_size) k trits

  unfoldable pub absorb_trytes_loop : ℕ → Kerl → Trytes → Result Kerl
  unfolding write or_nil tryte_has_zero_last_trit
  absorb_trytes_loop zero k trytes = ok k
  absorb_trytes_loop (suc n) k trytes = elim (get_elem? trytes (hash_trytes_size - 1)) [
    | none ↦ panic
    | some t ↦ do
      zeroed ← tryte_has_zero_last_trit t
      if not zeroed then err invalid_trit else do
        bytes ← or_nil (kerl_trytes_to_bytes (take hash_trytes_size trytes))
        k' ← write k bytes
        absorb_trytes_loop n k' (drop hash_trytes_size trytes)
  ]

  unfoldable pub absorb_trytes : Kerl → Trytes → Result Kerl
  unfolding absorb_trytes_loop
  absorb_trytes k trytes =
      if not (length trytes % hash_trytes_size == 0)
      then err invalid_trytes_length
      else absorb_trytes_loop (length trytes / hash_trytes_size) k trytes

  unfoldable pub must_absorb_trytes : Kerl → Trytes → Result Kerl
  must_absorb_trytes k trytes = must (absorb_trytes k trytes)

  unfoldable pub nil_trits : Result Trits → Result Trits
  nil_trits panic = panic
  nil_trits (err e) = ok []
  nil_trits (ok trits) = ok trits

  unfoldable pub squeeze_loop : ℕ → Kerl → Result (Trits × Kerl)
  unfolding squeeze_sum nil_trits
  squeeze_loop zero k = ok ([], k)
  squeeze_loop (suc n) k = do
    let k = squeeze_sum k
    block ← nil_trits (kerl_bytes_to_trits (k.buf))
    rest ← squeeze_loop n k
    ok (block ++ rest.0, rest.1)

  unfoldable pub squeeze : Kerl → ℕ → Result (Trits × Kerl)
  unfolding squeeze_loop
  squeeze k n =
      if not (n % hash_trinary_size == 0)
      then err invalid_squeeze_length
      else squeeze_loop (n / hash_trinary_size) k

  unfoldable pub squeeze_trytes_loop : ℕ → Kerl → Result (Trytes × Kerl)
  unfolding squeeze_sum or_nil
  squeeze_trytes_loop zero k = ok ([], k)
  squeeze_trytes_loop (suc n) k = do
    let k = squeeze_sum k
    block ← or_nil (kerl_bytes_to_trytes (k.buf))
    rest ← squeeze_trytes_loop n k
    ok (block ++ rest.0, rest.1)

  unfoldable pub squeeze_trytes : Kerl → ℕ → Result (Trytes × Kerl)
  unfolding squeeze_trytes_loop
  squeeze_trytes k n =
      if not (n % hash_trinary_size == 0)
      then err invalid_squeeze_length
      else squeeze_trytes_loop (n / hash_trinary_size) k

  unfoldable pub must_squeeze : Kerl → ℕ → Result (Trits × Kerl)
  must_squeeze k n = must (squeeze k n)

  unfoldable pub must_squeeze_trytes : Kerl → ℕ → Result (Trytes × Kerl)
  must_squeeze_trytes k n = must (squeeze_trytes k n)
