-- ===== src/Curl.antt =====
-- curl/curl.go, curl/common.go and curl/transform.go: the hash function Curl, in Go. The assembly that takes the place
-- of transformGeneric on some machines is not modelled.
pub mod Rounds
pub mod Returns
pub mod Squeezes
pub mod Streams
pub mod Examples
use iota_go.Common.{
  ℕ, zero, suc, ◌+◌, ◌-◌, ◌*◌, ◌/◌, ◌%◌, Bool, true, false, ◌||◌, not, List, [], ◌∷◌, ◌++◌, Option,
  none, some, ltb, ◌==◌, if◌then◌else◌, length, is_empty, take, drop, replicate, get_elem?, get_or,
  copy, ℤ, pos, negsuc, pos_part, ◌+ℤ◌, scale, int8, ltb_ℤ,
}
use iota_go.Consts.{
  Result, ok, err, panic, ◌>>=◌, hash_trinary_size, hash_trytes_size, invalid_squeeze_length,
  invalid_trits_length, invalid_trytes_length,
}
use iota_go.Trinary.Trits.{Trits}
use iota_go.Trinary.Convert.{Trytes, trytes_to_trits, must_trytes_to_trits, must_trits_to_trytes}
use iota_go.Sponge.{must}

abbrev pub state_size : ℕ
state_size = hash_trinary_size * 3

abbrev pub curl_p27 : ℕ
curl_p27 = 27

abbrev pub curl_p81 : ℕ
curl_p81 = 81

abbrev pub truth_table : List ℤ
truth_table =
    pos 1
    ∷ pos 0
    ∷ negsuc 0
    ∷ pos 2
    ∷ pos 1
    ∷ negsuc 0
    ∷ pos 0
    ∷ pos 2
    ∷ negsuc 0
    ∷ pos 1
    ∷ pos 0
    ∷ []

-- The table that `init` fills.
unfoldable pub indices : ℕ → ℕ
indices zero = 0
indices (suc i) = let at = indices i in if ltb at 365 then at + 364 else at - 365

-- TruthTable[a + (b<<2) + 5], in int8: out of range it panics.
unfoldable pub apply_table : ℤ → ℤ → Result ℤ
apply_table a b =
    let i = int8 (int8 (a +ℤ int8 (scale 4 b)) +ℤ pos 5) in
    elim (get_elem? truth_table (pos_part i)) [
      | none ↦ panic
      | some v ↦ if ltb_ℤ i (pos 0) then panic else ok v
    ]

-- src[Indices[i]]: the array has 729 trits, and every index is below.
unfoldable pub source_at : Trits → ℕ → ℤ
unfolding indices
source_at src i = get_or src (indices i) (pos 0)

-- One Curl-P round, nine trits at a time.
unfoldable pub round_loop : ℕ → ℕ → Trits → Result Trits
unfolding source_at
round_loop zero i src = ok []
round_loop (suc n) i src = do
  let s0 = source_at src i
  let s1 = source_at src (i + 1)
  let s2 = source_at src (i + 2)
  let s3 = source_at src (i + 3)
  let s4 = source_at src (i + 4)
  let s5 = source_at src (i + 5)
  let s6 = source_at src (i + 6)
  let s7 = source_at src (i + 7)
  let s8 = source_at src (i + 8)
  let s9 = source_at src (i + 9)
  d0 ← apply_table s0 s1
  d1 ← apply_table s1 s2
  d2 ← apply_table s2 s3
  d3 ← apply_table s3 s4
  d4 ← apply_table s4 s5
  d5 ← apply_table s5 s6
  d6 ← apply_table s6 s7
  d7 ← apply_table s7 s8
  d8 ← apply_table s8 s9
  rest ← round_loop n (i + 9) src
  ok (d0 ∷ d1 ∷ d2 ∷ d3 ∷ d4 ∷ d5 ∷ d6 ∷ d7 ∷ d8 ∷ rest)

-- The whole of dst is written from src, in 81 steps; then the two buffers change places. The result
-- is what dst and src hold in the end.
unfoldable pub transform_generic : ℕ → Trits → Trits → Result (Trits × Trits)
unfolding round_loop
transform_generic zero dst src = ok (dst, src)
transform_generic (suc r) dst src = do
  written ← round_loop 81 0 src
  swapped ← transform_generic r src written
  ok (swapped.1, swapped.0)

pub record Curl : Type 0 where
  pub state : Trits
  pub squeezing : Bool

abbrev pub new_curl : Curl
new_curl = record { state = replicate state_size (pos 0); squeezing = false }

module _ (rounds : ℕ) where
  -- For an odd number of rounds the buffer is copied into the state.
  unfoldable pub transform : Trits → Result Trits
  transform state = do
    out ← transform_generic rounds (replicate state_size (pos 0)) state
    ok (if not (rounds % 2 == 0) then copy (out.1) (out.0) else out.1)

  -- The blocks of 243 trits, one by one.
  unfoldable pub absorb_loop : ℕ → Trits → Trits → Result Trits
  unfolding transform
  absorb_loop zero state trits = ok state
  absorb_loop (suc n) state trits = do
    s ← transform (copy (take hash_trinary_size state) trits ++ drop hash_trinary_size state)
    absorb_loop n s (drop hash_trinary_size trits)

  unfoldable pub absorb : Curl → Trits → Result Curl
  unfolding absorb_loop
  absorb c trits =
      if length trits == 0 || not (length trits % hash_trinary_size == 0)
      then err invalid_trits_length
      else if c.squeezing
      then panic
      else do
        s ← absorb_loop (length trits / hash_trinary_size) (c.state) trits
        ok (record c { state = s })

  -- A block of the output; the state is transformed before each but the first.
  unfoldable pub squeeze_block : Curl → Result (Trits × Curl)
  unfolding transform
  squeeze_block c = do
    s ← if c.squeezing then transform (c.state) else ok (c.state)
    ok (
      copy (replicate hash_trinary_size (pos 0)) (take hash_trinary_size s),
      record { state = s; squeezing = true },
    )

  unfoldable pub squeeze_loop : ℕ → Curl → Result (Trits × Curl)
  unfolding squeeze_block
  squeeze_loop zero c = ok ([], c)
  squeeze_loop (suc n) c = do
    block ← squeeze_block c
    rest ← squeeze_loop n (block.1)
    ok (block.0 ++ rest.0, rest.1)

  unfoldable pub squeeze : Curl → ℕ → Result (Trits × Curl)
  unfolding squeeze_loop
  squeeze c n =
      if not (n % hash_trinary_size == 0)
      then err invalid_squeeze_length
      else squeeze_loop (n / hash_trinary_size) c

  unfoldable pub squeeze_trytes : Curl → ℕ → Result (Trytes × Curl)
  squeeze_trytes c n = do
    out ← squeeze c n
    trytes ← must_trits_to_trytes (out.0)
    ok (trytes, out.1)

  unfoldable pub absorb_trytes : Curl → Trytes → Result Curl
  absorb_trytes c trytes =
      if length trytes == 0 || not (length trytes % hash_trytes_size == 0)
      then err invalid_trytes_length
      else do trits ← trytes_to_trits trytes; absorb c trits

  unfoldable pub must_absorb_trytes : Curl → Trytes → Result Curl
  must_absorb_trytes c trytes = do trits ← must_trytes_to_trits trytes; must (absorb c trits)

  unfoldable pub must_squeeze : Curl → ℕ → Result (Trits × Curl)
  must_squeeze c n = must (squeeze c n)

  unfoldable pub must_squeeze_trytes : Curl → ℕ → Result (Trytes × Curl)
  must_squeeze_trytes c n = do
    out ← must_squeeze c n
    trytes ← must_trits_to_trytes (out.0)
    ok (trytes, out.1)

  unfoldable pub hash_trits : Trits → Result Trits
  hash_trits trits = do c ← absorb new_curl trits; out ← squeeze c hash_trinary_size; ok (out.0)
