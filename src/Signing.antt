-- ===== src/Signing.antt =====
-- signing/signing.go: digests, signatures and normalised hashes, over any sponge function. A call
-- gets the sponge's state as an argument; it leaves it reset, as the deferred `Reset` does.
pub mod Normalize
pub mod Chain
pub mod Verify
pub mod Segments
pub mod Fragments
pub mod Examples
use iota_go.Common.{
  int64, ℕ, zero, suc, ◌+◌, ◌-◌, ◌*◌, ◌/◌, ◌%◌, Bool, ◌||◌, not, List, [], ◌∷◌, ◌++◌, ltb, ◌==◌,
  if◌then◌else◌, length, take, drop, ℤ, pos, negsuc, pos_part, ◌+ℤ◌, ◌-ℤ◌, ltb_ℤ, int8,
}
use iota_go.Consts.{
  ◌>>◌, trinary_radix, invalid_seed, invalid_signature, invalid_trytes, hash_trytes_size, Result,
  ok, err, panic, ◌>>=◌, invalid_trits_length, hash_trinary_size, key_fragment_length,
  key_segments_per_fragment, key_segment_hash_rounds,
}
use iota_go.Trinary.Trits.{Trits}
use iota_go.Trinary.Tryte.{must_tryte_to_tryte_value}
use iota_go.Trinary.Convert.{Trytes, trytes_eq, valid_trytes, trytes_to_trits, trits_to_trytes}
use iota_go.Trinary.Number.{int_to_trits}
use iota_go.Trinary.Adder.{add_trits}
use iota_go.Guards.{is_trytes_of_exact_length}
use iota_go.Sponge.{Sponge}

unfoldable pub trytes_to_tryte_values : Trytes → Result (List ℤ)
trytes_to_tryte_values [] = ok []
trytes_to_tryte_values (t ∷ ts) = do
  v ← must_tryte_to_tryte_value t
  vs ← trytes_to_tryte_values ts
  ok (v ∷ vs)

-- The sum of all values, an int.
unfoldable pub sum : List ℤ → ℤ
sum [] = pos 0
sum (x ∷ xs) = x +ℤ sum xs

-- The second loop of `normalizeHashFragment`, which ends at the first value that need not be cut.
unfoldable pub normalize_loop : List ℤ → ℤ → List ℤ
normalize_loop [] excess = []
normalize_loop (x ∷ xs) excess =
    let v = x -ℤ excess in
    let low = negsuc 12 ∷ normalize_loop xs (negsuc 12 -ℤ v) in
    let high = pos 13 ∷ normalize_loop xs (pos 13 -ℤ v) in
    if ltb_ℤ v (negsuc 12) then low else if ltb_ℤ (pos 13) v then high else int8 v ∷ xs

unfoldable pub normalize_hash_fragment : List ℤ → List ℤ
normalize_hash_fragment values = normalize_loop values (sum values)

-- The fragments left to normalise, of 27 values each; a slice that is too short panics.
unfoldable pub normalize_fragments : ℕ → List ℤ → Result (List ℤ)
normalize_fragments zero values = ok values
normalize_fragments (suc n) values = if ltb (length values) 27 then panic else do
  rest ← normalize_fragments n (drop 27 values)
  ok (normalize_hash_fragment (take 27 values) ++ rest)

unfoldable pub normalized_bundle_hash : Trytes → Result (List ℤ)
normalized_bundle_hash hash = do values ← trytes_to_tryte_values hash; normalize_fragments 3 values

-- Every 243rd trit is set to 0; so many trits precede the next one.
unfoldable pub clear_trits : ℕ → Trits → Trits
clear_trits n [] = []
clear_trits zero (t ∷ ts) = pos 0 ∷ clear_trits 242 ts
clear_trits (suc n) (t ∷ ts) = t ∷ clear_trits n ts

module _ (sponge : Sponge) where
  open sponge use {State, fresh, absorb, squeeze}

  -- Rounds of Absorb, Squeeze and Reset on one segment.
  unfoldable pub hash_chain : ℕ → State → Trits → Result (Trits × State)
  hash_chain zero s tmp = ok (tmp, s)
  hash_chain (suc rounds) s tmp = do
    s1 ← absorb s tmp
    out ← squeeze s1 hash_trinary_size
    hash_chain rounds fresh out.0

  -- The segments of a key fragment left to hash; the states of `chainHash` and `digestHash`.
  unfoldable pub digest_segments : ℕ → State → State → Trits → Result (State × State)
  digest_segments zero chain digest key = ok (chain, digest)
  digest_segments (suc n) chain digest key = do
    tmp ← hash_chain key_segment_hash_rounds chain (take hash_trinary_size key)
    digest' ← absorb digest tmp.0
    digest_segments n tmp.1 digest' (drop hash_trinary_size key)

  unfoldable pub digests_loop : ℕ → State → State → Trits → Result Trits
  digests_loop zero chain digest key = ok []
  digests_loop (suc n) chain digest key = do
    states ← digest_segments key_segments_per_fragment chain digest key
    buf ← squeeze states.1 hash_trinary_size
    rest ← digests_loop n states.0 fresh (drop key_fragment_length key)
    ok (buf.0 ++ rest)

  -- The loop makes a round for each whole fragment, and the key holds nothing else.
  unfoldable pub digests : State → Trits → Result Trits
  digests s key =
      if not (length key % key_fragment_length == 0)
      then err invalid_trits_length
      else digests_loop (length key / key_fragment_length) s s key

  unfoldable pub address : State → Trits → Result Trits
  address s digests = do s1 ← absorb s digests; out ← squeeze s1 hash_trinary_size; ok out.0

  -- int(MaxTryteValue - normalized[i]) rounds, none if that is negative. The hash has the length of
  -- the segment that it is copied over. What is out of range panics.
  unfoldable pub signature_loop : ℕ → List ℤ → State → Trits → Result Trits
  signature_loop zero values s key = ok key
  signature_loop (suc n) [] s key = panic
  signature_loop (suc n) (v ∷ values) s key =
      if ltb (length key) hash_trinary_size then panic else do
        hash ← hash_chain (pos_part (int8 (pos 13 -ℤ v))) s (take hash_trinary_size key)
        rest ← signature_loop n values hash.1 (drop hash_trinary_size key)
        ok (hash.0 ++ rest)

  unfoldable pub signature_fragment : List ℤ → Trits → State → Result Trits
  signature_fragment values key s = signature_loop key_segments_per_fragment values s key

  -- normalized[i] + MaxTryteValue rounds.
  unfoldable pub digest_loop : List ℤ → State → State → Trits → Result (State × State)
  digest_loop [] chain digest signature = ok (chain, digest)
  digest_loop (v ∷ values) chain digest signature = do
    tmp ← hash_chain (pos_part (int8 (v +ℤ pos 13))) chain (take hash_trinary_size signature)
    digest' ← absorb digest tmp.0
    digest_loop values tmp.1 digest' (drop hash_trinary_size signature)

  unfoldable pub digest : List ℤ → Trits → State → Result Trits
  digest values signature s =
      if not (length values == key_segments_per_fragment)
      then err invalid_trits_length
      else if not (length signature == key_fragment_length)
      then err invalid_trits_length
      else do
        states ← digest_loop values s s signature
        out ← squeeze states.1 hash_trinary_size
        ok out.0

  -- Subseed number i is the hash of the seed plus i.
  unfoldable pub subseed : Trytes → ℕ → State → Result Trits
  unfolding valid_trytes
  subseed seed index s = do
    valid_trytes seed
    if not (length seed == hash_trinary_size / trinary_radix) then err invalid_seed else ok tt
    trits ← trytes_to_trits seed
    increment ← int_to_trits (int64 (pos index))
    s1 ← absorb s (add_trits trits increment)
    out ← squeeze s1 hash_trinary_size
    ok out.0

  -- The digests of the fragments from number i on; those of a long signature cycle through the hash.
  unfoldable pub fragment_digests : List ℤ → ℕ → List Trytes → Result Trits
  unfolding clear_trits
  fragment_digests normalized i [] = ok []
  fragment_digests normalized i (fragment ∷ fragments) = do
    trits ← trytes_to_trits fragment
    let part = i % (hash_trytes_size / key_segments_per_fragment)
    let values = take key_segments_per_fragment (drop (part * key_segments_per_fragment) normalized)
    d ← digest values (clear_trits 242 trits) fresh
    rest ← fragment_digests normalized (i + 1) fragments
    ok (d ++ rest)

  unfoldable pub signature_address : List Trytes → Trytes → Result Trytes
  signature_address fragments hash =
      if length fragments == 0
      then err invalid_signature
      else if not (is_trytes_of_exact_length hash hash_trytes_size)
      then err invalid_trytes
      else do
        normalized ← normalized_bundle_hash hash
        all ← fragment_digests normalized 0 fragments
        out ← address fresh all
        trits_to_trytes out

  unfoldable pub validate_signatures : Trytes → List Trytes → Trytes → Result Bool
  unfolding signature_address
  validate_signatures expected fragments hash = do
    found ← signature_address fragments hash
    ok (trytes_eq expected found)
