-- ===== src/Merkle/Sign.antt =====
-- merkle/signing.go and merkle/merkle_tree.go: keys, leaves and signatures of a tree. `key.Shake`, which
-- derives a key from a subseed by an extendable-output function, is the parameter `shake`.
use iota_go.Common.{
  ℕ, zero, suc, ◌+◌, ◌%◌, ◌^◌, Bool, not, List, [], ◌∷◌, ltb, if◌then◌else◌, length, take, drop, ℤ,
  pos, ltb_ℤ, pos_part,
}
use iota_go.Consts.{
  Error, Result, ok, err, panic, ◌>>=◌, key_fragment_length, key_segments_per_fragment,
  invalid_seed,
}
use iota_go.Trinary.Trits.{Trits}
use iota_go.Trinary.Convert.{Trytes, trytes_eq, must_trits_to_trytes, trits_to_trytes}
use iota_go.Guards.{is_transaction_hash}
use iota_go.Sponge.{Sponge, must}
use iota_go.Signing.{
  subseed, digests, address, normalized_bundle_hash, signature_fragment, signature_address,
}
use iota_go.Merkle.{index, calculate_all_layers, merkle_root}

-- The tree as it is created: its layers by level, and its root.
pub record MerkleTree : Type 0 where
  pub depth : ℕ
  pub root : Trytes
  pub layers : List (List Trytes)

module _ (sponge : Sponge) (shake : Trits → ℕ → Result Trits) where
  open sponge use {State, fresh}

  unfoldable pub compute_key : Trytes → ℕ → ℕ → Result Trits
  compute_key seed number level = do trits ← subseed sponge seed number fresh; shake trits level

  unfoldable pub compute_address : Trytes → ℕ → ℕ → Result Trytes
  unfolding compute_key
  compute_address seed number level = do
    key ← compute_key seed number level
    all ← digests sponge fresh key
    out ← address sponge fresh all
    trits_to_trytes out

  -- The addresses from number i on; an error in a worker panics.
  unfoldable pub addresses_loop : Trytes → ℕ → ℕ → ℕ → Result (List Trytes)
  unfolding compute_address must
  addresses_loop seed level zero i = ok []
  addresses_loop seed level (suc count) i = do
    a ← must (compute_address seed i level)
    rest ← addresses_loop seed level count (i + 1)
    ok (a ∷ rest)

  unfoldable pub calculate_all_addresses : Trytes → ℕ → ℕ → Result (List Trytes)
  unfolding addresses_loop
  calculate_all_addresses seed level count = addresses_loop seed level count 0

  -- The count of leaves is a uint32.
  unfoldable pub create_merkle_tree : Trytes → ℕ → ℤ → Result MerkleTree
  unfolding index
  create_merkle_tree seed level depth =
      if ltb_ℤ depth (pos 1)
      then err Error.depth_too_small
      else if ltb_ℤ (pos 32) depth
      then err Error.depth_too_large
      else if not (is_transaction_hash seed)
      then err invalid_seed
      else do
        addresses ← calculate_all_addresses seed level (2 ^ pos_part depth % 2 ^ 32)
        layers ← calculate_all_layers sponge addresses
        top ← index layers 0
        root ← index top 0
        ok (record { depth = pos_part depth; root = root; layers = layers })

  -- A fragment for each level left; a hash or a key that is too short for it panics.
  unfoldable pub sign_loop : ℕ → List ℤ → Trits → Result (List Trytes)
  sign_loop zero normalized key = ok []
  sign_loop (suc level) normalized key =
      if ltb (length normalized) key_segments_per_fragment
      then panic
      else if ltb (length key) key_fragment_length
      then panic
      else do
        frag ←
            signature_fragment sponge (take key_segments_per_fragment normalized)
              (take key_fragment_length key) fresh
        fragment ← must_trits_to_trytes frag
        rest ←
            sign_loop level (drop key_segments_per_fragment normalized)
              (drop key_fragment_length key)
        ok (fragment ∷ rest)

  unfoldable pub signature_fragments : Trytes → ℕ → ℕ → Trytes → Result (List Trytes)
  signature_fragments seed leaf level hash =
      if not (is_transaction_hash seed) then err invalid_seed else do
        key ← compute_key seed leaf level
        normalized ← normalized_bundle_hash hash
        sign_loop level normalized key

  unfoldable pub validate_signature_fragments :
      Trytes → ℕ → List Trytes → List Trytes → Trytes → Result Bool
  validate_signature_fragments expected leaf path fragments hash = do
    found ← signature_address sponge fragments hash
    root ← merkle_root sponge found leaf path
    ok (trytes_eq expected root)
