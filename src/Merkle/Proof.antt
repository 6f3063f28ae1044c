-- ===== src/Merkle/Proof.antt =====
-- The audit path of every leaf gives the root of its tree; an index beyond the leaves is an error.
use iota_go.Common.{
  ℕ, zero, suc, ◌-◌, ◌^◌, ◌≤◌, ◌<◌, ◌≡◌, refl, ap, ◌∙◌, true, false, List, [], ◌∷◌, length, arith,
  ltb, lt→ltb, le→ltb,
}
use iota_go.Consts.{Error, ok, err}
use iota_go.Trinary.Convert.{Trytes}
use iota_go.Sponge.{Sponge}
use iota_go.Merkle.{
  bits_len, index, audit_path, last_bit, layers_loop, calculate_all_layers, root_loop, merkle_root,
}
use iota_go.Merkle.Words.{bits_len-le, bits_len-pow, bits_len-gt, index-lt}
use iota_go.Merkle.Layers.{index-layers_loop}
use iota_go.Merkle.Audit.{audit_level, climb, root_loop-climb}

last_bit-gt : (depth leaf : ℕ) → 1 ≤ depth → 2 ^ depth ≤ leaf → 2 ^ depth < last_bit leaf
last_bit-gt zero leaf h le = absurd (omega arith)
last_bit-gt (suc depth) leaf h le = ground arith

module _ (sponge : Sponge) (addresses : List Trytes) (layers : List (List Trytes)) (depth : ℕ)
    (size : length addresses ≡ 2 ^ depth) (bound : depth ≤ 32)
    (built : calculate_all_layers sponge addresses ≡ ok layers) where
  built_loop : layers_loop sponge depth addresses [] ≡ ok layers
  unfolding calculate_all_layers
  built_loop = from_depth addresses size built
    where
      from_depth :
          (xs : List Trytes)
          → length xs ≡ 2 ^ depth
          → calculate_all_layers sponge xs ≡ ok layers
          → layers_loop sponge depth xs [] ≡ ok layers
      from_depth [] l h = absurd (cc)
      from_depth (a ∷ xs) l h =
          let e : bits_len 64 (length (a ∷ xs)) - 1 ≡ depth =
            rw l (rw (bits_len-pow 64 depth (omega arith)) (omega arith)) in
          rw e at h

  leaves : index layers depth ≡ ok addresses
  leaves =
      ap (index layers) (omega arith)
      ∙ index-layers_loop sponge depth addresses [] layers 0 built_loop
      ∙ unfold index in refl

  -- For every leaf of a tree of 2^depth addresses, of depth at most 32, whose layers were computed: the
  -- audit path exists, has depth nodes, and computes the root of the layers from the leaf.
  pub merkle_root-audit_path :
      (leaf : ℕ) (hash : Trytes)
      → index addresses leaf ≡ ok hash
      → (path : List Trytes) × (top : List Trytes) × (root : Trytes) × (audit_path depth layers leaf
          ≡ ok path)
        × (length path ≡ depth)
        × (index layers 0 ≡ ok top)
        × (index top 0 ≡ ok root)
        × (merkle_root sponge hash leaf path ≡ ok root)
  unfolding audit_path merkle_root
  merkle_root-audit_path leaf hash e =
      let small : leaf < 2 ^ depth = omega (arith, index-lt addresses leaf e) in
      let a = audit_level sponge depth addresses [] layers leaf hash built_loop size e small in
      let fits : ltb (length addresses) (last_bit leaf) ≡ false = ground arith in
      let short : ltb 32 (length a.path) ≡ false = le→ltb _ _ (omega (arith, a.length_path)) in
      let enough : ltb (length a.path) (bits_len 32 leaf) ≡ false =
        le→ltb _ _ (omega (arith, a.length_path, bits_len-le 32 leaf depth small)) in
      let climbs : root_loop sponge leaf 1 a.path hash ≡ ok a.root =
        root_loop-climb sponge leaf 0 a.path hash (omega (arith, a.length_path))
        ∙ ap (λ i. climb sponge i a.path hash) (omega arith)
        ∙ a.climb_lem in
      (
        a.path,
        a.top,
        a.root,
        rw (leaves, fits) a.audit_lem,
        a.length_path,
        a.top_lem,
        a.root_lem,
        rw (short, enough) climbs,
      )

  -- In a tree of depth 1 to 32, a 32-bit index beyond the leaves has no audit path, an error, and with a
  -- path of as many nodes as the depth, or of fewer, it has no root, an error too.
  pub audit_path-invalid_leaf_index :
      (leaf : ℕ)
      → 1 ≤ depth
      → 2 ^ depth ≤ leaf
      → leaf < 2 ^ 32
      → (audit_path depth layers leaf ≡ err Error.invalid_leaf_index)
        × ((path : List Trytes) (hash : Trytes)
            → length path ≤ depth
            → merkle_root sponge hash leaf path ≡ err Error.invalid_audit_path_length)
  unfolding audit_path merkle_root
  audit_path-invalid_leaf_index leaf pos_depth large small =
      let beyond : ltb (length addresses) (last_bit leaf) ≡ true =
        lt→ltb _ _ (omega (arith, size, last_bit-gt depth leaf pos_depth large)) in
      (
        rw (leaves, beyond) refl,
        λ path hash le.
            let short : ltb 32 (length path) ≡ false = ground arith in
            let missing : ltb (length path) (bits_len 32 leaf) ≡ true =
              lt→ltb _ _ (omega (arith, bits_len-gt 32 leaf depth large small)) in
            rw (short, missing) refl,
      )
