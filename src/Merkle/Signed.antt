-- ===== src/Merkle/Signed.antt =====
-- Signatures and trees together: what a tree's owner signs validates against the root.
use iota_go.Common.{
  ltb_ℤ, ℕ, zero, suc, ◌+◌, ◌*◌, ◌/◌, ◌%◌, ◌^◌, ◌≤◌, ◌<◌, ◌≡◌, refl, ap, sym, ◌∙◌, true, false,
  List, [], ◌∷◌, length, arith, pos, ltb_ℤ, le→ltb, ◌==◌, eq→==, pos→==, Bool-cases, inl, inr,
}
use iota_go.Consts.{Result, ok, >>=_split, ok_inj, key_fragment_length}
use iota_go.Trinary.Trits.{Trits}
use iota_go.Trinary.Tryte.{is_valid_tryte}
use iota_go.Trinary.Convert.{Trytes, trytes_eq_refl}
use iota_go.Trinary.Convert.RoundTrip.{AreTrytes}
use iota_go.Guards.{all_trytes, is_trytes_of_exact_length, is_transaction_hash}
use iota_go.Sponge.{Sponge, must}
use iota_go.Signing.{digests, signature_address}
use iota_go.Signing.Normalize.{AreNormal-AllInTryte, normalized_bundle_hash-AreNormal}
use iota_go.Signing.Segments.{AreSegments, AreSegments-IsKey}
use iota_go.Signing.Fragments.{SqueezesHashes}
use iota_go.Merkle.{index, audit_path, calculate_all_layers}
use iota_go.Merkle.Sign.{
  sign_loop, compute_key, compute_address, addresses_loop, calculate_all_addresses,
  signature_fragments, validate_signature_fragments, MerkleTree, create_merkle_tree,
}
use native.Mathlib.Nat.{pow-le-pow_right}
use iota_go.Merkle.Layers.{must-ok}
use iota_go.Merkle.Validate.{fragment_digests-sign_loop}
use iota_go.Merkle.Proof.{merkle_root-audit_path}

all_trytes-AreTrytes : (ts : Trytes) → all_trytes ts ≡ true → AreTrytes ts
unfolding all_trytes is_valid_tryte
all_trytes-AreTrytes [] h = tt
all_trytes-AreTrytes (t ∷ ts) h = (ground arith, all_trytes-AreTrytes ts (ground arith))

exact_length-AreTrytes :
    (ts : Trytes) → is_trytes_of_exact_length ts 81 ≡ true → AreTrytes ts × (length ts ≡ 81)
unfolding is_trytes_of_exact_length
exact_length-AreTrytes ts h = (all_trytes-AreTrytes ts (ground arith), ground arith)

module _ (sponge : Sponge) (shake : Trits → ℕ → Result Trits) (kerl : SqueezesHashes sponge) where
  open sponge use {State, fresh}

  -- What is signed for a leaf has the address of the leaf: for every seed, leaf, security level of 1
  -- to 3 and hash of 81 trytes that was signed, where the sponge gives hashes as Kerl does and the key
  -- of the leaf is made of such hashes, 27 for each level. There is a fragment for each level.
  pub signature_address-signature_fragments :
      (seed : Trytes) (leaf level : ℕ) (hash : Trytes) (key : Trits) (fragments : List Trytes)
      → 1 ≤ level
      → level ≤ 3
      → is_trytes_of_exact_length hash 81 ≡ true
      → compute_key sponge shake seed leaf level ≡ ok key
      → AreSegments (level * 27) key
      → signature_fragments sponge shake seed leaf level hash ≡ ok fragments
      → (signature_address sponge fragments hash ≡ compute_address sponge shake seed leaf level)
        × (length fragments ≡ level)
  unfolding signature_fragments signature_address compute_address digests
  signature_address-signature_fragments seed leaf level hash key fragments lo hi hh hkey segments
        e =
      elim (Bool-cases (is_transaction_hash seed)) [
        | inr bad ↦ absurd (cc (rw bad at e))
        | inl good ↦
            let (valid, l81) = exact_length-AreTrytes hash hh in
            let (values, en, normal, len) = normalized_bundle_hash-AreNormal hash valid l81 in
            let signs : sign_loop sponge shake level values key ≡ ok fragments =
              rw (good, hkey, en) at e in
            let (same, count) =
              fragment_digests-sign_loop sponge shake kerl level 0 values values key fragments
                (AreNormal-AllInTryte 3 values normal len) len (omega arith) refl segments signs in
            let lk = (AreSegments-IsKey (level * 27) key segments).size in
            let whole : (length key % key_fragment_length == 0) ≡ true = eq→== _ 0 (omega arith) in
            let rounds : length key / key_fragment_length ≡ level = omega arith in
            let any : (length fragments == 0) ≡ false = pos→== _ (omega arith) in
            (rw (any, hh, en, same, hkey, whole, rounds) refl, count)
      ]

  length-addresses_loop :
      (seed : Trytes) (level count i : ℕ) (found : List Trytes)
      → addresses_loop sponge shake seed level count i ≡ ok found
      → length found ≡ count
  unfolding addresses_loop
  length-addresses_loop seed level zero i found e = ap length (sym (ok_inj e))
  length-addresses_loop seed level (suc count) i found e =
      let (a, e1, e2) = >>=_split (must (compute_address sponge shake seed i level)) _ e in
      let (rest, e3, e4) = >>=_split (addresses_loop sponge shake seed level count (i + 1)) _ e2 in
      ap length (sym (ok_inj e4)) ∙ ap suc (length-addresses_loop seed level count (i + 1) rest e3)

  -- Leaf k has the address of key number i + k.
  addresses_loop-index :
      (seed : Trytes) (level count i k : ℕ) (found : List Trytes)
      → addresses_loop sponge shake seed level count i ≡ ok found
      → k < count
      → (a : Trytes) × (index found k ≡ ok a)
        × (compute_address sponge shake seed (i + k) level ≡ ok a)
  unfolding addresses_loop index
  addresses_loop-index seed level zero i k found e h = absurd (omega arith)
  addresses_loop-index seed level (suc count) i zero found e h =
      let (a, e1, e2) = >>=_split (must (compute_address sponge shake seed i level)) _ e in
      let (rest, e3, e4) = >>=_split (addresses_loop sponge shake seed level count (i + 1)) _ e2 in
      let here : i + 0 ≡ i = omega arith in
      (
        a,
        ap (λ xs. index xs 0) (sym (ok_inj e4)),
        rw here (must-ok (compute_address sponge shake seed i level) e1),
      )
  addresses_loop-index seed level (suc count) i (suc k) found e h =
      let (a, e1, e2) = >>=_split (must (compute_address sponge shake seed i level)) _ e in
      let (rest, e3, e4) = >>=_split (addresses_loop sponge shake seed level count (i + 1)) _ e2 in
      let (b, eb, fb) = addresses_loop-index seed level count (i + 1) k rest e3 (omega arith) in
      let there : i + suc k ≡ i + 1 + k = omega arith in
      (b, ap (λ xs. index xs (suc k)) (sym (ok_inj e4)) ∙ eb, rw there fb)

  -- What a tree that was created is made of.
  record Created (seed : Trytes) (level depth : ℕ) (tree : MerkleTree) : Type 0 where
    leaves : List Trytes
    top : List Trytes
    leaves_lem : addresses_loop sponge shake seed level (2 ^ depth) 0 ≡ ok leaves
    layers_lem : calculate_all_layers sponge leaves ≡ ok tree.layers
    top_lem : index tree.layers 0 ≡ ok top
    root_lem : index top 0 ≡ ok tree.root

  create_merkle_tree-Created :
      (seed : Trytes) (level depth : ℕ) (tree : MerkleTree)
      → 1 ≤ depth
      → depth ≤ 31
      → create_merkle_tree sponge shake seed level (pos depth) ≡ ok tree
      → Created seed level depth tree
  unfolding create_merkle_tree calculate_all_addresses
  create_merkle_tree-Created seed level depth tree lo hi e =
      let small : ltb_ℤ (pos depth) (pos 1) ≡ false = le→ltb _ _ (omega arith) in
      let large : ltb_ℤ (pos 32) (pos depth) ≡ false = le→ltb _ _ (omega arith) in
      elim (Bool-cases (is_transaction_hash seed)) [
        | inr bad ↦ absurd (cc (rw (small, large, bad) at e))
        | inl good ↦
            let power = pow-le-pow_right {n = 2} (omega arith) {i = depth} {j = 31} hi in
            let count : 2 ^ depth % 2 ^ 32 ≡ 2 ^ depth = omega arith in
            let e0 = rw (small, large, good, count) at e in
            let (leaves, e1, e2) =
              >>=_split (addresses_loop sponge shake seed level (2 ^ depth) 0) _ e0 in
            let (layers, e3, e4) = >>=_split (calculate_all_layers sponge leaves) _ e2 in
            let (top, e5, e6) = >>=_split (index layers 0) _ e4 in
            let (root, e7, e8) = >>=_split (index top 0) _ e6 in
            let same = ok_inj e8 in
            record {
              leaves = leaves;
              top = top;
              leaves_lem = e1;
              layers_lem = e3 ∙ ap (λ (t : MerkleTree). ok t.layers) same;
              top_lem = ap (λ (t : MerkleTree). index t.layers 0) (sym same) ∙ e5;
              root_lem = e7 ∙ ap (λ (t : MerkleTree). ok t.root) same;
            }
      ]

  -- A signature of the owner of a tree validates. For a tree of depth 1 to 31 that was created, each
  -- of its leaves, a security level of 1 to 3 and a hash of 81 trytes: where the sponge gives hashes as
  -- Kerl does and the leaf's key is made of such hashes, the leaf has an audit path with which the
  -- fragments signed for it validate against the root.
  pub validate_signature_fragments-signature_fragments :
      (seed : Trytes) (depth leaf level : ℕ) (hash : Trytes) (key : Trits) (tree : MerkleTree)
      (fragments : List Trytes)
      → 1 ≤ depth
      → depth ≤ 31
      → leaf < 2 ^ depth
      → 1 ≤ level
      → level ≤ 3
      → is_trytes_of_exact_length hash 81 ≡ true
      → compute_key sponge shake seed leaf level ≡ ok key
      → AreSegments (level * 27) key
      → create_merkle_tree sponge shake seed level (pos depth) ≡ ok tree
      → signature_fragments sponge shake seed leaf level hash ≡ ok fragments
      → (path : List Trytes) × (audit_path depth tree.layers leaf ≡ ok path)
        × (validate_signature_fragments sponge shake tree.root leaf path fragments hash ≡ ok true)
  unfolding validate_signature_fragments
  validate_signature_fragments-signature_fragments seed depth leaf level hash key tree fragments d1
        d31 hl l1 l3 hh hkey segments ht hs =
      let c = create_merkle_tree-Created seed level depth tree d1 d31 ht in
      let (a, ea, fa) =
        addresses_loop-index seed level (2 ^ depth) 0 leaf c.leaves c.leaves_lem hl in
      let size = length-addresses_loop seed level (2 ^ depth) 0 c.leaves c.leaves_lem in
      let (path, top, root, audited, len, et, er, proved) =
        merkle_root-audit_path sponge c.leaves tree.layers depth size (omega arith) c.layers_lem
          leaf a ea in
      let same_top = ok_inj (sym et ∙ c.top_lem) in
      let same_root : root ≡ tree.root =
        ok_inj (sym er ∙ ap (λ t. index t 0) same_top ∙ c.root_lem) in
      let here : 0 + leaf ≡ leaf = omega arith in
      let (signed, count) =
        signature_address-signature_fragments seed leaf level hash key fragments l1 l3 hh hkey
          segments hs in
      (
        path,
        audited,
        rw (signed, rw here at fa, proved, same_root) (ap ok (trytes_eq_refl tree.root)),
      )
