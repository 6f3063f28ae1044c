-- ===== src/Merkle.antt =====
-- merkle/merkle_tree.go and merkle/signing.go: the layers of a Merkle tree, audit paths and roots.
-- The goroutines that compute a layer write to indices of their own: here they run one by one.
pub mod Words
pub mod Layers
pub mod Audit
pub mod Proof
pub mod Sign
pub mod Validate
pub mod Signed
pub mod Tests
pub mod Examples
use iota_go.Common.{
  ℕ, zero, suc, ◌+◌, ◌-◌, ◌*◌, ◌/◌, ◌%◌, ◌^◌, Bool, not, List, [], ◌∷◌, ◌++◌, ltb, ◌==◌,
  if◌then◌else◌, length, get_elem?, Option, none, some,
}
use iota_go.Consts.{Error, Result, ok, err, panic, ◌>>=◌, hash_trinary_size}
use iota_go.Trinary.Convert.{Trytes}
use iota_go.Sponge.{Sponge, must}

-- bits.Len: the number of binary digits. The rounds bound the width.
unfoldable pub bits_len : ℕ → ℕ → ℕ
bits_len zero n = 0
bits_len (suc rounds) n = let rest = bits_len rounds (n / 2) in if n == 0 then 0 else rest + 1

-- An index out of range panics.
unfoldable pub index {ℓ} : {A : Type ℓ} → List A → ℕ → Result A
index [] i = panic
index (x ∷ xs) zero = ok x
index (x ∷ xs) (suc i) = index xs i

-- leafIndex & j, for j a power of two
unfoldable pub is_right : ℕ → ℕ → Bool
is_right leaf j = leaf / j % 2 == 1

-- The loop of `AuditPath`, from the layer of the given level to the root.
unfoldable pub audit_loop : ℕ → List (List Trytes) → ℕ → Result (List Trytes)
unfolding index
audit_loop zero layers leaf = ok []
audit_loop (suc level) layers leaf = do
  layer ← index layers (suc level)
  sibling ← index layer (if leaf % 2 == 0 then leaf + 1 else leaf - 1)
  rest ← audit_loop level layers (leaf / 2)
  ok (sibling ∷ rest)

-- leafIndex|1
abbrev pub last_bit : ℕ → ℕ
last_bit leaf = if leaf % 2 == 0 then leaf + 1 else leaf

-- A tree of the given depth has the layers 0 to depth.
unfoldable pub audit_path : ℕ → List (List Trytes) → ℕ → Result (List Trytes)
unfolding index
audit_path depth layers leaf = do
  leaves ← index layers depth
  let too_large = ltb (length leaves) (last_bit leaf)
  if too_large then err Error.invalid_leaf_index else audit_loop depth layers leaf

module _ (sponge : Sponge) where
  open sponge use {State, fresh, absorb_trytes, squeeze_trytes}

  -- The hash of two nodes: `MustAbsorbTrytes` twice and `MustSqueezeTrytes`.
  unfoldable pub parent : Trytes → Trytes → Result Trytes
  unfolding must
  parent left right = do
    s1 ← must (absorb_trytes fresh left)
    s2 ← must (absorb_trytes s1 right)
    out ← must (squeeze_trytes s2 hash_trinary_size)
    ok out.0

  -- A last node without a neighbour has no parent.
  unfoldable pub calculate_next_layer : List Trytes → Result (List Trytes)
  calculate_next_layer (left ∷ right ∷ nodes) = do
    node ← parent left right
    rest ← calculate_next_layer nodes
    ok (node ∷ rest)
  calculate_next_layer [] = ok []
  calculate_next_layer (node ∷ []) = ok []

  -- From the layer of the given level to the root; `above` holds the layers of the higher levels.
  unfoldable pub layers_loop : ℕ → List Trytes → List (List Trytes) → Result (List (List Trytes))
  layers_loop zero layer above = ok (layer ∷ above)
  layers_loop (suc level) layer above = do
    next ← calculate_next_layer layer
    layers_loop level next (layer ∷ above)

  -- Without addresses there is no layer to write them to, a panic.
  unfoldable pub calculate_all_layers : List Trytes → Result (List (List Trytes))
  unfolding bits_len
  calculate_all_layers [] = panic
  calculate_all_layers (a ∷ addresses) =
      layers_loop (bits_len 64 (length (a ∷ addresses)) - 1) (a ∷ addresses) []

  -- A round of `MerkleRoot`: absorption errors are returned, those of `MustSqueezeTrytes` panic.
  unfoldable pub fold_node : Bool → Trytes → Trytes → Result Trytes
  unfolding must
  fold_node right sibling hash =
      let absorbed =
        if right
        then (absorb_trytes fresh sibling >>= λ s. absorb_trytes s hash)
        else (absorb_trytes fresh hash >>= λ s. absorb_trytes s sibling) in
      absorbed >>= λ s. must (squeeze_trytes s hash_trinary_size) >>= λ out. ok out.0

  unfoldable pub root_loop : ℕ → ℕ → List Trytes → Trytes → Result Trytes
  unfolding is_right
  root_loop leaf j [] hash = ok hash
  root_loop leaf j (sibling ∷ path) hash =
      fold_node (is_right leaf j) sibling hash >>= root_loop leaf (j * 2 % 2 ^ 32) path

  unfoldable pub merkle_root : Trytes → ℕ → List Trytes → Result Trytes
  unfolding bits_len root_loop
  merkle_root leaf_hash leaf path =
      if ltb 32 (length path)
      then err Error.invalid_audit_path_length
      else if ltb (length path) (bits_len 32 leaf)
      then err Error.invalid_audit_path_length
      else root_loop leaf 1 path leaf_hash
