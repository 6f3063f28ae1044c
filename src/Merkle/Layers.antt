-- ===== src/Merkle/Layers.antt =====
-- The layers of a tree: each node is the parent of two nodes of the next layer.
use iota_go.Common.{
  ℕ, zero, suc, ◌+◌, ◌*◌, ◌≡◌, refl, ap, sym, ◌∙◌, true, false, List, [], ◌∷◌, length, arith,
}
use iota_go.Consts.{Result, ok, err, panic, >>=_split, ok_inj}
use iota_go.Trinary.Convert.{Trytes}
use iota_go.Sponge.{Sponge, must}
use iota_go.Merkle.{index, parent, calculate_next_layer, layers_loop, fold_node}

pub must-ok {ℓ} : {A : Type ℓ} (r : Result A) {a : A} → must r ≡ ok a → r ≡ ok a
unfolding must
must-ok (ok a) h = h
must-ok (err e) h = absurd (cc)
must-ok panic h = absurd (cc)

module _ (sponge : Sponge) where
  open sponge use {State, fresh, absorb_trytes, squeeze_trytes}

  -- The parent of two nodes, as the layers compute it, is what a round of `merkle_root` computes
  -- from either node and its sibling.
  pub fold_node-parent :
      (left right node : Trytes)
      → parent sponge left right ≡ ok node
      → (fold_node sponge false right left ≡ ok node) × (fold_node sponge true left right ≡ ok node)
  unfolding parent fold_node
  fold_node-parent left right node h =
      let (s1, e1, h1) = >>=_split (must (absorb_trytes fresh left)) _ h in
      let (s2, e2, h2) = >>=_split (must (absorb_trytes s1 right)) _ h1 in
      let a1 = must-ok (absorb_trytes fresh left) e1 in
      let a2 = must-ok (absorb_trytes s1 right) e2 in (rw (a1, a2) h2, rw (a1, a2) h2)

  pub length-calculate_next_layer :
      (layer next : List Trytes) (n : ℕ)
      → length layer ≡ 2 * n
      → calculate_next_layer sponge layer ≡ ok next
      → length next ≡ n
  unfolding calculate_next_layer
  length-calculate_next_layer [] next n l h = rw (← ok_inj h) (omega arith)
  length-calculate_next_layer (a ∷ []) next n l h = absurd (omega arith)
  length-calculate_next_layer (a ∷ b ∷ layer) next zero l h = absurd (omega arith)
  length-calculate_next_layer (a ∷ b ∷ layer) next (suc n) l h =
      let (node, e, h1) = >>=_split (parent sponge a b) _ h in
      let (rest, e', h2) = >>=_split (calculate_next_layer sponge layer) _ h1 in
      let len = length-calculate_next_layer layer rest n (omega arith) e' in
      ap length (sym (ok_inj h2)) ∙ ap suc len

  -- Node i of the next layer is the parent of the nodes 2i and 2i + 1.
  pub calculate_next_layer-node :
      (layer next : List Trytes) (i : ℕ) (left right : Trytes)
      → calculate_next_layer sponge layer ≡ ok next
      → index layer (2 * i) ≡ ok left
      → index layer (2 * i + 1) ≡ ok right
      → (node : Trytes) × (index next i ≡ ok node) × (parent sponge left right ≡ ok node)
  unfolding calculate_next_layer index
  calculate_next_layer-node [] next i left right h el er = absurd (cc)
  calculate_next_layer-node (a ∷ []) next i left right h el er =
      let odd : 2 * i + 1 ≡ suc (2 * i) = omega arith in absurd (cc (rw odd at er))
  calculate_next_layer-node (a ∷ b ∷ layer) next zero left right h el er =
      let (node, e, h1) = >>=_split (parent sponge a b) _ h in
      let (rest, e', h2) = >>=_split (calculate_next_layer sponge layer) _ h1 in
      (node, ap (λ nodes. index nodes 0) (sym (ok_inj h2)), rw (← ok_inj el, ← ok_inj er) e)
  calculate_next_layer-node (a ∷ b ∷ layer) next (suc i) left right h el er =
      let (node, e, h1) = >>=_split (parent sponge a b) _ h in
      let (rest, e', h2) = >>=_split (calculate_next_layer sponge layer) _ h1 in
      let even : 2 * suc i ≡ suc (suc (2 * i)) = omega arith in
      let odd : 2 * suc i + 1 ≡ suc (suc (2 * i + 1)) = omega arith in
      let (up, e1, e2) =
        calculate_next_layer-node layer rest i left right e' (rw even at el) (rw odd at er) in
      (up, ap (λ nodes. index nodes (suc i)) (sym (ok_inj h2)) ∙ e1, e2)

  -- The layers from the last one on stand at the end.
  pub index-layers_loop :
      (level : ℕ) (layer : List Trytes) (above layers : List (List Trytes)) (k : ℕ)
      → layers_loop sponge level layer above ≡ ok layers
      → index layers (level + k) ≡ index (layer ∷ above) k
  unfolding layers_loop
  index-layers_loop zero layer above layers k h =
      rw (← ok_inj h) (ap (index (layer ∷ above)) (omega arith))
  index-layers_loop (suc level) layer above layers k h =
      let (next, e, h1) = >>=_split (calculate_next_layer sponge layer) _ h in
      let at : suc level + k ≡ level + suc k = omega arith in
      rw at (index-layers_loop level next (layer ∷ above) layers (suc k) h1 ∙ unfold index in refl)
