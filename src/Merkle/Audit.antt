-- ===== src/Merkle/Audit.antt =====
-- The audit path of a leaf leads from the leaf to the root of its tree.
use iota_go.Common.{
  ℕ, zero, suc, ◌+◌, ◌-◌, ◌*◌, ◌/◌, ◌%◌, ◌^◌, ◌≤◌, ◌<◌, ◌≡◌, refl, ap, ◌∙◌, true, false, List, [],
  ◌∷◌, length, arith, ◌==◌, if◌then◌else◌, Bool-cases, inl, inr,
}
use native.Mathlib.Nat.{div-div-eq-div-mul, pow-le-pow_right}
use iota_go.Consts.{Result, ok, ◌>>=◌, >>=_split, >>=_congr}
use iota_go.Trinary.Convert.{Trytes}
use iota_go.Sponge.{Sponge}
use iota_go.Merkle.{
  index, is_right, audit_loop, calculate_next_layer, layers_loop, fold_node, root_loop,
}
use iota_go.Merkle.Words.{index-exists}
use iota_go.Merkle.Layers.{
  fold_node-parent, length-calculate_next_layer, calculate_next_layer-node, index-layers_loop,
}

module _ (sponge : Sponge) where
  -- From a leaf towards the root: the index of the node is halved on each level.
  unfoldable pub climb : ℕ → List Trytes → Trytes → Result Trytes
  climb leaf [] hash = ok hash
  climb leaf (sibling ∷ path) hash =
      fold_node sponge (leaf % 2 == 1) sibling hash >>= climb (leaf / 2) path

  pub root_loop-climb :
      (leaf k : ℕ) (path : List Trytes) (hash : Trytes)
      → k + length path ≤ 32
      → root_loop sponge leaf (2 ^ k) path hash ≡ climb (leaf / 2 ^ k) path hash
  unfolding root_loop is_right climb
  root_loop-climb leaf k [] hash h = refl
  root_loop-climb leaf k (s ∷ []) hash h = refl
  root_loop-climb leaf k (s ∷ t ∷ path) hash h =
      let small = pow-le-pow_right {n = 2} (omega arith) {i = suc k} {j = 31} (omega arith) in
      let j : 2 ^ k * 2 % 2 ^ 32 ≡ 2 ^ suc k = omega arith in
      let half : leaf / 2 ^ k / 2 ≡ leaf / 2 ^ suc k =
        div-div-eq-div-mul leaf (2 ^ k) 2 ∙ ap (λ d. leaf / d) (omega arith) in
      rw (j, half)
        (>>=_congr (fold_node sponge (leaf / 2 ^ k % 2 == 1) s hash)
          (λ a. root_loop-climb leaf (suc k) (t ∷ path) a (omega arith)))

  -- What an audit of one leaf finds in the layers of a tree.
  pub record Audited (level : ℕ) (layers : List (List Trytes)) (leaf : ℕ) (hash : Trytes)
      : Type 0 where
    pub path : List Trytes
    pub top : List Trytes
    pub root : Trytes
    pub audit_lem : audit_loop level layers leaf ≡ ok path
    pub length_path : length path ≡ level
    pub top_lem : index layers 0 ≡ ok top
    pub root_lem : index top 0 ≡ ok root
    pub climb_lem : climb leaf path hash ≡ ok root

  -- The sibling of a node, and their parent.
  neighbour :
      (layer next : List Trytes) (leaf : ℕ) (hash : Trytes)
      → calculate_next_layer sponge layer ≡ ok next
      → index layer leaf ≡ ok hash
      → leaf / 2 * 2 + 1 < length layer
      → (sibling : Trytes) × (node : Trytes) × (index layer
            (if leaf % 2 == 0 then leaf + 1 else leaf - 1)
          ≡ ok sibling)
        × (fold_node sponge (leaf % 2 == 1) sibling hash ≡ ok node)
        × (index next (leaf / 2) ≡ ok node)
  neighbour layer next leaf hash en e small = elim (Bool-cases (leaf % 2 == 0)) [
    | inl even ↦
        let odd : (leaf % 2 == 1) ≡ false = ground arith in
        let i : 2 * (leaf / 2) ≡ leaf = ground arith in
        let (s, es) = index-exists layer (leaf + 1) (ground arith) in
        let (node, e1, e2) =
          calculate_next_layer-node sponge layer next (leaf / 2) hash s en (rw i e) (rw i es) in
        rw (even, odd) (s, node, es, (fold_node-parent sponge hash s node e2).0, e1)
    | inr uneven ↦
        let odd : (leaf % 2 == 1) ≡ true = ground arith in
        let i : 2 * (leaf / 2) ≡ leaf - 1 = ground arith in
        let j : 2 * (leaf / 2) + 1 ≡ leaf = ground arith in
        let (s, es) = index-exists layer (leaf - 1) (ground arith) in
        let (node, e1, e2) =
          calculate_next_layer-node sponge layer next (leaf / 2) s hash en (rw i es) (rw j e) in
        rw (uneven, odd) (s, node, es, (fold_node-parent sponge s hash node e2).1, e1)
  ]

  pub audit_level :
      (level : ℕ) (layer : List Trytes) (above layers : List (List Trytes)) (leaf : ℕ)
      (hash : Trytes)
      → layers_loop sponge level layer above ≡ ok layers
      → length layer ≡ 2 ^ level
      → index layer leaf ≡ ok hash
      → leaf < 2 ^ level
      → Audited level layers leaf hash
  unfolding layers_loop audit_loop climb
  audit_level zero layer above layers leaf hash h l e small = record {
    path = [];
    top = layer;
    root = hash;
    audit_lem = refl;
    length_path = refl;
    top_lem = index-layers_loop sponge zero layer above layers 0 h ∙ unfold index in refl;
    root_lem = ap (index layer) (omega arith) ∙ e;
    climb_lem = refl;
  }
  audit_level (suc level) layer above layers leaf hash h l e small =
      let (next, en, hn) = >>=_split (calculate_next_layer sponge layer) _ h in
      let here : index layers (suc level) ≡ ok layer =
        ap (index layers) (omega arith)
        ∙ index-layers_loop sponge level next (layer ∷ above) layers 1 hn
        ∙ unfold index in refl in
      let (sibling, node, es, step, en') = neighbour layer next leaf hash en e (omega arith) in
      let up =
        audit_level level next (layer ∷ above) layers (leaf / 2) node hn
          (length-calculate_next_layer sponge layer next (2 ^ level) (omega arith) en) en'
          (omega arith) in
      record {
        path = sibling ∷ up.path;
        top = up.top;
        root = up.root;
        audit_lem = rw (here, es, up.audit_lem) refl;
        length_path = ap suc up.length_path;
        top_lem = up.top_lem;
        root_lem = up.root_lem;
        climb_lem = rw step up.climb_lem;
      }
