-- ===== src/Merkle/Examples.antt =====
-- A tree of four addresses, over a sponge that gives back the last trytes it absorbed.
use iota_go.Common.{
  ◌≤◌, ◌≡◌, refl, List, [], ◌∷◌, ◌++◌, length, arith, ap, sym, ◌∙◌, replicate, pos,
  length-replicate,
}
use iota_go.Consts.{Error, ok, err, ok_inj}
use iota_go.Trinary.Convert.{Trytes}
use iota_go.Sponge.{Sponge, must}
use iota_go.Merkle.{
  index, audit_path, bits_len, parent, calculate_next_layer, layers_loop, calculate_all_layers,
  merkle_root,
}
use iota_go.Merkle.Proof.{merkle_root-audit_path, audit_path-invalid_leaf_index}

abbrev joining : Sponge
joining = record {
  State = Trytes;
  fresh = [];
  absorb = λ s ts. ok s;
  squeeze = λ s n. ok (replicate n (pos 0), s);
  absorb_trytes = λ s ts. ok (s ++ ts);
  squeeze_trytes = λ s n. ok (s, s);
  length-squeeze =
      λ s n out s' e. ap (λ p. length p.0) (sym (ok_inj e)) ∙ length-replicate n (pos 0);
}

abbrev addresses : List Trytes
addresses = (b'A' ∷ []) ∷ (b'B' ∷ []) ∷ (b'C' ∷ []) ∷ (b'D' ∷ []) ∷ []

abbrev layers : List (List Trytes)
layers =
    ((b'A' ∷ b'B' ∷ b'C' ∷ b'D' ∷ []) ∷ [])
    ∷ ((b'A' ∷ b'B' ∷ []) ∷ (b'C' ∷ b'D' ∷ []) ∷ [])
    ∷ addresses
    ∷ []

layers_run : calculate_all_layers joining addresses ≡ ok layers
unfolding calculate_all_layers bits_len layers_loop calculate_next_layer parent must
layers_run = refl

third_run : index addresses 2 ≡ ok (b'C' ∷ [])
unfolding index
third_run = refl

merkle_root-audit_path_example :
    (path : List Trytes) × (top : List Trytes) × (root : Trytes) × (audit_path 2 layers 2 ≡ ok path)
    × (length path ≡ 2)
    × (index layers 0 ≡ ok top)
    × (index top 0 ≡ ok root)
    × (merkle_root joining (b'C' ∷ []) 2 path ≡ ok root)
merkle_root-audit_path_example =
    merkle_root-audit_path joining addresses layers 2 refl (omega arith) layers_run 2 (b'C' ∷ [])
      third_run

audit_path-invalid_leaf_index_example :
    (audit_path 2 layers 4 ≡ err Error.invalid_leaf_index)
    × ((path : List Trytes) (hash : Trytes)
        → length path ≤ 2
        → merkle_root joining hash 4 path ≡ err Error.invalid_audit_path_length)
audit_path-invalid_leaf_index_example =
    audit_path-invalid_leaf_index joining addresses layers 2 refl (omega arith) layers_run 4
      (omega arith) (omega arith) (omega arith)
