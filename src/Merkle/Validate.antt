-- ===== src/Merkle/Validate.antt =====
-- Signatures of a tree validate: the fragments signed with a key lead back to the key's address.
use iota_go.Common.{
  ℕ, zero, suc, ◌+◌, ◌*◌, ◌%◌, ◌-◌, ◌≤◌, ◌≡◌, refl, ap, sym, ◌∙◌, List, ◌∷◌, length, take, drop,
  arith, ℤ, length-take, length-drop, drop-drop, le→ltb,
}
use iota_go.Consts.{Result, ok, >>=_split, ok_inj, key_fragment_length, key_segments_per_fragment}
use iota_go.Trinary.Trits.{Trits}
use iota_go.Trinary.Convert.{Trytes, trytes_to_trits, must_trits_to_trytes}
use iota_go.Trinary.Convert.RoundTrip.{converts_back, must_trits_to_trytes_lem}
use iota_go.Trinary.Number.Digits.{AllInTryte}
use iota_go.Sponge.{Sponge}
use iota_go.Signing.{clear_trits, digests_loop, signature_fragment, fragment_digests}
use iota_go.Signing.Segments.{AreSegments, AreSegments-split, AreSegments-IsKey}
use iota_go.Signing.Fragments.{SqueezesHashes, signature_loop-AreSegments, digests_loop-suc}
use iota_go.Signing.Normalize.{AllInTryte-take, AllInTryte-drop}
use iota_go.Merkle.Sign.{sign_loop}

module _ (sponge : Sponge) (shake : Trits → ℕ → Result Trits) (kerl : SqueezesHashes sponge) where
  open sponge use {State, fresh}

  -- A round of the loop that signs.
  record Step (level : ℕ) (values : List ℤ) (key : Trits) (fragments : List Trytes) : Type 0 where
    sig : Trits
    fragment : Trytes
    others : List Trytes
    sig_lem :
        signature_fragment sponge
          (take key_segments_per_fragment values)
          (take key_fragment_length key)
          fresh
        ≡ ok sig
    fragment_lem : must_trits_to_trytes sig ≡ ok fragment
    others_lem :
        sign_loop sponge shake level
          (drop key_segments_per_fragment values)
          (drop key_fragment_length key)
        ≡ ok others
    whole : fragments ≡ fragment ∷ others

  sign_loop-Step :
      (level : ℕ) (values : List ℤ) (key : Trits) (fragments : List Trytes)
      → key_segments_per_fragment ≤ length values
      → key_fragment_length ≤ length key
      → sign_loop sponge shake (suc level) values key ≡ ok fragments
      → Step level values key fragments
  unfolding sign_loop
  sign_loop-Step level values key fragments lv lk e =
      let e' = rw (le→ltb (length values) _ lv, le→ltb (length key) _ lk) at e in
      let (sig, e1, e2) =
        >>=_split
          (signature_fragment sponge (take key_segments_per_fragment values)
            (take key_fragment_length key) fresh)
          _ e' in
      let (fragment, e3, e4) = >>=_split (must_trits_to_trytes sig) _ e2 in
      let (others, e5, e6) =
        >>=_split
          (sign_loop sponge shake level (drop key_segments_per_fragment values)
            (drop key_fragment_length key))
          _ e4 in
      record {
        sig = sig;
        fragment = fragment;
        others = others;
        sig_lem = e1;
        fragment_lem = e3;
        others_lem = e5;
        whole = sym (ok_inj e6);
      }

  -- Fragments are read back as they were written, with nothing to clear.
  signed_trits :
      (sig : Trits) (fragment : Trytes)
      → AreSegments 27 sig
      → must_trits_to_trytes sig ≡ ok fragment
      → (trytes_to_trits fragment ≡ ok sig)
        × (clear_trits 242 sig ≡ sig)
        × (length sig ≡ key_fragment_length)
  signed_trits sig fragment h e =
      let k = AreSegments-IsKey 27 sig h in
      let same = ok_inj (sym (must_trits_to_trytes_lem sig k.valid) ∙ e) in
      (
        rw (← same) (converts_back sig k.valid (omega (arith, k.size)) (omega (arith, k.size))).0,
        k.cleared,
        k.size,
      )

  -- From fragment i on: what is signed with the rest of the key and of the hash.
  pub fragment_digests-sign_loop :
      (level i : ℕ) (normalized rest : List ℤ) (key : Trits) (fragments : List Trytes)
      → AllInTryte normalized
      → length normalized ≡ 81
      → level + i ≤ 3
      → rest ≡ drop (i * 27) normalized
      → AreSegments (level * 27) key
      → sign_loop sponge shake level rest key ≡ ok fragments
      → (fragment_digests sponge normalized i fragments ≡ digests_loop sponge level fresh fresh key)
        × (length fragments ≡ level)
  unfolding sign_loop fragment_digests
  fragment_digests-sign_loop zero i normalized rest key fragments h ln bound er hk e =
      rw (← ok_inj e) (unfold digests_loop in refl, refl)
  fragment_digests-sign_loop (suc level) i normalized rest key fragments h ln bound er hk e =
      let (front, back) =
        AreSegments-split (suc level * 27) 27 (level * 27) key_fragment_length key (omega arith)
          refl hk in
      let lk = (AreSegments-IsKey (suc level * 27) key hk).size in
      let lr : length rest ≡ 81 - i * 27 = rw er (length-drop (i * 27) normalized ∙ omega arith) in
      let step = sign_loop-Step level rest key fragments (omega arith) (omega arith) e in
      let values = take key_segments_per_fragment rest in
      let lv : length values ≡ key_segments_per_fragment =
        length-take key_segments_per_fragment rest ∙ omega arith in
      let hv : AllInTryte values =
        AllInTryte-take key_segments_per_fragment rest
          (rw er (AllInTryte-drop (i * 27) normalized h)) in
      let segments =
        signature_loop-AreSegments sponge kerl 27 values (take key_fragment_length key) step.sig
          front lv (length-take key_fragment_length key ∙ omega arith)
          (unfold signature_fragment in step.sig_lem) in
      let (read, cleared, ls) = signed_trits step.sig step.fragment segments step.fragment_lem in
      let (others, len) =
        fragment_digests-sign_loop level (i + 1) normalized (drop key_segments_per_fragment rest)
          (drop key_fragment_length key) step.others h ln (omega arith)
          (rw er
            (drop-drop key_segments_per_fragment (i * 27) ((i + 1) * 27) normalized (omega arith)))
          back step.others_lem in
      let part : take key_segments_per_fragment
            (drop (i % 3 * key_segments_per_fragment) normalized)
          ≡ values =
        ap (λ j. take key_segments_per_fragment (drop j normalized)) (omega arith)
        ∙ ap (take key_segments_per_fragment) (sym er) in
      (
        rw (step.whole, read, cleared, part, others)
            (sym (
              digests_loop-suc sponge level values key step.sig hv lv (omega arith) ls
                step.sig_lem)),
        rw step.whole (ap suc len),
      )
