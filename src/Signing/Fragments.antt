-- ===== src/Signing/Fragments.antt =====
-- The digests of signed fragments are the digests of the key, for a key of any number of fragments.
use iota_go.Common.{
  ℕ, zero, suc, ◌*◌, ◌≤◌, ◌≡◌, refl, ap, sym, ◌∙◌, List, [], ◌∷◌, ◌++◌, length, take, drop, arith,
  ℤ, take-take, drop-take, length-take, length-drop,
}
use iota_go.Consts.{
  ok, ◌>>=◌, >>=_split, >>=_congr, >>=_congr_ok, >>=_assoc, ok_inj, hash_trinary_size,
  key_fragment_length, key_segment_hash_rounds, key_segments_per_fragment,
}
use iota_go.Trinary.Trits.{Trits}
use iota_go.Trinary.Number.Digits.{AllInTryte}
use iota_go.Sponge.{Sponge}
use iota_go.Signing.{
  hash_chain, digest_segments, digests_loop, digest, signature_loop, signature_fragment,
}
use iota_go.Signing.Chain.{hash_chain-fresh}
use iota_go.Signing.Verify.{signature_loop-suc, digest_loop-signature_loop}
use iota_go.Signing.Segments.{IsHash, AreSegments, AreSegments-append}

module _ (sponge : Sponge) where
  open sponge use {State, fresh, absorb, squeeze}

  -- Hashes are squeezed as Kerl squeezes them.
  abbrev pub SqueezesHashes : Type 0
  SqueezesHashes =
      (s : State) (out : Trits) (s' : State)
      → squeeze s hash_trinary_size ≡ ok (out, s')
      → IsHash out

  hash_chain-IsHash :
      SqueezesHashes
      → (rounds : ℕ) (s : State) (tmp : Trits) (r : Trits × State) → IsHash tmp
      → hash_chain sponge rounds s tmp ≡ ok r
      → IsHash r.0
  unfolding hash_chain
  hash_chain-IsHash kerl zero s tmp r h e = rw (← ok_inj e) h
  hash_chain-IsHash kerl (suc rounds) s tmp r h e =
      let (s1, e1, e') = >>=_split (absorb s tmp) _ e in
      let (out, e2, e3) = >>=_split (squeeze s1 hash_trinary_size) _ e' in
      hash_chain-IsHash kerl rounds fresh out.0 r (kerl s1 out.0 out.1 e2) e3

  -- A signature is made of hashes, as the key is.
  pub signature_loop-AreSegments :
      SqueezesHashes
      → (n : ℕ) (values : List ℤ) (key sig : Trits) → AreSegments n key
      → length values ≡ n
      → length key ≡ n * hash_trinary_size
      → signature_loop sponge n values fresh key ≡ ok sig
      → AreSegments n sig
  signature_loop-AreSegments kerl zero values key sig h lv lk e =
      unfold signature_loop in sym (ok_inj e) ∙ h
  signature_loop-AreSegments kerl (suc n) [] key sig h lv lk e = absurd (omega arith)
  signature_loop-AreSegments kerl (suc n) (v ∷ vs) key sig (h, hs) lv lk e =
      let r = signature_loop-suc sponge n v vs key sig lk e in
      let rest =
        signature_loop-AreSegments kerl n vs (drop hash_trinary_size key) r.rest hs (omega arith)
          (length-drop hash_trinary_size key ∙ omega arith) r.rest_lem in
      rw r.sig_lem (
        AreSegments-append n r.hash r.rest
          (hash_chain-IsHash kerl _ fresh (take hash_trinary_size key) _ h r.hash_lem) rest)

  -- The segments are read from the front of the key.
  digest_segments-take :
      (n m : ℕ) (chain d : State) (key : Trits)
      → m ≡ n * hash_trinary_size
      → digest_segments sponge n chain d (take m key) ≡ digest_segments sponge n chain d key
  unfolding digest_segments
  digest_segments-take zero m chain d key e = refl
  digest_segments-take (suc n) m chain d key e =
      let k = n * hash_trinary_size in
      rw
        (
          take-take hash_trinary_size m key (omega arith),
          drop-take hash_trinary_size m k key (omega arith),
        )
        (>>=_congr (hash_chain sponge key_segment_hash_rounds chain (take hash_trinary_size key))
          (λ tmp.
            >>=_congr (absorb d tmp.0)
              (λ d'. digest_segments-take n k tmp.1 d' (drop hash_trinary_size key) refl)))

  digest_segments-fresh :
      (n : ℕ) (d : State) (key : Trits) (r : State × State)
      → n * hash_trinary_size ≤ length key
      → digest_segments sponge n fresh d key ≡ ok r
      → r.0 ≡ fresh
  unfolding digest_segments
  digest_segments-fresh zero d key r h e = ap (λ p. p.0) (sym (ok_inj e))
  digest_segments-fresh (suc n) d key r h e =
      let (tmp, e1, e2) =
        >>=_split (hash_chain sponge key_segment_hash_rounds fresh (take hash_trinary_size key)) _
          e in
      let (d', e3, e4) = >>=_split (absorb d tmp.0) _ e2 in
      let reset =
        (hash_chain-fresh sponge key_segment_hash_rounds (take hash_trinary_size key) tmp
          (length-take hash_trinary_size key ∙ omega arith) e1).0 in
      digest_segments-fresh n d' (drop hash_trinary_size key) r
        (omega (arith, length-drop hash_trinary_size key))
        (ap (λ s. digest_segments sponge n s d' (drop hash_trinary_size key)) (sym reset) ∙ e4)

  -- One more fragment: its digest, and the digests of the others.
  pub digests_loop-suc :
      (n : ℕ) (values : List ℤ) (key sig : Trits)
      → AllInTryte values
      → length values ≡ key_segments_per_fragment
      → key_fragment_length ≤ length key
      → length sig ≡ key_fragment_length
      → signature_fragment sponge values (take key_fragment_length key) fresh ≡ ok sig
      → digests_loop sponge (suc n) fresh fresh key ≡ (
          digest sponge values sig fresh >>= λ d.
          digests_loop sponge n fresh fresh (drop key_fragment_length key) >>= λ rest.
          ok (d ++ rest))
  unfolding digests_loop digest signature_fragment
  digests_loop-suc n values key sig h lv lk ls e =
      let (same, l) =
        digest_loop-signature_loop sponge key_segments_per_fragment values
          (take key_fragment_length key) sig fresh h lv
          (length-take key_fragment_length key ∙ omega arith) e in
      let one =
        same
        ∙ digest_segments-take key_segments_per_fragment key_fragment_length fresh fresh key refl in
      let m = digest_segments sponge key_segments_per_fragment fresh fresh key in
      rw (lv, ls, one)
        (>>=_congr_ok m (λ states eq.
            rw (digest_segments-fresh key_segments_per_fragment fresh key states lk eq)
              (sym (>>=_assoc (squeeze states.1 hash_trinary_size) _ _)))
          ∙ sym (>>=_assoc m _ _))
