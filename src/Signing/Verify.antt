-- ===== src/Signing/Verify.antt =====
-- The digest of a signature of signing/signing.go is the digest of the key that signed.
use mathlib.Core.List.{append-nil}
use iota_go.Common.{
  ◌==◌, ap, ℕ, zero, suc, ◌+◌, ◌*◌, ◌≡◌, refl, sym, ◌∙◌, Bool, true, false, List, [], ◌∷◌, ◌++◌,
  arith, length, take, drop, length-take, length-drop, length-append, take_front, drop_front, ℤ,
  pos, pos_part, int8, ◌+ℤ◌, ◌-ℤ◌, ltb,
}
use iota_go.Consts.{
  ok, ◌>>=◌, ok_inj, >>=_split, >>=_congr, >>=_congr_ok, hash_trinary_size, key_fragment_length,
  key_segment_hash_rounds, key_segments_per_fragment,
}
use iota_go.Trinary.Trits.{Trits}
use iota_go.Trinary.Tryte.Values.{InTryte, passes, all_below, every_tryte}
use iota_go.Trinary.Number.Digits.{AllInTryte}
use iota_go.Sponge.{Sponge}
use iota_go.Signing.{
  hash_chain, digest_segments, digests_loop, digests, signature_loop, signature_fragment,
  digest_loop, digest,
}
use iota_go.Signing.Chain.{hash_chain_add, hash_chain-fresh}

abbrev rounds_test : ℤ → Bool
rounds_test v = pos_part (int8 (pos 13 -ℤ v)) + pos_part (int8 (v +ℤ pos 13)) == 26

rounds_table : passes rounds_test ≡ true
unfolding all_below ◌+ℤ◌ ◌-ℤ◌ int8
rounds_table = refl

rounds_add :
    (v : ℤ)
    → InTryte v
    → key_segment_hash_rounds ≡ pos_part (int8 (pos 13 -ℤ v)) + pos_part (int8 (v +ℤ pos 13))
rounds_add v h = sym (ground (arith, every_tryte rounds_test rounds_table v h))

guard_passes : (n k : ℕ) → n ≡ suc k * hash_trinary_size → ltb n hash_trinary_size ≡ false
guard_passes n k h = ground arith

module _ (sponge : Sponge) where
  open sponge use {State, fresh, absorb, squeeze}

  -- A round of the loop that signs: the hash of the segment, and the rest of the signature.
  pub record Signed (n : ℕ) (v : ℤ) (vs : List ℤ) (key sig : Trits) : Type 0 where
    pub hash : Trits
    pub rest : Trits
    pub hash_lem :
        hash_chain sponge (pos_part (int8 (pos 13 -ℤ v))) fresh (take hash_trinary_size key)
        ≡ ok (hash, fresh)
    pub length_hash : length hash ≡ hash_trinary_size
    pub rest_lem : signature_loop sponge n vs fresh (drop hash_trinary_size key) ≡ ok rest
    pub sig_lem : sig ≡ hash ++ rest

  pub signature_loop-suc :
      (n : ℕ) (v : ℤ) (vs : List ℤ) (key sig : Trits)
      → length key ≡ suc n * hash_trinary_size
      → signature_loop sponge (suc n) (v ∷ vs) fresh key ≡ ok sig
      → Signed n v vs key sig
  unfolding signature_loop
  signature_loop-suc n v vs key sig lk e =
      let e' = rw (guard_passes (length key) n lk) at e in
      let (hash, e1, more) =
        >>=_split
          (hash_chain sponge (pos_part (int8 (pos 13 -ℤ v))) fresh (take hash_trinary_size key)) _
          e' in
      let (rest, e2, e3) =
        >>=_split (signature_loop sponge n vs hash.1 (drop hash_trinary_size key)) _ more in
      let (reset, l) =
        hash_chain-fresh sponge _ _ hash (length-take hash_trinary_size key ∙ omega arith) e1 in
      record {
        hash = hash.0;
        rest = rest;
        hash_lem = e1 ∙ ap (λ s. ok (hash.0, s)) reset;
        length_hash = l;
        rest_lem =
            ap (λ s. signature_loop sponge n vs s (drop hash_trinary_size key)) (sym reset) ∙ e2;
        sig_lem = sym (ok_inj e3);
      }

  -- The rounds of the signature and of its check are the rounds of the key's digest.
  chain_lem :
      (v : ℤ) (tmp hash : Trits)
      → InTryte v
      → hash_chain sponge (pos_part (int8 (pos 13 -ℤ v))) fresh tmp ≡ ok (hash, fresh)
      → hash_chain sponge key_segment_hash_rounds fresh tmp
        ≡ hash_chain sponge (pos_part (int8 (v +ℤ pos 13))) fresh hash
  chain_lem v tmp hash h e =
      hash_chain_add sponge _ _ _ tmp (rounds_add v h)
      ∙ ap (λ m. m >>= λ r. hash_chain sponge (pos_part (int8 (v +ℤ pos 13))) fresh r.0) e

  pub digest_loop-signature_loop :
      (n : ℕ) (values : List ℤ) (key sig : Trits) (d : State)
      → AllInTryte values
      → length values ≡ n
      → length key ≡ n * hash_trinary_size
      → signature_loop sponge n values fresh key ≡ ok sig
      → (digest_loop sponge values fresh d sig ≡ digest_segments sponge n fresh d key)
        × (length sig ≡ length key)
  unfolding signature_loop digest_loop digest_segments
  digest_loop-signature_loop zero [] key sig d h lv lk e = (refl, ap length (sym (ok_inj e)))
  digest_loop-signature_loop zero (v ∷ vs) key sig d h lv lk e = absurd (omega arith)
  digest_loop-signature_loop (suc n) [] key sig d h lv lk e = absurd (omega arith)
  digest_loop-signature_loop (suc n) (v ∷ vs) key sig d (hv, hs) lv lk e =
      let r = signature_loop-suc n v vs key sig lk e in
      let ih = λ (d' : State).
        digest_loop-signature_loop n vs (drop hash_trinary_size key) r.rest d' hs (omega arith)
          (length-drop hash_trinary_size key ∙ omega arith) r.rest_lem in
      (
        rw
            (
              chain_lem v (take hash_trinary_size key) r.hash hv r.hash_lem,
              r.sig_lem,
              take_front r.hash r.rest hash_trinary_size r.length_hash,
              drop_front r.hash r.rest hash_trinary_size r.length_hash,
            )
            (>>=_congr_ok (hash_chain sponge (pos_part (int8 (v +ℤ pos 13))) fresh r.hash)
              (λ tmp eq.
                >>=_congr (absorb d tmp.0)
                  (λ d'. rw (hash_chain-fresh sponge _ r.hash tmp r.length_hash eq).0 (ih d').0))),
        rw r.sig_lem (
            length-append r.hash r.rest
            ∙ omega (arith, (ih d).1, r.length_hash, length-drop hash_trinary_size key)),
      )

  -- Where a key fragment of 6561 trits signs with 27 tryte values, the digest of the signature is the
  -- digest of the key fragment. A signature fragment has the length of its key fragment.
  pub digest-signature_fragment :
      (values : List ℤ) (key sig : Trits)
      → AllInTryte values
      → length values ≡ key_segments_per_fragment
      → length key ≡ key_fragment_length
      → signature_fragment sponge values key fresh ≡ ok sig
      → (digest sponge values sig fresh ≡ digests sponge fresh key) × (length sig ≡ length key)
  unfolding signature_fragment digest digests digests_loop
  digest-signature_fragment values key sig h lv lk e =
      let (r, l) = digest_loop-signature_loop _ values key sig fresh h lv lk e in
      (
        rw (lv, l, lk, r)
            (>>=_congr (digest_segments sponge key_segments_per_fragment fresh fresh key) (λ states.
              >>=_congr (squeeze states.1 hash_trinary_size)
                (λ out. ap ok (sym (append-nil out.0))))),
        l,
      )
