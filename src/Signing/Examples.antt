-- ===== src/Signing/Examples.antt =====
-- The theorems on signatures at concrete inputs, over a sponge that gives back what it absorbed.
use iota_go.Common.{
  ℕ, zero, suc, int8, ◌≡◌, refl, ap, sym, ◌∙◌, List, [], ◌∷◌, ◌++◌, length, replicate, take,
  length-take, arith, ℤ, pos, ◌-ℤ◌, length-append, length-replicate,
}
use iota_go.Consts.{ok, ok_inj, ◌>>=◌}
use iota_go.Trinary.Trits.{Trits}
use iota_go.Trinary.Tryte.{is_valid_tryte}
use iota_go.Trinary.Convert.{must_trits_to_trytes, must_trytes_to_trits}
use iota_go.Trinary.Convert.RoundTrip.{AreTrytes}
use iota_go.Trinary.Number.Digits.{AllInTryte}
use iota_go.Sponge.{Sponge}
use iota_go.Signing.{
  normalized_bundle_hash, signature_fragment, signature_loop, hash_chain, digest, digests,
}
use iota_go.Signing.Normalize.{AreNormal, normalized_bundle_hash-AreNormal}
use iota_go.Signing.Verify.{digest-signature_fragment}

abbrev fit : ℕ → Trits → Trits
fit n ts = take n (ts ++ replicate n (pos 0))

length-fit : (n : ℕ) (ts : Trits) → length (fit n ts) ≡ n
length-fit n ts = omega (
  arith,
  length-take n (ts ++ replicate n (pos 0)),
  length-append ts (replicate n (pos 0)),
  length-replicate n (pos 0),
)

abbrev echo : Sponge
echo = record {
  State = Trits;
  fresh = [];
  absorb = λ s ts. ok ts;
  squeeze = λ s n. ok (fit n s, s);
  absorb_trytes = λ s ts. must_trytes_to_trits ts;
  squeeze_trytes = λ s n. must_trits_to_trytes (fit n s) >>= λ ts. ok (ts, s);
  length-squeeze = λ s n out s' e. ap (λ p. length p.0) (sym (ok_inj e)) ∙ length-fit n s;
}

replicate-AreTrytes : (n : ℕ) → AreTrytes (replicate n b'A')
unfolding is_valid_tryte
replicate-AreTrytes zero = tt
replicate-AreTrytes (suc n) = (refl, replicate-AreTrytes n)

normalized_bundle_hash-AreNormal_example :
    (values : List ℤ) × (normalized_bundle_hash (replicate 81 b'A') ≡ ok values)
    × AreNormal 3 values
    × (length values ≡ 81)
normalized_bundle_hash-AreNormal_example =
    normalized_bundle_hash-AreNormal (replicate 81 b'A') (replicate-AreTrytes 81) refl

-- Two rounds for the first segment, and none for the others.
abbrev values : List ℤ
values = pos 11 ∷ replicate 26 (pos 13)

values-AllInTryte : (n : ℕ) → AllInTryte (replicate n (pos 13))
values-AllInTryte zero = tt
values-AllInTryte (suc n) = ((omega arith, omega arith), values-AllInTryte n)

abbrev key : Trits
key = replicate 6561 (pos 1)

sign_run : signature_fragment echo values key [] ≡ ok key
unfolding signature_fragment signature_loop hash_chain ◌-ℤ◌ int8
sign_run = refl

digest-signature_fragment_example :
    (digest echo values key [] ≡ digests echo [] key) × (length key ≡ length key)
digest-signature_fragment_example =
    digest-signature_fragment echo values key key ((omega arith, omega arith), values-AllInTryte 26)
      refl refl sign_run
