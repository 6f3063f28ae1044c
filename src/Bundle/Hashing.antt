-- ===== src/Bundle/Hashing.antt =====
-- The hash of bundles is made with Kerl: what bundle/bundle.go relies on of its sponge, of Kerl.
use iota_go.Common.{arith, inl, inr}
use iota_go.Kerl.Hash.{Keccak}
use iota_go.Kerl.Absorbs.{absorb-absorb_trytes}
use iota_go.Kerl.Squeezes.{kerl}
use iota_go.Bundle.Agreement.{AbsorbsTrytes}

-- Over any Keccak, Kerl absorbs valid trytes as their trits, and of a hash or more of them only
-- those whose 243rd trit is zero.
kerl-AbsorbsTrytes : (keccak : Keccak) → AbsorbsTrytes (kerl keccak)
kerl-AbsorbsTrytes keccak = record {
  same_trits = λ s s' ts valid done. (absorb-absorb_trytes keccak s s' ts valid done).0;
  zero_trit = λ s s' ts valid long done. elim ((absorb-absorb_trytes keccak s s' ts valid done).1) [
    | inl empty ↦ absurd (omega (arith, long, empty))
    | inr zeroed ↦ zeroed
  ];
}
