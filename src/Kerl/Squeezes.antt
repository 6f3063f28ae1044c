-- ===== src/Kerl/Squeezes.antt =====
-- What Kerl squeezes: hashes of 243 trits.
use iota_go.Common.{
  ℕ, zero, suc, ◌+◌, ◌*◌, ◌/◌, ◌%◌, ◌≡◌, refl, ap, sym, ◌∙◌, not, List, ◌==◌, length, length-append,
  arith,
}
use iota_go.Consts.{Result, ok, err, panic, ◌>>=◌, >>=_split, guard_split, ok_inj}
use iota_go.Trinary.Trits.{Trits}
use iota_go.Sponge.{Sponge}
use iota_go.Kerl.Convert.{bytes_to_tryte_values, trits_of_values, kerl_bytes_to_trits}
use iota_go.Kerl.Lengths.{length-bytes_to_tryte_values, length-trits_of_values}
use iota_go.Kerl.Errors.{
  NeverErr, >>=-NeverErr, bytes_to_tryte_values-NeverErr, trits_of_values-NeverErr,
}
use iota_go.Kerl.Hash.{
  Keccak, Kerl, new_kerl, squeeze_sum, nil_trits, squeeze_loop, squeeze, squeeze_trytes, absorb,
  absorb_trytes,
}

module _ (keccak : Keccak) where
  nil_trits-ok :
      (r : Result Trits) (ts : Trits) → NeverErr r → nil_trits keccak r ≡ ok ts → r ≡ ok ts
  unfolding NeverErr nil_trits
  nil_trits-ok (ok a) ts h e = e
  nil_trits-ok (err x) ts h e = absurd h
  nil_trits-ok panic ts h e = cc

  -- The trits of 48 bytes: 243, where the error is left out as `Squeeze` does.
  length-nil_trits :
      (bytes : List ℕ) (trits : Trits)
      → length bytes ≡ 48
      → nil_trits keccak (kerl_bytes_to_trits bytes) ≡ ok trits
      → length trits ≡ 243
  unfolding kerl_bytes_to_trits
  length-nil_trits bytes trits size done =
      let values = bytes_to_tryte_values bytes in
      let never =
        >>=-NeverErr values trits_of_values (bytes_to_tryte_values-NeverErr bytes)
          trits_of_values-NeverErr in
      let converted : kerl_bytes_to_trits bytes ≡ (values >>= trits_of_values) =
        rw (kerl_bytes_to_trits, size) refl in
      let read =
        nil_trits-ok (values >>= trits_of_values) trits never
          (ap (nil_trits keccak) (sym converted) ∙ done) in
      let (vs, h1, h2) = >>=_split values trits_of_values read in
      omega (arith, length-bytes_to_tryte_values bytes vs h1, length-trits_of_values vs trits h2)

  length-squeeze_loop :
      (n : ℕ) (k : Kerl keccak) (out : Trits) (k' : Kerl keccak)
      → squeeze_loop keccak n k ≡ ok (out, k')
      → length out ≡ 243 * n
  unfolding squeeze_loop squeeze_sum
  length-squeeze_loop zero k out k' done = ap (λ p. length p.0) (sym (ok_inj done))
  length-squeeze_loop (suc n) k out k' done =
      let k1 = squeeze_sum keccak k in
      let (block, h1, h2) = >>=_split (nil_trits keccak (kerl_bytes_to_trits (k1.buf))) _ done in
      let (rest, h3, h4) = >>=_split (squeeze_loop keccak n k1) _ h2 in
      let joined : length out ≡ length block + length (rest.0) =
        ap (λ p. length p.0) (sym (ok_inj h4)) ∙ length-append block (rest.0) in
      let front = length-nil_trits (k1.buf) block (keccak.length-sum _) h1 in
      omega (arith, joined, front, length-squeeze_loop n k1 (rest.0) (rest.1) h3)

  pub length-squeeze :
      (k : Kerl keccak) (n : ℕ) (out : Trits) (k' : Kerl keccak)
      → squeeze keccak k n ≡ ok (out, k')
      → length out ≡ n
  unfolding squeeze
  length-squeeze k n out k' done =
      let (passed, looped) = guard_split (not (n % 243 == 0)) _ done in
      let whole : n % 243 ≡ 0 = ground (arith, passed) in
      omega (arith, whole, length-squeeze_loop (n / 243) k out k' looped)

  -- Kerl as a sponge function.
  abbrev pub kerl : Sponge
  kerl = record {
    State = Kerl keccak;
    fresh = new_kerl keccak;
    absorb = absorb keccak;
    squeeze = squeeze keccak;
    absorb_trytes = absorb_trytes keccak;
    squeeze_trytes = squeeze_trytes keccak;
    length-squeeze = length-squeeze;
  }
