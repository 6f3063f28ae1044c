-- ===== src/Sponge.antt =====
-- signing/utils/sponge.go: the interface of the sponge functions. Kerl and Curl implement it, and
-- the code that signs and builds trees works over any of them.
use iota_go.Common.{ℕ, ◌≡◌, length}
use iota_go.Consts.{Result, ok, err, panic}
use iota_go.Trinary.Trits.{Trits}
use iota_go.Trinary.Convert.{Trytes}

-- `Reset` goes to the state `fresh`, and `Clone` copies the state: here that is the state itself.
-- `Squeeze` returns as many trits as it is asked for, or an error. The `Must` methods are, as
-- they are documented, those without `Must` with a panic for an error.
pub record Sponge : Type 1 where
  pub State : Type 0
  pub fresh : State
  pub absorb : State → Trits → Result State
  pub squeeze : State → ℕ → Result (Trits × State)
  pub absorb_trytes : State → Trytes → Result State
  pub squeeze_trytes : State → ℕ → Result (Trytes × State)
  pub length-squeeze :
      (s : State) (n : ℕ) (out : Trits) (s' : State) → squeeze s n ≡ ok (out, s') → length out ≡ n

-- What a `Must` method makes of an error.
unfoldable pub must {ℓ} : {A : Type ℓ} → Result A → Result A
must (ok a) = ok a
must (err e) = panic
must panic = panic
