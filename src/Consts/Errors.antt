-- ===== src/Consts/Errors.antt =====
-- consts/errors.go, and the results of a Go function. A wrapped error is its cause: the text that
-- `errors.Wrap` adds is not modelled. `panic` is a call that does not return.
use iota_go.Common.{Bool, true, false, if◌then◌else◌, ◌≡◌, refl, ◌⊎◌, inl, inr}

pub data Error : Type 0 where
  invalid_squeeze_length invalid_trits_length invalid_trytes_length invalid_bytes_length : Error
  invalid_address invalid_bundle invalid_bundle_total_value invalid_bundle_address_value : Error
  invalid_bundle_hash invalid_signature invalid_checksum invalid_hash invalid_value : Error
  invalid_index invalid_security_level invalid_seed invalid_start_end_options : Error
  invalid_tag invalid_transaction invalid_transaction_trytes invalid_attached_trytes : Error
  invalid_transaction_hash invalid_transfer invalid_trytes invalid_byte invalid_trit : Error
  invalid_uri invalid_ascii_input invalid_odd_length : Error
  -- those of account/store
  account_not_found pending_transfer_not_found deposit_address_not_found : Error
  -- that of kerl/bigint
  invalid_buffer_size : Error
  -- that of kerl
  absorb_after_squeeze : Error
  -- those of merkle
  depth_too_small depth_too_large invalid_audit_path_length invalid_leaf_index : Error
  -- those of encoding/b1t6
  invalid_length invalid_trits : Error

pub data Result {ℓ} (A : Type ℓ) : Type ℓ where
  ok : A → Result A
  err : Error → Result A
  panic : Result A

infixl 5 ◌>>=◌ ◌>>◌
-- What follows an error or a panic is not run.
abbrev pub ◌>>=◌ {ℓ κ} : {A : Type ℓ} {B : Type κ} → Result A → (A → Result B) → Result B
panic >>= next = panic
err e >>= next = err e
ok a >>= next = next a

module _ {ℓ κ} {A : Type ℓ} {B : Type κ} where
  -- A sequence that succeeds: what its first part gave, and what followed.
  pub >>=_split :
      (first : Result A) (next : A → Result B) {b : B}
      → (first >>= next) ≡ ok b
      → (a : A) × (first ≡ ok a) × (next a ≡ ok b)
  >>=_split panic next done = cc
  >>=_split (err e) next done = cc
  >>=_split (ok a) next done = (a, refl, done)

  pub >>=_congr_ok :
      (first : Result A) {f g : A → Result B}
      → ((a : A) → first ≡ ok a → f a ≡ g a)
      → (first >>= f) ≡ (first >>= g)
  >>=_congr_ok panic same = refl
  >>=_congr_ok (err e) same = refl
  >>=_congr_ok (ok a) same = same a refl

  pub >>=_congr :
      (first : Result A) {f g : A → Result B}
      → ((a : A) → f a ≡ g a)
      → (first >>= f) ≡ (first >>= g)
  >>=_congr first same = >>=_congr_ok first (λ a e. same a)

abbrev pub ◌>>◌ {κ} : {B : Type κ} → Result (Unit {0}) → Result B → Result B
first >> last = first >>= λ u. last

-- A guard that is passed.
pub guard_split {ℓ} :
    {A : Type ℓ} (bad : Bool) (e : Error) {rest : Result A} {a : A}
    → (if bad then err e else rest) ≡ ok a
    → (bad ≡ false) × (rest ≡ ok a)
guard_split true e done = cc
guard_split false e done = (refl, done)

pub >>=_ok {ℓ} : {A : Type ℓ} (r : Result A) → (r >>= ok) ≡ r
>>=_ok panic = refl
>>=_ok (err e) = refl
>>=_ok (ok a) = refl

pub >>=_assoc {ℓ κ μ} :
    {A : Type ℓ} {B : Type κ} {C : Type μ} (first : Result A) (next : A → Result B)
    (last : B → Result C)
    → ((first >>= next) >>= last) ≡ (first >>= λ a. next a >>= last)
>>=_assoc panic next last = refl
>>=_assoc (err e) next last = refl
>>=_assoc (ok a) next last = refl

pub ok_inj {ℓ} : {A : Type ℓ} {x y : A} → ok x ≡ ok y → x ≡ y
ok_inj same = cc

pub Result-cases {ℓ} :
    {A : Type ℓ} (r : Result A)
    → ((a : A) × (r ≡ ok a)) ⊎ (((e : Error) × (r ≡ err e)) ⊎ (r ≡ panic))
Result-cases panic = inr (inr refl)
Result-cases (err e) = inr (inl (e, refl))
Result-cases (ok a) = inl (a, refl)
