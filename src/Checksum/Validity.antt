-- ===== src/Checksum/Validity.antt =====
-- Addresses with a checksum are valid exactly if their checksum is the one that is added.
use iota_go.Common.{
  ℕ, zero, suc, ◌≤◌, ◌≡◌, refl, ap, sym, ◌∙◌, Bool, true, false, ◌||◌, [], ◌∷◌, ◌++◌, ltb,
  if◌then◌else◌, length, take, drop, arith, eq→==, le→ltb, length-append, length-take, length-drop,
  take_front, drop_front, take-append-drop, Bool-cases, inl, inr,
}
use iota_go.Consts.{ok, panic, ◌>>=◌, >>=_split, ok_inj, Result-cases}
use iota_go.Trinary.Convert.{Trytes, trytes_eq, trytes_eq_refl, trytes_eq→eq, valid_trytes}
use iota_go.Sponge.{Sponge}
use iota_go.Checksum.{pad_loop, checksum_of, add_checksum, checksum, valid_checksum, valid_address}

take_all : (n : ℕ) (xs : Trytes) → length xs ≡ n → take n xs ≡ xs
take_all zero [] h = refl
take_all zero (x ∷ xs) h = absurd (omega arith)
take_all (suc n) [] h = refl
take_all (suc n) (x ∷ xs) h = ap (λ r. x ∷ r) (take_all n xs (omega arith))

-- A result that is not a panic passed the test.
passes_guard :
    (short : Bool) (x y : Trytes)
    → (if short then panic else ok x) ≡ ok y
    → (short ≡ false) × (x ≡ y)
passes_guard true x y e = absurd (cc)
passes_guard false x y e = (refl, ok_inj e)

module _ (sponge : Sponge) where
  open sponge use {fresh, absorb_trytes, squeeze_trytes}

  -- On an address of 81 trytes.
  add_checksum-address :
      (address : Trytes)
      → length address ≡ 81
      → add_checksum sponge address true 9
        ≡ (checksum_of sponge address 9 >>= λ sum. ok (address ++ sum))
  unfolding add_checksum
  add_checksum-address address l = rw (eq→== (length address) 81 l) refl

  length-checksum_of : (input sum : Trytes) → checksum_of sponge input 9 ≡ ok sum → length sum ≡ 9
  unfolding checksum_of
  length-checksum_of input sum e =
      let (s, e1, e2) = >>=_split (absorb_trytes fresh (pad_loop 80 input)) _ e in
      let (out, e3, e4) = >>=_split (squeeze_trytes s 243) _ e2 in
      let (long, same) = passes_guard (ltb 81 9 || ltb (length out.0) 81) _ sum e4 in
      let room : 81 ≤ length out.0 = ground arith in
      ap length (sym same) ∙ length-take 9 (drop 72 out.0) ∙ omega (arith, length-drop 72 out.0)

  checksum-checksum_of :
      (address : Trytes)
      → length address ≡ 81
      → checksum sponge address ≡ checksum_of sponge address 9
  unfolding checksum
  checksum-checksum_of address l =
      rw
        (
          le→ltb (length address) 81 (omega arith),
          take_all 81 address l,
          add_checksum-address address l,
        )
        (elim (Result-cases (checksum_of sponge address 9)) [
          | inl (sum, e) ↦
              let size : length (address ++ sum) ≡ 90 =
                length-append address sum ∙ omega (arith, l, length-checksum_of address sum e) in
              rw
                (
                  e,
                  le→ltb (length (address ++ sum)) 90 (omega (arith, size)),
                  drop_front address sum 81 l,
                  take_all 9 sum (length-checksum_of address sum e),
                )
                refl
          | inr (inl (x, e)) ↦ rw e refl
          | inr (inr e) ↦ rw e refl
        ])

  -- An address of 81 trytes with the checksum that is added to it has 90 trytes, begins with the address,
  -- and is valid if its characters are trytes: nothing else is left to check.
  pub valid_address-add_checksum :
      (address whole : Trytes)
      → length address ≡ 81
      → add_checksum sponge address true 9 ≡ ok whole
      → (length whole ≡ 90)
        × (take 81 whole ≡ address)
        × (valid_address sponge whole ≡ valid_trytes whole)
  unfolding valid_address valid_checksum
  valid_address-add_checksum address whole l e =
      let (sum, e1, e2) =
        >>=_split (checksum_of sponge address 9) _ (sym (add_checksum-address address l) ∙ e) in
      let joined : address ++ sum ≡ whole = ok_inj e2 in
      let ninety : length (address ++ sum) ≡ 90 =
        length-append address sum ∙ omega (arith, l, length-checksum_of address sum e1) in
      rw (← joined) (
        ninety,
        take_front address sum 81 l,
        rw
            (
              eq→== (length (address ++ sum)) 90 ninety,
              take_front address sum 81 l,
              drop_front address sum 81 l,
              checksum-checksum_of address l,
              e1,
              trytes_eq_refl sum,
            )
            refl,
      )

  -- A valid address of 90 trytes is its first 81 trytes with the checksum that is added to them: no
  -- other checksum is accepted.
  pub add_checksum-valid_address :
      (whole : Trytes)
      → length whole ≡ 90
      → valid_address sponge whole ≡ ok tt
      → add_checksum sponge (take 81 whole) true 9 ≡ ok whole
  unfolding valid_address valid_checksum
  add_checksum-valid_address whole l e =
      let size : length (take 81 whole) ≡ 81 = length-take 81 whole ∙ omega arith in
      let checks = rw (eq→== (length whole) 90 l, checksum-checksum_of (take 81 whole) size) at e in
      let (u, first, last) = >>=_split _ _ checks in
      let (sum, e1, e2) = >>=_split (checksum_of sponge (take 81 whole) 9) _ first in
      elim (Bool-cases (trytes_eq (drop 81 whole) sum)) [
        | inl same ↦
            let s = trytes_eq→eq (drop 81 whole) sum same in
            add_checksum-address (take 81 whole) size
            ∙ rw (e1, ← s) (ap ok (take-append-drop 81 whole))
        | inr other ↦ absurd (cc (rw other at e2))
      ]
