-- ===== src/Kerl/Absorbs.antt =====
-- Kerl absorbs trytes as their trits.
use iota_go.Common.{
  ℕ, zero, suc, ◌*◌, ◌/◌, ◌%◌, ◌≤◌, ◌≡◌, refl, ap, sym, ◌∙◌, inl, inr, ◌⊎◌, Bool, true, false, ◌&&◌,
  not, [], ◌∷◌, some, ◌==◌, length, take, drop, length-take, length-drop, get_elem?, arith, ints,
  parts_of_eq, ℤ, pos, negsuc, pos_part, neg_part, ltb_ℤ, Option-cases,
}
use iota_go.Consts.{ok, panic, >>=_split, guard_split, ok_inj}
use iota_go.Trinary.Tryte.{is_valid_tryte}
use iota_go.Trinary.Tryte.Values.{InTryte, valid_char, char_value}
use iota_go.Trinary.Tryte.Groups.{trit_of, split_trits, split_value, group_value, trit_bounds}
use iota_go.Trinary.Convert.{Trytes}
use iota_go.Trinary.Convert.RoundTrip.{AreTrytes, trits_of, length-trits_of}
use iota_go.Kerl.Hash.{
  Keccak, Kerl, or_nil, write, tryte_has_zero_last_trit, absorb_loop, absorb_trytes_loop, absorb,
  absorb_trytes,
}
use iota_go.Kerl.Convert.{group_values, tryte_values, kerl_trits_to_bytes, kerl_trytes_to_bytes}

group_values-trits_of :
    (ts : Trytes) (n : ℕ)
    → AreTrytes ts
    → length ts ≡ n
    → group_values n (trits_of ts) ≡ tryte_values ts
unfolding group_values tryte_values trits_of
group_values-trits_of [] zero h e = refl
group_values-trits_of [] (suc n) h e = absurd (omega (arith, e))
group_values-trits_of (t ∷ ts) zero h e = absurd (omega (arith, e))
group_values-trits_of (t ∷ ts) (suc n) (ht, hs) e =
    let (value, i, back) = valid_char t ht in
    let v = char_value t in
    rw
      (
        value,
        group_value _ _ _ (split_trits v i) (trits_of ts),
        split_value v i,
        group_values-trits_of ts n hs (omega (arith, e)),
      )
      refl

-- The bytes of 81 trytes are those of their trits.
pub kerl_trytes_to_bytes-trits_of :
    (ts : Trytes)
    → AreTrytes ts
    → length ts ≡ 81
    → kerl_trits_to_bytes (trits_of ts) ≡ kerl_trytes_to_bytes ts
unfolding kerl_trits_to_bytes kerl_trytes_to_bytes
kerl_trytes_to_bytes-trits_of ts h size =
    let len : length (trits_of ts) ≡ 243 = omega (arith, length-trits_of ts, size) in
    rw (len, size, group_values-trits_of ts 81 h size) refl

three : (i : ℕ) → 3 * suc i ≡ suc (suc (suc (3 * i)))
three i = omega arith

take-trits_of : (n : ℕ) (ts : Trytes) → take (3 * n) (trits_of ts) ≡ trits_of (take n ts)
unfolding trits_of
take-trits_of zero ts = refl
take-trits_of (suc n) [] = rw (three n) refl
take-trits_of (suc n) (t ∷ ts) = rw (three n, take-trits_of n ts) refl

drop-trits_of : (n : ℕ) (ts : Trytes) → drop (3 * n) (trits_of ts) ≡ trits_of (drop n ts)
unfolding trits_of
drop-trits_of zero ts = refl
drop-trits_of (suc n) [] = rw (three n) refl
drop-trits_of (suc n) (t ∷ ts) = rw (three n) (drop-trits_of n ts)

AreTrytes-take : (n : ℕ) (ts : Trytes) → AreTrytes ts → AreTrytes (take n ts)
AreTrytes-take zero ts h = tt
AreTrytes-take (suc n) [] h = tt
AreTrytes-take (suc n) (t ∷ ts) (ht, hs) = (ht, AreTrytes-take n ts hs)

AreTrytes-drop : (n : ℕ) (ts : Trytes) → AreTrytes ts → AreTrytes (drop n ts)
AreTrytes-drop zero ts h = h
AreTrytes-drop (suc n) [] h = tt
AreTrytes-drop (suc n) (t ∷ ts) (ht, hs) = AreTrytes-drop n ts hs

-- The last trit of the i-th tryte.
last_trit :
    (ts : Trytes) (i : ℕ) (t : ℕ)
    → AreTrytes ts
    → get_elem? ts i ≡ some t
    → (is_valid_tryte t ≡ true)
      × (get_elem? (trits_of ts) (suc (suc (3 * i))) ≡ some (trit_of 2 (char_value t)))
unfolding trits_of
last_trit [] i t h at = absurd (cc)
last_trit (c ∷ ts) zero t (hc, hs) at =
    let same : c ≡ t = cc in
    (ap is_valid_tryte (sym same) ∙ hc, ap (λ x. some (trit_of 2 (char_value x))) same)
last_trit (c ∷ ts) (suc i) t (hc, hs) at =
    let (valid, found) = last_trit ts i t hs at in (valid, rw (three i) found)

zero_trit_of :
    (v : ℤ) → InTryte v → ltb_ℤ v (negsuc 3) ≡ false → ltb_ℤ (pos 4) v ≡ false → trit_of 2 v ≡ pos 0
zero_trit_of v i low high =
    let s = split_trits v i in
    let a = trit_bounds (trit_of 0 v) (s.first) in
    let b = trit_bounds (trit_of 1 v) (s.second) in
    let c = trit_bounds (trit_of 2 v) (s.third) in
    let small : (pos_part v ≤ 4) × (neg_part v ≤ 4) =
      (ground (arith, low, high), ground (arith, low, high)) in
    omega (ints, parts_of_eq (split_value v i), a, b, c, small)

panic_not_ok : {A : Type 0} {a : A} → panic ≡ ok a → ⊥
panic_not_ok e = absurd (cc)

not-false : {b : Bool} → not b ≡ false → b ≡ true
not-false {b = true} h = refl
not-false {b = false} h = sym h

module _ (keccak : Keccak) where
  block_zero :
      (ts : Trytes) (t : ℕ)
      → AreTrytes ts
      → get_elem? ts 80 ≡ some t
      → tryte_has_zero_last_trit t ≡ ok true
      → get_elem? (trits_of ts) 242 ≡ some (pos 0)
  unfolding tryte_has_zero_last_trit
  block_zero ts t h at zeroed =
      let (valid, found) = last_trit ts 80 t h at in
      let (value, i, back) = valid_char t valid in
      let checked : (not (ltb_ℤ (char_value t) (negsuc 3)) && not (ltb_ℤ (pos 4) (char_value t)))
          ≡ true =
        ok_inj (rw value at zeroed) in
      found
      ∙ ap some (zero_trit_of (char_value t) i (ground (arith, checked)) (ground (arith, checked)))

  first_block :
      (n : ℕ) (k k' : Kerl keccak) (ts : Trytes)
      → AreTrytes ts
      → length ts ≡ 81 * suc n
      → absorb_trytes_loop keccak (suc n) k ts ≡ ok k'
      → get_elem? (trits_of ts) 242 ≡ some (pos 0)
  unfolding absorb_trytes_loop
  first_block n k k' ts h size done = elim (Option-cases (get_elem? ts 80)) [
    | inl e ↦ absurd (panic_not_ok (rw (absorb_trytes_loop, e) at done))
    | inr (t, e) ↦
        let (zeroed, tested, h1) =
          >>=_split (tryte_has_zero_last_trit t) _ (rw (absorb_trytes_loop, e) at done) in
        let (passed, h2) = guard_split (not zeroed) _ h1 in
        block_zero ts t h e (tested ∙ ap ok (not-false passed))
  ]

  absorb_loop-trits_of :
      (n : ℕ) (k k' : Kerl keccak) (ts : Trytes)
      → AreTrytes ts
      → length ts ≡ 81 * n
      → absorb_trytes_loop keccak n k ts ≡ ok k'
      → absorb_loop keccak n k (trits_of ts) ≡ ok k'
  unfolding absorb_trytes_loop absorb_loop
  absorb_loop-trits_of zero k k' ts h size done = done
  absorb_loop-trits_of (suc n) k k' ts h size done = elim (Option-cases (get_elem? ts 80)) [
    | inl e ↦ absurd (panic_not_ok (rw (absorb_trytes_loop, e) at done))
    | inr (t, e) ↦
        let (zeroed, tested, h1) =
          >>=_split (tryte_has_zero_last_trit t) _ (rw (absorb_trytes_loop, e) at done) in
        let (passed, h2) = guard_split (not zeroed) _ h1 in
        let (bytes, converted, h3) = >>=_split (or_nil (kerl_trytes_to_bytes (take 81 ts))) _ h2 in
        let (k1, wrote, h4) = >>=_split (write keccak k bytes) _ h3 in
        let zero = block_zero ts t h e (tested ∙ ap ok (not-false passed)) in
        let block : kerl_trits_to_bytes (take 243 (trits_of ts))
            ≡ kerl_trytes_to_bytes (take 81 ts) =
          ap kerl_trits_to_bytes (take-trits_of 81 ts)
          ∙ kerl_trytes_to_bytes-trits_of (take 81 ts) (AreTrytes-take 81 ts h)
              (omega (arith, length-take 81 ts, size)) in
        let rest =
          absorb_loop-trits_of n k1 k' (drop 81 ts) (AreTrytes-drop 81 ts h)
            (omega (arith, length-drop 81 ts, size)) h4 in
        rw (absorb_loop, zero, block, converted, wrote, drop-trits_of 81 ts) rest
  ]

  -- Valid trytes that Kerl absorbs without an error, in whatever state it is, are absorbed as their trits are,
  -- and the trits leave the same state. If there are any, the 243rd trit is zero.
  pub absorb-absorb_trytes :
      (k k' : Kerl keccak) (ts : Trytes)
      → AreTrytes ts
      → absorb_trytes keccak k ts ≡ ok k'
      → (absorb keccak k (trits_of ts) ≡ ok k')
        × ((length ts ≡ 0) ⊎ (get_elem? (trits_of ts) 242 ≡ some (pos 0)))
  unfolding absorb absorb_trytes
  absorb-absorb_trytes k k' ts h done =
      let (passed, looped) = guard_split (not (length ts % 81 == 0)) _ done in
      let whole : length ts % 81 ≡ 0 = ground (arith, passed) in
      let n = length ts / 81 in
      let size : length ts ≡ 81 * (length ts / 81) = omega (arith, whole) in
      let full : length (trits_of ts) % 243 ≡ 0 = omega (arith, length-trits_of ts, size) in
      let count : length (trits_of ts) / 243 ≡ length ts / 81 =
        omega (arith, length-trits_of ts, size) in
      (
        rw (full, count) (absorb_loop-trits_of (length ts / 81) k k' ts h size looped),
        first_zero (length ts / 81) size looped,
      )
    where
      first_zero :
          (n : ℕ)
          → length ts ≡ 81 * n
          → absorb_trytes_loop keccak n k ts ≡ ok k'
          → (length ts ≡ 0) ⊎ (get_elem? (trits_of ts) 242 ≡ some (pos 0))
      first_zero zero size looped = inl (omega (arith, size))
      first_zero (suc n) size looped = inr (first_block n k k' ts h size looped)
