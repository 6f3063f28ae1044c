-- ===== src/Curl/Streams.antt =====
-- Curl in parts: what is absorbed in pieces, the length of what is squeezed, and Curl as a sponge.
use iota_go.Common.{
  ℕ, zero, suc, ◌+◌, ◌*◌, ◌/◌, ◌%◌, ◌≤◌, ◌≡◌, refl, ap, sym, ◌∙◌, inl, inr, true, false, not, [],
  ◌∷◌, ◌++◌, ◌==◌, pos→==, if◌then◌else◌, length, length-append, length-replicate, length-take,
  length-drop, replicate, take, drop, copy, arith, pos, Bool-cases,
}
use iota_go.Consts.{ok, panic, ◌>>=◌, >>=_assoc, >>=_congr, >>=_split, guard_split, ok_inj}
use iota_go.Trinary.Trits.{Trits}
use iota_go.Sponge.{Sponge}
use iota_go.Curl.{
  Curl, new_curl, transform, absorb_loop, absorb, absorb_trytes, squeeze_block, squeeze_loop,
  squeeze, squeeze_trytes,
}

abbrev with_state : Curl → Trits → Curl
with_state c s = record c { state = s }

module _ (rounds : ℕ) where
  pub length-copy : (dst src : Trits) → length (copy dst src) ≡ length dst
  unfolding copy
  length-copy [] src = refl
  length-copy (d ∷ dst) [] = refl
  length-copy (d ∷ dst) (s ∷ src) = ap suc (length-copy dst src)

  pub length-squeeze_loop :
      (n : ℕ) (c : Curl) (out : Trits × Curl)
      → squeeze_loop rounds n c ≡ ok out
      → length (out.0) ≡ 243 * n
  unfolding squeeze_loop squeeze_block
  length-squeeze_loop zero c out h = ap (λ (p : Trits × Curl). length p.0) (sym (ok_inj h))
  length-squeeze_loop (suc n) c out h =
      let (block, one, h1) = >>=_split (squeeze_block rounds c) _ h in
      let (rest, more, h2) = >>=_split (squeeze_loop rounds n (block.1)) _ h1 in
      let (s, e, h3) =
        >>=_split (if c.squeezing then transform rounds (c.state) else ok (c.state)) _ one in
      let len : length (block.0) ≡ 243 =
        ap (λ (p : Trits × Curl). length p.0) (sym (ok_inj h3))
        ∙ length-copy (replicate 243 (pos 0)) (take 243 s)
        ∙ length-replicate 243 (pos 0) in
      omega (
        arith,
        ap (λ (p : Trits × Curl). length p.0) (sym (ok_inj h2)),
        length-append (block.0) (rest.0),
        length-squeeze_loop n (block.1) rest more,
        len,
      )

  copy-front :
      (dst src more : Trits) → length dst ≤ length src → copy dst (src ++ more) ≡ copy dst src
  unfolding copy
  copy-front [] src more h = refl
  copy-front (d ∷ dst) [] more h = absurd (omega (arith, h))
  copy-front (d ∷ dst) (s ∷ src) more h =
      ap (λ ts. s ∷ ts) (copy-front dst src more (omega (arith, h)))

  drop-front : (n : ℕ) (xs ys : Trits) → n ≤ length xs → drop n (xs ++ ys) ≡ drop n xs ++ ys
  drop-front zero xs ys h = refl
  drop-front (suc n) [] ys h = absurd (omega (arith, h))
  drop-front (suc n) (x ∷ xs) ys h = drop-front n xs ys (omega (arith, h))

  absorb_loop-append :
      (m n : ℕ) (state xs ys : Trits)
      → length xs ≡ 243 * m
      → absorb_loop rounds (m + n) state (xs ++ ys)
        ≡ (absorb_loop rounds m state xs >>= λ s. absorb_loop rounds n s ys)
  unfolding absorb_loop
  absorb_loop-append zero n state [] ys h =
      ap (λ k. absorb_loop rounds k state ys) {x = 0 + n} {y = n} (omega arith)
  absorb_loop-append zero n state (x ∷ xs) ys h = absurd (omega (arith, h))
  absorb_loop-append (suc m) n state xs ys h =
      let first : copy (take 243 state) (xs ++ ys) ≡ copy (take 243 state) xs =
        copy-front (take 243 state) xs ys (omega (arith, h, length-take 243 state)) in
      let rest : drop 243 (xs ++ ys) ≡ drop 243 xs ++ ys =
        drop-front 243 xs ys (omega (arith, h)) in
      ap (λ k. absorb_loop rounds k state (xs ++ ys)) {x = suc m + n} {y = suc (m + n)}
        (omega arith)
      ∙ ap
          (λ block. transform rounds (block ++ drop 243 state) >>= λ s.
            absorb_loop rounds (m + n) s (drop 243 (xs ++ ys)))
          first
      ∙ ap
          (λ left. transform rounds (copy (take 243 state) xs ++ drop 243 state) >>= λ s.
            absorb_loop rounds (m + n) s left)
          rest
      ∙ >>=_congr (transform rounds (copy (take 243 state) xs ++ drop 243 state))
          (λ s. absorb_loop-append m n s (drop 243 xs) ys (omega (arith, length-drop 243 xs, h)))
      ∙ sym (>>=_assoc (transform rounds (copy (take 243 state) xs ++ drop 243 state)) _ _)

  absorb_late :
      (c : Curl) (xs : Trits) (m : ℕ)
      → c.squeezing ≡ true
      → length xs ≡ 243 * suc m
      → absorb rounds c xs ≡ panic
  unfolding absorb
  absorb_late c xs m after h =
      let full : length xs % 243 ≡ 0 = omega (arith, h) in
      rw (after, pos→== (length xs) (omega (arith, h)), full) refl

  absorb_lem :
      (c : Curl) (xs : Trits) (m : ℕ)
      → c.squeezing ≡ false
      → length xs ≡ 243 * suc m
      → absorb rounds c xs ≡ (absorb_loop rounds (suc m) (c.state) xs >>= λ s. ok (with_state c s))
  unfolding absorb
  absorb_lem c xs m absorbing h =
      let full : length xs % 243 ≡ 0 = omega (arith, h) in
      let count : length xs / 243 ≡ suc m = omega (arith, h) in
      rw (absorbing, pos→== (length xs) (omega (arith, h)), full, count) refl

  -- Blocks of trits that are absorbed in two pieces, each of one block of 243 at least, leave the
  -- state that they leave at once, and fail alike.
  pub absorb-append :
      (c : Curl) (xs ys : Trits) (m n : ℕ)
      → length xs ≡ 243 * suc m
      → length ys ≡ 243 * suc n
      → absorb rounds c (xs ++ ys) ≡ (absorb rounds c xs >>= λ c'. absorb rounds c' ys)
  absorb-append c xs ys m n hx hy = elim (Bool-cases (c.squeezing)) [
    | inl after ↦
        let whole : length (xs ++ ys) ≡ 243 * suc (m + suc n) =
          omega (arith, length-append xs ys, hx, hy) in
        absorb_late c (xs ++ ys) (m + suc n) after whole
        ∙ sym (ap (λ r. r >>= λ c'. absorb rounds c' ys) (absorb_late c xs m after hx))
    | inr absorbing ↦
        let whole : length (xs ++ ys) ≡ 243 * suc (m + suc n) =
          omega (arith, length-append xs ys, hx, hy) in
        let first = absorb_loop rounds (suc m) (c.state) xs in
        absorb_lem c (xs ++ ys) (m + suc n) absorbing whole
        ∙ ap (λ k. absorb_loop rounds k (c.state) (xs ++ ys) >>= λ s. ok (with_state c s))
            {x = suc (m + suc n)} {y = suc m + suc n} (omega arith)
        ∙ ap (λ r. r >>= λ s. ok (with_state c s))
            (absorb_loop-append (suc m) (suc n) (c.state) xs ys hx)
        ∙ >>=_assoc first _ _
        ∙ >>=_congr first (λ s. sym (absorb_lem (with_state c s) ys n absorbing hy))
        ∙ sym (>>=_assoc first _ (λ c'. absorb rounds c' ys))
        ∙ sym (ap (λ r. r >>= λ c'. absorb rounds c' ys) (absorb_lem c xs m absorbing hx))
  ]

  pub length-squeeze :
      (c : Curl) (n : ℕ) (out : Trits) (c' : Curl)
      → squeeze rounds c n ≡ ok (out, c')
      → length out ≡ n
  unfolding squeeze
  length-squeeze c n out c' h =
      let (whole, looped) = guard_split (not (n % 243 == 0)) _ h in
      let exact : n % 243 ≡ 0 = ground (arith, whole) in
      omega (arith, length-squeeze_loop (n / 243) c (out, c') looped, exact)

-- Curl as a sponge, for a number of rounds.
abbrev pub curl : ℕ → Sponge
curl rounds = record {
  State = Curl;
  fresh = new_curl;
  absorb = absorb rounds;
  squeeze = squeeze rounds;
  absorb_trytes = absorb_trytes rounds;
  squeeze_trytes = squeeze_trytes rounds;
  length-squeeze = length-squeeze rounds;
}
