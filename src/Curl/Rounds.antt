-- ===== src/Curl/Rounds.antt =====
-- The rounds of Curl, nine trits at a time, are those of its definition.
use iota_go.Common.{
  ℕ, zero, suc, ◌+◌, ◌*◌, ◌%◌, ◌≡◌, refl, ap, sym, ◌∙◌, inl, inr, true, false, not, [], ◌∷◌, ◌==◌,
  if◌then◌else◌, length, replicate, length-replicate, get_or, copy, arith, ℤ, pos, Bool-cases,
}
use mathlib.Core.Path.{subst}
use iota_go.Consts.{
  Result, ok, ◌>>=◌, >>=_ok, >>=_assoc, >>=_congr, >>=_congr_ok, >>=_split, ok_inj,
}
use iota_go.Trinary.Trits.{Trits}
use iota_go.Curl.{indices, apply_table, source_at, round_loop, transform_generic, transform}

-- The index that `init` adds up is a multiple of 364.
indices-mod : (i : ℕ) → indices i ≡ 364 * i % 729
unfolding indices
indices-mod zero = refl
indices-mod (suc i) = rw (indices-mod i) (ground arith)

-- A round as Curl-P defines it: trit i is made of the trits 364 i and 364 (i + 1), modulo 729.
unfoldable pub trit_at : Trits → ℕ → Result ℤ
trit_at src i =
    apply_table (get_or src (364 * i % 729) (pos 0)) (get_or src (364 * (i + 1) % 729) (pos 0))

unfoldable pub trits_from : ℕ → ℕ → Trits → Result Trits
unfolding trit_at
trits_from zero i src = ok []
trits_from (suc n) i src = do d ← trit_at src i; rest ← trits_from n (i + 1) src; ok (d ∷ rest)

abbrev pub curl_round : Trits → Result Trits
curl_round src = trits_from 729 0 src

unfoldable pub curl_rounds : ℕ → Trits → Result Trits
curl_rounds zero state = ok state
curl_rounds (suc n) state = do s ← curl_round state; curl_rounds n s

trit_lem :
    (src : Trits) (i j : ℕ)
    → j ≡ i + 1
    → apply_table (source_at src i) (source_at src j) ≡ trit_at src i
unfolding source_at trit_at
trit_lem src i j next = rw (next, indices-mod i, indices-mod (i + 1)) refl

nine_more : (n : ℕ) → 9 * suc n ≡ suc (suc (suc (suc (suc (suc (suc (suc (suc (9 * n)))))))))
nine_more n = omega arith

next : (i k m : ℕ) → m ≡ k + 1 → i + m ≡ i + k + 1
next i k m h = omega (arith, h)

step :
    (src : Trits) (n i j : ℕ)
    → j ≡ i + 1
    → (last : Trits → Result Trits)
    → (trits_from (suc n) i src >>= last)
      ≡ (trit_at src i >>= λ d. trits_from n j src >>= λ rest. last (d ∷ rest))
unfolding trits_from
step src n i j next last = rw next (
    >>=_assoc (trit_at src i) _ last
    ∙ >>=_congr (trit_at src i) (λ d. >>=_assoc (trits_from n (i + 1) src) _ last))

-- Nine trits in a row.
nine_steps :
    (n i : ℕ) (src : Trits)
    → trits_from (suc (suc (suc (suc (suc (suc (suc (suc (suc (9 * n)))))))))) i src ≡ (do
      d0 ← trit_at src i
      d1 ← trit_at src (i + 1)
      d2 ← trit_at src (i + 2)
      d3 ← trit_at src (i + 3)
      d4 ← trit_at src (i + 4)
      d5 ← trit_at src (i + 5)
      d6 ← trit_at src (i + 6)
      d7 ← trit_at src (i + 7)
      d8 ← trit_at src (i + 8)
      rest ← trits_from (9 * n) (i + 9) src
      ok (d0 ∷ d1 ∷ d2 ∷ d3 ∷ d4 ∷ d5 ∷ d6 ∷ d7 ∷ d8 ∷ rest))
nine_steps n i src =
    sym (>>=_ok _)
    ∙ step src (suc (suc (suc (suc (suc (suc (suc (suc (9 * n))))))))) i (i + 1) refl ok
    ∙ >>=_congr (trit_at src i) (λ d0.
      step src (suc (suc (suc (suc (suc (suc (suc (9 * n)))))))) (i + 1) (i + 2) (next i 1 2 refl)
        (λ rest. ok (d0 ∷ rest))
      ∙ >>=_congr (trit_at src (i + 1)) (λ d1.
        step src (suc (suc (suc (suc (suc (suc (9 * n))))))) (i + 2) (i + 3) (next i 2 3 refl)
          (λ rest. ok (d0 ∷ d1 ∷ rest))
        ∙ >>=_congr (trit_at src (i + 2)) (λ d2.
          step src (suc (suc (suc (suc (suc (9 * n)))))) (i + 3) (i + 4) (next i 3 4 refl)
            (λ rest. ok (d0 ∷ d1 ∷ d2 ∷ rest))
          ∙ >>=_congr (trit_at src (i + 3)) (λ d3.
            step src (suc (suc (suc (suc (9 * n))))) (i + 4) (i + 5) (next i 4 5 refl)
              (λ rest. ok (d0 ∷ d1 ∷ d2 ∷ d3 ∷ rest))
            ∙ >>=_congr (trit_at src (i + 4)) (λ d4.
              step src (suc (suc (suc (9 * n)))) (i + 5) (i + 6) (next i 5 6 refl)
                (λ rest. ok (d0 ∷ d1 ∷ d2 ∷ d3 ∷ d4 ∷ rest))
              ∙ >>=_congr (trit_at src (i + 5)) (λ d5.
                step src (suc (suc (9 * n))) (i + 6) (i + 7) (next i 6 7 refl)
                  (λ rest. ok (d0 ∷ d1 ∷ d2 ∷ d3 ∷ d4 ∷ d5 ∷ rest))
                ∙ >>=_congr (trit_at src (i + 6)) (λ d6.
                  step src (suc (9 * n)) (i + 7) (i + 8) (next i 7 8 refl)
                    (λ rest. ok (d0 ∷ d1 ∷ d2 ∷ d3 ∷ d4 ∷ d5 ∷ d6 ∷ rest))
                  ∙ >>=_congr (trit_at src (i + 7)) (λ d7.
                    step src (9 * n) (i + 8) (i + 9) (next i 8 9 refl)
                      (λ rest. ok (d0 ∷ d1 ∷ d2 ∷ d3 ∷ d4 ∷ d5 ∷ d6 ∷ d7 ∷ rest))))))))))

round_loop-trits_from : (n i : ℕ) (src : Trits) → round_loop n i src ≡ trits_from (9 * n) i src
unfolding round_loop trits_from
round_loop-trits_from zero i src = refl
round_loop-trits_from (suc n) i src =
    rw
      (
        trit_lem src i (i + 1) refl,
        trit_lem src (i + 1) (i + 2) (next i 1 2 refl),
        trit_lem src (i + 2) (i + 3) (next i 2 3 refl),
        trit_lem src (i + 3) (i + 4) (next i 3 4 refl),
        trit_lem src (i + 4) (i + 5) (next i 4 5 refl),
        trit_lem src (i + 5) (i + 6) (next i 5 6 refl),
        trit_lem src (i + 6) (i + 7) (next i 6 7 refl),
        trit_lem src (i + 7) (i + 8) (next i 7 8 refl),
        trit_lem src (i + 8) (i + 9) (next i 8 9 refl),
        round_loop-trits_from n (i + 9) src,
        nine_more n,
      )
      (sym (nine_steps n i src))

length-trits_from : (n i : ℕ) (src out : Trits) → trits_from n i src ≡ ok out → length out ≡ n
unfolding trits_from
length-trits_from zero i src out h = ap length (sym (ok_inj h))
length-trits_from (suc n) i src out h =
    let (d, one, h1) = >>=_split (trit_at src i) _ h in
    let (rest, more, h2) = >>=_split (trits_from n (i + 1) src) _ h1 in
    ap length (sym (ok_inj h2)) ∙ ap suc (length-trits_from n (i + 1) src rest more)

length-round_loop : (src out : Trits) → round_loop 81 0 src ≡ ok out → length out ≡ 729
length-round_loop src out h =
    length-trits_from 729 0 src out (sym (round_loop-trits_from 81 0 src) ∙ h)

transform_generic-lengths :
    (r : ℕ) (dst src : Trits) (out : Trits × Trits)
    → length dst ≡ 729
    → length src ≡ 729
    → transform_generic r dst src ≡ ok out
    → (length (out.0) ≡ 729) × (length (out.1) ≡ 729)
unfolding transform_generic
transform_generic-lengths zero dst src out hd hs h =
    subst (λ (p : Trits × Trits). (length (p.0) ≡ 729) × (length (p.1) ≡ 729)) (ok_inj h) (hd, hs)
transform_generic-lengths (suc r) dst src out hd hs h =
    let (written, one, h1) = >>=_split (round_loop 81 0 src) _ h in
    let (swapped, more, h2) = >>=_split (transform_generic r src written) _ h1 in
    let (a, b) =
      transform_generic-lengths r src written swapped hs (length-round_loop src written one) more in
    subst (λ (p : Trits × Trits). (length (p.0) ≡ 729) × (length (p.1) ≡ 729)) (ok_inj h2) (b, a)

pub copy_full : (dst src : Trits) → length dst ≡ length src → copy dst src ≡ src
unfolding copy
copy_full [] [] h = refl
copy_full [] (s ∷ src) h = absurd (omega (arith, h))
copy_full (d ∷ dst) [] h = absurd (omega (arith, h))
copy_full (d ∷ dst) (s ∷ src) h = ap (λ ts. s ∷ ts) (copy_full dst src (omega (arith, h)))

-- What `transform` leaves in the state.
pick : ℕ → Trits × Trits → Trits
pick r out = if not (r % 2 == 0) then copy (out.1) (out.0) else out.1

pick-suc :
    (r : ℕ) (a b : Trits) → length a ≡ 729 → length b ≡ 729 → pick (suc r) (b, a) ≡ pick r (a, b)
unfolding pick
pick-suc r a b ha hb = elim (Bool-cases (r % 2 == 0)) [
  | inl even ↦
      let odd : (suc r % 2 == 0) ≡ false = ground (arith, even) in
      rw (even, odd) (copy_full a b (ha ∙ sym hb))
  | inr odd ↦
      let even : (suc r % 2 == 0) ≡ true = ground (arith, odd) in
      rw (even, odd) (sym (copy_full b a (hb ∙ sym ha)))
]

transform_generic-curl_rounds :
    (r : ℕ) (dst src : Trits)
    → length dst ≡ 729
    → length src ≡ 729
    → (transform_generic r dst src >>= λ out. ok (pick r out)) ≡ curl_rounds r src
unfolding transform_generic curl_rounds pick
transform_generic-curl_rounds zero dst src hd hs = refl
transform_generic-curl_rounds (suc r) dst src hd hs =
    >>=_assoc (round_loop 81 0 src) _ (λ out. ok (pick (suc r) out))
    ∙ >>=_congr_ok (round_loop 81 0 src) (λ written one.
      let hw = length-round_loop src written one in
      inner written hw (transform_generic-curl_rounds r src written hs hw))
    ∙ ap (λ m. m >>= curl_rounds r) (round_loop-trits_from 81 0 src)
  where
    inner :
        (written : Trits)
        → length written ≡ 729
        → (transform_generic r src written >>= λ out. ok (pick r out)) ≡ curl_rounds r written
        → ((transform_generic r src written >>= λ swapped. ok (swapped.1, swapped.0)) >>= λ out.
            ok (pick (suc r) out))
          ≡ curl_rounds r written
    inner written hw rounds_left =
        >>=_assoc (transform_generic r src written) _ (λ out. ok (pick (suc r) out))
        ∙ >>=_congr_ok (transform_generic r src written) (λ swapped e.
          let (a, b) = transform_generic-lengths r src written swapped hs hw e in
          ap ok (pick-suc r (swapped.0) (swapped.1) a b))
        ∙ rounds_left

-- For every number of rounds and every state of 729 trits, transforming it nine trits at a time, from
-- buffer to buffer, is what Curl-P defines: as many rounds, each of which makes trit i of the trits
-- 364 i and 364 (i + 1), modulo 729. Where a value is no trit, both panic alike.
pub transform-curl_rounds :
    (rounds : ℕ) (state : Trits)
    → length state ≡ 729
    → transform rounds state ≡ curl_rounds rounds state
unfolding transform pick
transform-curl_rounds rounds state h =
    transform_generic-curl_rounds rounds (replicate 729 (pos 0)) state
      (length-replicate 729 (pos 0)) h

length-curl_rounds :
    (rounds : ℕ) (state out : Trits)
    → length state ≡ 729
    → curl_rounds rounds state ≡ ok out
    → length out ≡ 729
unfolding curl_rounds
length-curl_rounds zero state out h done = ap length (sym (ok_inj done)) ∙ h
length-curl_rounds (suc n) state out h done =
    let (s, one, more) = >>=_split (curl_round state) _ done in
    length-curl_rounds n s out (length-trits_from 729 0 state s one) more

pub length-transform :
    (rounds : ℕ) (state out : Trits)
    → length state ≡ 729
    → transform rounds state ≡ ok out
    → length out ≡ 729
length-transform rounds state out h done =
    length-curl_rounds rounds state out h (sym (transform-curl_rounds rounds state h) ∙ done)
