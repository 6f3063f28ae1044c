-- ===== src/Curl/Returns.antt =====
-- Curl returns from every state of trits: no index of its table is out of range.
use iota_go.Common.{
  ℕ, zero, suc, ◌+◌, ◌*◌, ◌%◌, ◌≡◌, refl, ap, ◌∙◌, Bool, true, false, [], ◌∷◌, ◌++◌, inl, inr,
  length, get_or, replicate, take, copy, ℤ, pos, int8, ◌+ℤ◌, scale, Bool-cases,
}
use iota_go.Consts.{Result, ok, err, panic, ◌>>=◌}
use iota_go.Trinary.Trits.{Trits, valid_trit}
use iota_go.Trinary.Tryte.Groups.{all_trits, all_trits_sound}
use iota_go.Trinary.Convert.RoundTrip.{AllTrits}
use iota_go.Curl.{Curl, apply_table, squeeze_block, squeeze_loop}
use iota_go.Curl.Rounds.{trit_at, trits_from, curl_rounds, transform-curl_rounds, length-transform}

is_trit : Result ℤ → Bool
is_trit (ok d) = valid_trit d
is_trit (err e) = false
is_trit panic = false

is_trit-ok : (r : Result ℤ) → is_trit r ≡ true → (d : ℤ) × (r ≡ ok d) × (valid_trit d ≡ true)
unfolding is_trit
is_trit-ok (ok d) h = (d, refl, h)
is_trit-ok (err e) h = absurd (cc)
is_trit-ok panic h = absurd (cc)

table_run : all_trits (λ a. all_trits (λ b. is_trit (apply_table a b))) ≡ true
unfolding is_trit apply_table valid_trit int8 ◌+ℤ◌ scale
table_run = refl

apply_table-ok :
    (a b : ℤ)
    → valid_trit a ≡ true
    → valid_trit b ≡ true
    → (d : ℤ) × (apply_table a b ≡ ok d) × (valid_trit d ≡ true)
apply_table-ok a b ha hb =
    let all_b = all_trits_sound (λ a. all_trits (λ b. is_trit (apply_table a b))) table_run a ha in
    is_trit-ok (apply_table a b) (all_trits_sound (λ b. is_trit (apply_table a b)) all_b b hb)

get_or-IsTrit : (ts : Trits) (i : ℕ) → AllTrits ts → valid_trit (get_or ts i (pos 0)) ≡ true
unfolding valid_trit
get_or-IsTrit [] i h = refl
get_or-IsTrit (t ∷ ts) zero (ht, hs) = ht
get_or-IsTrit (t ∷ ts) (suc i) (ht, hs) = get_or-IsTrit ts i hs

trits_from-ok :
    (n i : ℕ) (src : Trits)
    → AllTrits src
    → (out : Trits) × (trits_from n i src ≡ ok out) × AllTrits out
unfolding trits_from trit_at
trits_from-ok zero i src h = ([], refl, tt)
trits_from-ok (suc n) i src h =
    let (d, one, valid) =
      apply_table-ok (get_or src (364 * i % 729) (pos 0)) (get_or src (364 * (i + 1) % 729) (pos 0))
        (get_or-IsTrit src (364 * i % 729) h) (get_or-IsTrit src (364 * (i + 1) % 729) h) in
    let (rest, more, all) = trits_from-ok n (i + 1) src h in
    (d ∷ rest, rw (one, more) refl, (valid, all))

curl_rounds-ok :
    (rounds : ℕ) (state : Trits)
    → AllTrits state
    → (out : Trits) × (curl_rounds rounds state ≡ ok out) × AllTrits out
unfolding curl_rounds
curl_rounds-ok zero state h = (state, refl, h)
curl_rounds-ok (suc n) state h =
    let (s, one, valid) = trits_from-ok 729 0 state h in
    let (out, more, all) = curl_rounds-ok n s valid in
    (out, ap (λ r. r >>= curl_rounds n) one ∙ more, all)

module _ (rounds : ℕ) where
  -- A block, and the state that it is of.
  abbrev squeezed : Trits → Trits × Curl
  squeezed s = (copy (replicate 243 (pos 0)) (take 243 s), record { state = s; squeezing = true })

  squeeze_block-ok :
      (c : Curl)
      → length (c.state) ≡ 729
      → AllTrits (c.state)
      → (out : Trits × Curl) × (squeeze_block rounds c ≡ ok out)
        × (length (out.1.state) ≡ 729)
        × AllTrits (out.1.state)
  unfolding squeeze_block
  squeeze_block-ok c size h = elim (Bool-cases (c.squeezing)) [
    | inr first ↦ (squeezed (c.state), rw (squeeze_block, first) refl, size, h)
    | inl late ↦
        let (s, made, valid) = curl_rounds-ok rounds (c.state) h in
        let done = transform-curl_rounds rounds (c.state) size ∙ made in
        (
          squeezed s,
          rw (squeeze_block, late, done) refl,
          length-transform rounds (c.state) s size done,
          valid,
        )
  ]

  pub squeeze_loop-ok :
      (n : ℕ) (c : Curl)
      → length (c.state) ≡ 729
      → AllTrits (c.state)
      → (out : Trits × Curl) × (squeeze_loop rounds n c ≡ ok out)
  unfolding squeeze_loop
  squeeze_loop-ok zero c size h = (([], c), refl)
  squeeze_loop-ok (suc n) c size h =
      let (b, one, wide, valid) = squeeze_block-ok c size h in
      let (rest, more) = squeeze_loop-ok n (b.1) wide valid in
      ((b.0 ++ rest.0, rest.1), rw (one, more) refl)
