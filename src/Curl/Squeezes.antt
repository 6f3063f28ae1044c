-- ===== src/Curl/Squeezes.antt =====
-- What Curl squeezes: a block of every state that the transform makes, one after the other.
use mathlib.Core.Path.{subst}
use iota_go.Common.{
  ℕ, zero, suc, ◌+◌, ◌*◌, ◌/◌, ◌%◌, ◌≤◌, ◌≡◌, refl, ap, sym, ◌∙◌, inl, inr, true, [], ◌++◌,
  if◌then◌else◌, length, length-replicate, length-take, replicate, take, drop, copy, arith, pos,
  Bool-cases, take_front, drop_front, drop-drop,
}
use iota_go.Consts.{Result, ok, ◌>>=◌, >>=_split, ok_inj}
use iota_go.Trinary.Trits.{Trits}
use iota_go.Curl.{Curl, transform, squeeze_block, squeeze_loop, squeeze}
use iota_go.Trinary.Convert.RoundTrip.{AllTrits}
use iota_go.Curl.Returns.{squeeze_loop-ok}
use iota_go.Curl.Streams.{length-squeeze_loop}
use iota_go.Curl.Rounds.{copy_full, length-transform, curl_rounds, transform-curl_rounds}

-- The state after the transform as Curl-P defines it has been made n times.
unfoldable pub transforms : ℕ → ℕ → Trits → Result Trits
transforms rounds zero state = ok state
transforms rounds (suc n) state = do s ← curl_rounds rounds state; transforms rounds n s

-- The first block is of the state that was absorbed, or of the one after it where a block of that is
-- squeezed already.
abbrev pub before_first : Curl → ℕ
before_first c = if c.squeezing then 1 else 0

-- Block i of the output is the front of the state after i more transforms.
abbrev pub IsBlock : ℕ → Curl → Trits → ℕ → Type 0
IsBlock rounds c out i =
    (s : Trits) × (transforms rounds (before_first c + i) (c.state) ≡ ok s)
    × (take 243 (drop (243 * i) out) ≡ take 243 s)

module _ (rounds : ℕ) where
  record IsPiece (c : Curl) (out : Trits × Curl) : Type 0 where
    front : out.0 ≡ take 243 (out.1.state)
    reached : transforms rounds (before_first c) (c.state) ≡ ok (out.1.state)
    after : out.1.squeezing ≡ true
    size : length (out.1.state) ≡ 729

  squeezed_block :
      (c : Curl) (s : Trits) (out : Trits × Curl)
      → length s ≡ 729
      → transforms rounds (before_first c) (c.state) ≡ ok s
      → (copy (replicate 243 (pos 0)) (take 243 s), record { state = s; squeezing = true }) ≡ out
      → IsPiece c out
  squeezed_block c s out h reached same = subst (IsPiece c) same (record {
    front =
        copy_full (replicate 243 (pos 0)) (take 243 s)
          (omega (arith, length-replicate 243 (pos 0), length-take 243 s, h));
    reached = reached;
    after = refl;
    size = h;
  })

  squeeze_block-IsPiece :
      (c : Curl) (out : Trits × Curl)
      → length (c.state) ≡ 729
      → squeeze_block rounds c ≡ ok out
      → IsPiece c out
  unfolding squeeze_block transforms
  squeeze_block-IsPiece c out h done = elim (Bool-cases (c.squeezing)) [
    | inr first ↦
        squeezed_block c (c.state) out h (rw first refl)
          (ok_inj (rw (squeeze_block, first) at done))
    | inl late ↦
        let (s, made, same) =
          >>=_split (transform rounds (c.state)) _ (rw (squeeze_block, late) at done) in
        let once = sym (transform-curl_rounds rounds (c.state) h) ∙ made in
        squeezed_block c s out (length-transform rounds (c.state) s h made)
          (rw (late, transforms, once) refl) (ok_inj same)
  ]

  transforms-add :
      (m n : ℕ) (state s t : Trits)
      → transforms rounds m state ≡ ok s
      → transforms rounds n s ≡ ok t
      → transforms rounds (m + n) state ≡ ok t
  unfolding transforms
  transforms-add zero n state s t first more =
      ap (λ k. transforms rounds k state) {x = 0 + n} {y = n} (omega arith)
      ∙ ap (transforms rounds n) (ok_inj first)
      ∙ more
  transforms-add (suc m) n state s t first more =
      let (s1, one, rest) = >>=_split (curl_rounds rounds state) _ first in
      ap (λ k. transforms rounds k state) {x = suc m + n} {y = suc (m + n)} (omega arith)
      ∙ ap (λ r. r >>= transforms rounds (m + n)) one
      ∙ transforms-add m n s1 s t rest more

  pub record Squeezed (c : Curl) (n : ℕ) (out : Trits × Curl) : Type 0 where
    pub squeezing : out.1.squeezing ≡ true
    pub state : transforms rounds (before_first c + n) (c.state) ≡ ok (out.1.state)
    pub blocks : (i : ℕ) → i ≤ n → IsBlock rounds c (out.0) i

  -- The block of the first state.
  first_at :
      (c : Curl) (b : Trits × Curl) (rest : Trits) → IsPiece c b → IsBlock rounds c (b.0 ++ rest) 0
  first_at c b rest h =
      let long : length (b.0) ≡ 243 =
        ap length (h.front) ∙ omega (arith, length-take 243 (b.1.state), h.size) in
      (
        b.1.state,
        ap (λ k. transforms rounds k (c.state)) {x = before_first c + 0} {y = before_first c}
              (omega arith)
            ∙ h.reached,
        take_front (b.0) rest 243 long ∙ h.front,
      )

  later_state :
      (c : Curl) (b : Trits × Curl) (i : ℕ) (s : Trits)
      → IsPiece c b
      → transforms rounds (before_first (b.1) + i) (b.1.state) ≡ ok s
      → transforms rounds (before_first c + suc i) (c.state) ≡ ok s
  later_state c b i s h reached =
      let one : before_first (b.1) ≡ 1 = rw (h.after) refl in
      ap (λ k. transforms rounds k (c.state)) {x = before_first c + suc i}
        {y = before_first c + (before_first (b.1) + i)} (omega (arith, one))
      ∙ transforms-add (before_first c) (before_first (b.1) + i) (c.state) (b.1.state) s (h.reached)
          reached

  -- The blocks behind it.
  later_at :
      (c : Curl) (b : Trits × Curl) (rest : Trits) (i : ℕ)
      → IsPiece c b
      → IsBlock rounds (b.1) rest i
      → IsBlock rounds c (b.0 ++ rest) (suc i)
  later_at c b rest i h (s, reached, front) =
      let long : length (b.0) ≡ 243 =
        ap length (h.front) ∙ omega (arith, length-take 243 (b.1.state), h.size) in
      let past : drop (243 * suc i) (b.0 ++ rest) ≡ drop (243 * i) rest =
        sym (drop-drop (243 * i) 243 (243 * suc i) (b.0 ++ rest) (omega arith))
        ∙ ap (drop (243 * i)) (drop_front (b.0) rest 243 long) in
      (s, later_state c b i s h reached, ap (take 243) past ∙ front)

  one_block : (c : Curl) (b : Trits × Curl) → IsPiece c b → Squeezed c 0 (b.0 ++ [], b.1)
  one_block c b h = record {
    squeezing = h.after;
    state =
        ap (λ k. transforms rounds k (c.state)) {x = before_first c + 0} {y = before_first c}
          (omega arith)
        ∙ h.reached;
    blocks = λ i small.
        let zeroth : i ≡ 0 = omega (arith, small) in
        subst (IsBlock rounds c (b.0 ++ [])) (sym zeroth) (first_at c b [] h);
  }

  more_blocks :
      (c : Curl) (n : ℕ) (b rest : Trits × Curl)
      → IsPiece c b
      → Squeezed (b.1) n rest
      → Squeezed c (suc n) (b.0 ++ rest.0, rest.1)
  more_blocks c n b rest h later = record {
    squeezing = later.squeezing;
    state = later_state c b n (rest.1.state) h (later.state);
    blocks = block_at;
  }
    where
      block_at : (i : ℕ) → i ≤ suc n → IsBlock rounds c (b.0 ++ rest.0) i
      block_at zero small = first_at c b (rest.0) h
      block_at (suc i) small = later_at c b (rest.0) i h (later.blocks i (omega (arith, small)))

  squeeze_loop-Squeezed :
      (n : ℕ) (c : Curl) (out : Trits × Curl)
      → length (c.state) ≡ 729
      → squeeze_loop rounds (suc n) c ≡ ok out
      → Squeezed c n out
  unfolding squeeze_loop
  squeeze_loop-Squeezed zero c out h done =
      let (b, one, same) = >>=_split (squeeze_block rounds c) _ done in
      subst (Squeezed c 0) (ok_inj same) (one_block c b (squeeze_block-IsPiece c b h one))
  squeeze_loop-Squeezed (suc n) c out h done =
      let (b, one, h1) = >>=_split (squeeze_block rounds c) _ done in
      let (rest, more, same) = >>=_split (squeeze_loop rounds (suc n) (b.1)) _ h1 in
      let blk = squeeze_block-IsPiece c b h one in
      let later = squeeze_loop-Squeezed n (b.1) rest (blk.size) more in
      subst (Squeezed c (suc n)) (ok_inj same) (more_blocks c n b rest blk later)

  -- From a state of 729 valid trits n + 1 blocks of 243 trits are squeezed without an error. Block i is
  -- the first third of the state that i transforms of Curl-P make of it, or i + 1 if it was squeezed
  -- from before. In the end the state is that of the last block, and is marked as squeezed from.
  pub squeeze-Squeezed :
      (c : Curl) (n : ℕ)
      → length (c.state) ≡ 729
      → AllTrits (c.state)
      → (out : Trits × Curl) × (squeeze rounds c (243 * suc n) ≡ ok out)
        × (length (out.0) ≡ 243 * suc n)
        × Squeezed c n out
  unfolding squeeze
  squeeze-Squeezed c n size valid =
      let whole : 243 * suc n % 243 ≡ 0 = omega arith in
      let count : 243 * suc n / 243 ≡ suc n = omega arith in
      let (out, looped) = squeeze_loop-ok rounds (suc n) c size valid in
      (
        out,
        rw (whole, count) looped,
        length-squeeze_loop rounds (suc n) c out looped,
        squeeze_loop-Squeezed n c out size looped,
      )
