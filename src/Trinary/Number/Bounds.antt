-- ===== src/Trinary/Number/Bounds.antt =====
-- `min_trits` gives the least number of trits that hold an int64.
use iota_go.Common.{
  ℕ, zero, suc, ◌+◌, ◌-◌, ◌*◌, ◌%◌, ◌^◌, ◌≤◌, ◌<◌, ◌≡◌, refl, arith, ltb, leb, Bool-cases, inl, inr,
  ◌⊎◌, ℤ, InInt64, abs, ltb→lt,
}
use native.Mathlib.Decide.{dec_lt}
use native.Mathlib.Numerals.{add-one}
use iota_go.Trinary.Value.{max_value}
use iota_go.Trinary.Number.{abs_int64, min_trits_loop, min_trits}

-- The absolute value of every int64 is right, that of the least one too.
pub abs_int64-eq-abs : (v : ℤ) → InInt64 v → abs_int64 v ≡ abs v
unfolding abs_int64
abs_int64-eq-abs v h = ground arith

pub max_value_mono : (m n : ℕ) → m ≤ n → max_value m ≤ max_value n
unfolding max_value
max_value_mono zero n h = omega arith
max_value_mono (suc m) zero h = absurd (omega arith)
max_value_mono (suc m) (suc n) h = omega (arith, max_value_mono m n (omega arith))

max_value_41 : max_value 41 ≡ 18236498188585393201
unfolding max_value
max_value_41 = refl

-- n trits hold a, and one trit less does not (unless the count is 1).
pub record IsLeast (a n : ℕ) : Type 0 where
  pub holds : a ≤ max_value n
  pub least : (n ≡ 1) ⊎ (max_value (n - 1) < a)

max_value_step : (n : ℕ) → max_value (n + 1) ≡ 3 * max_value n + 1
max_value_step n = rw add-one (unfold max_value in refl)

-- No step of the loop wraps.
next_value : (n : ℕ) → n ≤ 40 → (max_value n * 3 + 1) % 2 ^ 64 ≡ max_value (n + 1)
next_value n h =
    omega (arith, max_value_step n, max_value_mono (n + 1) 41 (omega arith), max_value_41)

room : (a n : ℕ) → a ≤ 2 ^ 63 → max_value n < a → n ≤ 40
room a n ha h = elim (dec_lt 40 n) [
  | yes big ↦ absurd (omega (arith, max_value_mono 41 n big, max_value_41))
  | no small ↦ omega arith
]

-- The loop ends by its test within the rounds that it has.
min_trits_loop-IsLeast :
    (rounds a num : ℕ)
    → 41 ≤ num + rounds
    → a ≤ 2 ^ 63
    → (num ≡ 1) ⊎ (max_value (num - 1) < a)
    → 1 ≤ num
    → num ≤ 41
    → IsLeast a (min_trits_loop rounds a (max_value num) num)
unfolding min_trits_loop
min_trits_loop-IsLeast zero a num enough ha below h1 hn = record {
  holds = omega (arith, max_value_mono 41 num (omega arith), max_value_41);
  least = below;
}
min_trits_loop-IsLeast (suc rounds) a num enough ha below h1 hn =
    elim (Bool-cases (ltb (max_value num) a)) [
      | inl more ↦
          let small = room a num ha (ltb→lt _ _ more) in
          rw (more, next_value num small)
            (min_trits_loop-IsLeast rounds a (num + 1) (omega arith) ha (inr (ground (arith, more)))
              (omega arith) (omega arith))
      | inr stop ↦ rw stop (record { holds = ground arith; least = below })
    ]

start_values :
    (max_value 31 ≡ 308836698141973)
    × (max_value 21 ≡ 5230176601)
    × (max_value 11 ≡ 88573)
    × (max_value 1 ≡ 1)
unfolding max_value
start_values = (refl, refl, refl, refl)

loop_from :
    (a num vp : ℕ)
    → a ≤ 2 ^ 63
    → max_value num ≡ vp
    → (num ≡ 1) ⊎ (max_value (num - 1) < a)
    → 1 ≤ num
    → num ≤ 41
    → IsLeast a (min_trits_loop 40 a vp num)
loop_from a num vp ha e below h1 hn =
    rw (← e) (min_trits_loop-IsLeast 40 a num (omega arith) ha below h1 hn)

before_start :
    (max_value 30 ≡ 102945566047324) × (max_value 20 ≡ 1743392200) × (max_value 10 ≡ 29524)
unfolding max_value
before_start = (refl, refl, refl)

-- `min_trits` is the least count of trits, at least 1, whose range holds the value, for every int64.
pub min_trits-IsLeast : (v : ℤ) → InInt64 v → IsLeast (abs v) (min_trits v)
unfolding min_trits
min_trits-IsLeast v h =
    let (e31, e21, e11, e1) = start_values in
    let (b31, b21, b11) = before_start in
    let a = abs v in
    let ha : a ≤ 2 ^ 63 = ground arith in
    rw (abs_int64-eq-abs v h) (elim (Bool-cases (leb 308836698141973 a)) [
      | inl big ↦ rw big (loop_from a 31 _ ha e31 (inr (ground arith)) (omega arith) (omega arith))
      | inr no31 ↦ elim (Bool-cases (leb 5230176601 a)) [
        | inl big ↦
            rw (no31, big)
              (loop_from a 21 _ ha e21 (inr (ground arith)) (omega arith) (omega arith))
        | inr no21 ↦ elim (Bool-cases (leb 88573 a)) [
          | inl big ↦
              rw (no31, no21, big)
                (loop_from a 11 _ ha e11 (inr (ground arith)) (omega arith) (omega arith))
          | inr no11 ↦
              rw (no31, no21, no11) (loop_from a 1 _ ha e1 (inl refl) (omega arith) (omega arith))
        ]
      ]
    ])
