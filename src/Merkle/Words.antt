-- ===== src/Merkle/Words.antt =====
-- The number of binary digits, and indices, as merkle/ uses them.
use iota_go.Common.{ℕ, zero, suc, ◌+◌, ◌/◌, ◌^◌, ◌≤◌, ◌<◌, ◌≡◌, refl, List, [], ◌∷◌, length, arith}
use native.Mathlib.Nat.{one-le-pow}
use iota_go.Consts.{ok}
use iota_go.Merkle.{bits_len, index}

-- A number below 2^k has k digits at most.
pub bits_len-le : (rounds n k : ℕ) → n < 2 ^ k → bits_len rounds n ≤ k
unfolding bits_len
bits_len-le zero n k h = omega arith
bits_len-le (suc rounds) n zero h = ground arith
bits_len-le (suc rounds) n (suc k) h =
    let rest = bits_len-le rounds (n / 2) k (omega arith) in ground arith

-- A power of two.
pub bits_len-pow : (rounds k : ℕ) → k < rounds → bits_len rounds (2 ^ k) ≡ k + 1
unfolding bits_len
bits_len-pow zero k h = absurd (omega arith)
bits_len-pow (suc rounds) zero h =
    let rest = bits_len-le rounds (2 ^ 0 / 2) 0 (omega arith) in ground arith
bits_len-pow (suc rounds) (suc k) h =
    let rest = bits_len-pow rounds k (omega arith) in
    let half : 2 ^ suc k / 2 ≡ 2 ^ k = omega arith in
    rw half (ground (arith, one-le-pow k 2 (omega arith)))

pub index-exists {ℓ} :
    {A : Type ℓ} (xs : List A) (i : ℕ) → i < length xs → (x : A) × (index xs i ≡ ok x)
unfolding index
index-exists [] i h = absurd (omega arith)
index-exists (x ∷ xs) zero h = (x, refl)
index-exists (x ∷ xs) (suc i) h = index-exists xs i (omega arith)

pub index-lt {ℓ} : {A : Type ℓ} (xs : List A) (i : ℕ) {x : A} → index xs i ≡ ok x → i < length xs
unfolding index
index-lt [] i h = absurd (cc)
index-lt (x ∷ xs) zero h = omega arith
index-lt (x ∷ xs) (suc i) h = omega (arith, index-lt xs i h)

-- A number from 2^k on has more than k digits.
pub bits_len-gt : (rounds n k : ℕ) → 2 ^ k ≤ n → n < 2 ^ rounds → k < bits_len rounds n
unfolding bits_len
bits_len-gt zero n k le lt = absurd (omega (arith, one-le-pow k 2 (omega arith)))
bits_len-gt (suc rounds) n zero le lt = ground arith
bits_len-gt (suc rounds) n (suc k) le lt =
    let rest = bits_len-gt rounds (n / 2) k (omega arith) (omega arith) in
    let positive = one-le-pow k 2 (omega arith) in ground arith
