-- ===== src/Trinary/Trits.antt =====
-- trinary/trinary.go: slices of trits. A trit is an int8, so a slice may hold other values too.
use iota_go.Common.{
  ℕ, zero, suc, ◌+◌, ◌-◌, ◌%◌, Bool, true, false, ◌&&◌, not, List, [], ◌∷◌, ◌++◌, ltb, leb, ◌==◌,
  if◌then◌else◌, length, is_empty, replicate, get_elem?, set, none, some, ℤ, pos, eqb_ℤ, pos_part,
  neg_part,
}
use mathlib.Core.List.{reverse}
use iota_go.Consts.{Result, ok, err, invalid_trit, ◌>>◌, trits_per_tryte, hash_trinary_size}

abbrev pub Trits : Type 0
Trits = List ℤ

-- t >= -1 && t <= 1
unfoldable pub valid_trit : ℤ → Bool
valid_trit t = leb (neg_part t) 1 && leb (pos_part t) 1

-- The loop of `ValidTrits`.
unfoldable pub all_valid_trits : Trits → Result (Unit {0})
all_valid_trits [] = ok tt
all_valid_trits (t ∷ ts) = if not (valid_trit t) then err invalid_trit else all_valid_trits ts

unfoldable pub valid_trits : Trits → Result (Unit {0})
valid_trits trits = if is_empty trits then err invalid_trit else all_valid_trits trits

unfoldable pub new_trits : Trits → Result Trits
unfolding valid_trits
new_trits t = do valid_trits t; ok t

unfoldable pub same_trits : Trits → Trits → Bool
same_trits [] bs = true
same_trits (a ∷ xs) [] = true
same_trits (a ∷ xs) (b ∷ bs) = if not (eqb_ℤ a b) then false else same_trits xs bs

unfoldable pub trits_equal : Trits → Trits → Result Bool
unfolding valid_trits same_trits
trits_equal a b = do
  valid_trits a
  valid_trits b
  if not (length a == length b) then ok false else ok (same_trits a b)

-- The swaps of `ReverseTrits`, at the positions `left` and `right`; `rounds` bounds the loop.
unfoldable pub swap {ℓ} : {A : Type ℓ} → List A → ℕ → ℕ → List A
swap xs i j = elim (get_elem? xs i) [
  | none ↦ xs
  | some a ↦ elim (get_elem? xs j) [ none ↦ xs | some b ↦ set (set xs i b) j a ]
]

unfoldable pub reverse_loop {ℓ} : {A : Type ℓ} → ℕ → ℕ → ℕ → List A → List A
unfolding swap
reverse_loop zero left right xs = xs
reverse_loop (suc rounds) left right xs =
    let rest = reverse_loop rounds (left + 1) (right - 1) (swap xs left right) in
    if ltb left right then rest else xs

-- On the empty slice the loop starts at 0 and -1 and makes no round, as it does here at 0 and 0.
unfoldable pub reverse_trits : Trits → Trits
unfolding reverse_loop
reverse_trits trits = reverse_loop (length trits) 0 (length trits - 1) trits

-- The number of zeros at the end: the loop runs from the last index down.
unfoldable pub leading_zeros : Trits → ℕ
leading_zeros [] = 0
leading_zeros (t ∷ ts) = let rest = leading_zeros ts in if eqb_ℤ t (pos 0) then rest + 1 else 0

abbrev pub can_trits_to_trytes : Trits → Bool
can_trits_to_trytes trits = if is_empty trits then false else length trits % trits_per_tryte == 0

abbrev pub can_be_hash : Trits → Bool
can_be_hash trits = length trits == hash_trinary_size

unfoldable pub must_pad_trits : Trits → ℕ → Trits
must_pad_trits trits n =
    if leb n (length trits) then trits else trits ++ replicate (n - length trits) (pos 0)

unfoldable pub pad_trits : Trits → ℕ → Result Trits
unfolding valid_trits must_pad_trits
pad_trits trits n = do
  if is_empty trits then ok tt else valid_trits trits
  ok (must_pad_trits trits n)

unfoldable pub trailing_zeros : Trits → ℕ
unfolding leading_zeros
trailing_zeros trits = leading_zeros (reverse trits)
