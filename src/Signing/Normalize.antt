-- ===== src/Signing/Normalize.antt =====
-- The normalised hash: every fragment sums to zero, and its values stay tryte values.
use iota_go.Common.{
  take-append-drop, ◌∙◌, ℕ, zero, suc, ◌+◌, ◌*◌, ◌≤◌, ◌<◌, ◌≡◌, refl, true, false, List, [], ◌∷◌,
  ◌++◌, arith, ltb, length, take_front, drop_front, length-append, length-take, length-drop, take,
  drop, ℤ, pos, negsuc, pos_part, neg_part, ◌+ℤ◌, ◌-ℤ◌, ltb_ℤ, int8, int8_id, ints, ltb→lt,
  ≤ℤ_total, Bool-cases, inl, inr, ap,
}
use iota_go.Consts.{ok}
use iota_go.Trinary.Tryte.Values.{InTryte}
use iota_go.Trinary.Number.Digits.{AllInTryte}
use iota_go.Trinary.Tryte.Values.{valid_char, char_value}
use iota_go.Trinary.Convert.{Trytes}
use iota_go.Trinary.Convert.RoundTrip.{AreTrytes}
use iota_go.Signing.{
  trytes_to_tryte_values, normalized_bundle_hash, sum, normalize_loop, normalize_hash_fragment,
  normalize_fragments,
}

-- a ≤ b, between integers
abbrev Le : ℤ → ℤ → Type 0
Le a b = pos_part a + neg_part b ≤ pos_part b + neg_part a

-- The values sum to `total`, and are tryte values, as many as n.
pub record IsNormal (n : ℕ) (total : ℤ) (xs : List ℤ) : Type 0 where
  pub size : length xs ≡ n
  pub ranged : AllInTryte xs
  pub total_lem : sum xs ≡ total

lt_of_test : (a b : ℤ) → ltb_ℤ a b ≡ true → pos_part a + neg_part b < pos_part b + neg_part a
lt_of_test a b h = ltb→lt _ _ h

le_of_test : (a b : ℤ) → ltb_ℤ a b ≡ false → Le b a
le_of_test a b h = ground arith

InTryte-of : (z : ℤ) → Le (negsuc 12) z → Le z (pos 13) → InTryte z
InTryte-of (pos n) lo hi = omega arith
InTryte-of (negsuc n) lo hi = omega arith

int8-InTryte : (z : ℤ) → InTryte z → int8 z ≡ z
int8-InTryte z h = int8_id z (omega arith)

IsNormal-cons :
    {n : ℕ} {t : ℤ} {xs : List ℤ} (x total : ℤ)
    → InTryte x
    → IsNormal n t xs
    → x +ℤ t ≡ total
    → IsNormal (suc n) total (x ∷ xs)
unfolding sum
IsNormal-cons x total hx h e = record {
  size = ap suc h.size;
  ranged = (hx, h.ranged);
  total_lem = rw h.total_lem e;
}

-- The value at which the loop ends.
IsNormal-end :
    (x e : ℤ) (xs : List ℤ)
    → AllInTryte xs
    → Le (negsuc 12) (x -ℤ e)
    → Le (x -ℤ e) (pos 13)
    → IsNormal (suc (length xs)) (x +ℤ sum xs -ℤ e) (int8 (x -ℤ e) ∷ xs)
IsNormal-end x e xs hs lo hi =
    let r = InTryte-of (x -ℤ e) lo hi in
    rw (int8-InTryte (x -ℤ e) r) (
      IsNormal-cons (x -ℤ e) _ r (record { size = refl; ranged = hs; total_lem = refl })
        (omega ints))

-- An excess between 0 and the sum is taken off.
normalize_down :
    (xs : List ℤ) (e : ℤ)
    → AllInTryte xs
    → Le (pos 0) e
    → Le e (sum xs)
    → IsNormal (length xs) (sum xs -ℤ e) (normalize_loop xs e)
unfolding sum normalize_loop
normalize_down [] e h lo hi = record { size = refl; ranged = tt; total_lem = omega ints }
normalize_down (x ∷ xs) e (hx, hs) lo hi = elim (Bool-cases (ltb_ℤ (x -ℤ e) (negsuc 12))) [
  | inl cut ↦
      let c = lt_of_test (x -ℤ e) (negsuc 12) cut in
      rw cut (
        IsNormal-cons (negsuc 12) _ (omega arith)
          (normalize_down xs (negsuc 12 -ℤ (x -ℤ e)) hs (omega ints) (omega ints)) (omega ints))
  | inr keep ↦ elim (Bool-cases (ltb_ℤ (pos 13) (x -ℤ e))) [
    | inl high ↦ absurd (omega (ints, lt_of_test (pos 13) (x -ℤ e) high))
    | inr fits ↦
        rw (keep, fits)
          (IsNormal-end x e xs hs (le_of_test (x -ℤ e) (negsuc 12) keep)
            (le_of_test (pos 13) (x -ℤ e) fits))
  ]
]

-- An excess between the sum and 0 is added.
normalize_up :
    (xs : List ℤ) (e : ℤ)
    → AllInTryte xs
    → Le e (pos 0)
    → Le (sum xs) e
    → IsNormal (length xs) (sum xs -ℤ e) (normalize_loop xs e)
unfolding sum normalize_loop
normalize_up [] e h lo hi = record { size = refl; ranged = tt; total_lem = omega ints }
normalize_up (x ∷ xs) e (hx, hs) lo hi = elim (Bool-cases (ltb_ℤ (x -ℤ e) (negsuc 12))) [
  | inl cut ↦ absurd (omega (ints, lt_of_test (x -ℤ e) (negsuc 12) cut))
  | inr keep ↦ elim (Bool-cases (ltb_ℤ (pos 13) (x -ℤ e))) [
    | inl high ↦
        let c = lt_of_test (pos 13) (x -ℤ e) high in
        rw (keep, high)
          (IsNormal-cons (pos 13) _ (omega arith)
            (normalize_up xs (pos 13 -ℤ (x -ℤ e)) hs (omega ints) (omega ints)) (omega ints))
    | inr fits ↦
        rw (keep, fits)
          (IsNormal-end x e xs hs (le_of_test (x -ℤ e) (negsuc 12) keep)
            (le_of_test (pos 13) (x -ℤ e) fits))
  ]
]

-- A normalised fragment of tryte values sums to zero, and its values are tryte values, as many as
-- before: no value is cut off at the bounds without the rest making up for it.
pub normalize_hash_fragment-IsNormal :
    (xs : List ℤ) → AllInTryte xs → IsNormal (length xs) (pos 0) (normalize_hash_fragment xs)
unfolding normalize_hash_fragment
normalize_hash_fragment-IsNormal xs h = rw (← zero_left) (elim (≤ℤ_total (pos 0) (sum xs)) [
  | inl up ↦ normalize_down xs (sum xs) h up (omega arith)
  | inr down ↦ normalize_up xs (sum xs) h down (omega arith)
])
  where
    zero_left : sum xs -ℤ sum xs ≡ pos 0
    zero_left = omega ints

pub AllInTryte-take : (n : ℕ) (xs : List ℤ) → AllInTryte xs → AllInTryte (take n xs)
AllInTryte-take zero xs h = tt
AllInTryte-take (suc n) [] h = tt
AllInTryte-take (suc n) (x ∷ xs) (hx, hs) = (hx, AllInTryte-take n xs hs)

pub AllInTryte-drop : (n : ℕ) (xs : List ℤ) → AllInTryte xs → AllInTryte (drop n xs)
AllInTryte-drop zero xs h = h
AllInTryte-drop (suc n) [] h = tt
AllInTryte-drop (suc n) (x ∷ xs) (hx, hs) = AllInTryte-drop n xs hs

-- Each of the first n fragments of 27 values is normal.
abbrev pub AreNormal : ℕ → List ℤ → Type 0
AreNormal zero xs = Unit
AreNormal (suc n) xs = IsNormal 27 (pos 0) (take 27 xs) × AreNormal n (drop 27 xs)

fragments_normal :
    (n : ℕ) (values : List ℤ)
    → AllInTryte values
    → 27 * n ≤ length values
    → (out : List ℤ) × (normalize_fragments n values ≡ ok out)
      × AreNormal n out
      × (length out ≡ length values)
unfolding normalize_fragments
fragments_normal zero values h l = (values, refl, tt, refl)
fragments_normal (suc n) values h l =
    let (rest, e, normal, len) =
      fragments_normal n (drop 27 values) (AllInTryte-drop 27 values h)
        (omega (arith, length-drop 27 values)) in
    let front = normalize_hash_fragment-IsNormal (take 27 values) (AllInTryte-take 27 values h) in
    let size : length (normalize_hash_fragment (take 27 values)) ≡ 27 =
      omega (arith, front.size, length-take 27 values) in
    let long : ltb (length values) 27 ≡ false = ground arith in
    (
      normalize_hash_fragment (take 27 values) ++ rest,
      rw (long, e),
      (
        rw (take_front _ rest 27 size)
            (record { size = size; ranged = front.ranged; total_lem = front.total_lem }),
        rw (drop_front _ rest 27 size) normal,
      ),
      omega (
        arith,
        size,
        len,
        length-append (normalize_hash_fragment (take 27 values)) rest,
        length-drop 27 values,
      ),
    )

values_in_range :
    (ts : Trytes)
    → AreTrytes ts
    → (vs : List ℤ) × (trytes_to_tryte_values ts ≡ ok vs) × AllInTryte vs × (length vs ≡ length ts)
unfolding trytes_to_tryte_values
values_in_range [] h = ([], refl, tt, refl)
values_in_range (t ∷ ts) (ht, hs) =
    let (vs, e, r, l) = values_in_range ts hs in
    let (v, i, back) = valid_char t ht in (char_value t ∷ vs, rw (v, e), (i, r), ap suc l)

-- The normalised hash of 81 valid trytes: 81 values, and each third of them sums to zero within the
-- range of a tryte.
pub normalized_bundle_hash-AreNormal :
    (hash : Trytes)
    → AreTrytes hash
    → length hash ≡ 81
    → (values : List ℤ) × (normalized_bundle_hash hash ≡ ok values)
      × AreNormal 3 values
      × (length values ≡ 81)
unfolding normalized_bundle_hash
normalized_bundle_hash-AreNormal hash h l =
    let (vs, e, r, len) = values_in_range hash h in
    let (out, e', normal, len') = fragments_normal 3 vs r (omega arith) in
    (out, rw (e, e'), normal, omega arith)

AllInTryte-append : (xs ys : List ℤ) → AllInTryte xs → AllInTryte ys → AllInTryte (xs ++ ys)
AllInTryte-append [] ys hx hy = hy
AllInTryte-append (x ∷ xs) ys (h, hx) hy = (h, AllInTryte-append xs ys hx hy)

pub AreNormal-AllInTryte :
    (n : ℕ) (xs : List ℤ) → AreNormal n xs → length xs ≡ n * 27 → AllInTryte xs
AreNormal-AllInTryte zero [] h l = tt
AreNormal-AllInTryte zero (x ∷ xs) h l = absurd (omega arith)
AreNormal-AllInTryte (suc n) xs (h, hs) l =
    let rest = AreNormal-AllInTryte n (drop 27 xs) hs (length-drop 27 xs ∙ omega arith) in
    rw (← take-append-drop 27 xs) (AllInTryte-append (take 27 xs) (drop 27 xs) h.ranged rest)
