-- ===== src/Trinary/Reverse.antt =====
-- The swaps of `ReverseTrits`: from the two ends, they reverse the slice.
use mathlib.Core.List.{reverse, reverse-cons, reverse-append, append_assoc, append-nil}
use iota_go.Common.{
  ℕ, zero, suc, ◌+◌, ◌-◌, ◌≤◌, ◌≡◌, refl, ap, sym, ◌∙◌, ◌⊎◌, inl, inr, true, List, [], ◌∷◌, ◌++◌,
  some, length, length-append, get_elem?, set, ltb, lt→ltb, le→ltb, arith,
}
use iota_go.Trinary.Trits.{Trits, swap, reverse_loop, reverse_trits}

module _ {ℓ} {A : Type ℓ} where
  get_elem?-front : (xs ys : List A) (y : A) → get_elem? (xs ++ y ∷ ys) (length xs) ≡ some y
  get_elem?-front [] ys y = refl
  get_elem?-front (x ∷ xs) ys y = get_elem?-front xs ys y

  set-front : (xs ys : List A) (y z : A) → set (xs ++ y ∷ ys) (length xs) z ≡ xs ++ z ∷ ys
  set-front [] ys y z = refl
  set-front (x ∷ xs) ys y z = ap (λ t. x ∷ t) (set-front xs ys y z)

  -- The two ends of what is left, swapped.
  swap-ends :
      (front mid back : List A) (x y : A) (left right : ℕ)
      → left ≡ length front
      → right ≡ length (front ++ x ∷ mid)
      → swap (front ++ x ∷ (mid ++ y ∷ back)) left right ≡ front ++ y ∷ (mid ++ x ∷ back)
  unfolding swap
  swap-ends front mid back x y left right hl hr =
      let first : get_elem? (front ++ x ∷ (mid ++ y ∷ back)) left ≡ some x =
        ap (get_elem? (front ++ x ∷ (mid ++ y ∷ back))) hl
        ∙ get_elem?-front front (mid ++ y ∷ back) x in
      let second : get_elem? (front ++ x ∷ (mid ++ y ∷ back)) right ≡ some y =
        ap (get_elem? (front ++ x ∷ (mid ++ y ∷ back))) hr
        ∙ ap (λ t. get_elem? t (length (front ++ x ∷ mid)))
            (sym (append_assoc front (x ∷ mid) (y ∷ back)))
        ∙ get_elem?-front (front ++ x ∷ mid) back y in
      let one : set (front ++ x ∷ (mid ++ y ∷ back)) left y ≡ front ++ y ∷ (mid ++ y ∷ back) =
        ap (λ i. set (front ++ x ∷ (mid ++ y ∷ back)) i y) hl
        ∙ set-front front (mid ++ y ∷ back) x y in
      let end : right ≡ length (front ++ y ∷ mid) =
        omega (arith, hr, length-append front (x ∷ mid), length-append front (y ∷ mid)) in
      let two : set (front ++ y ∷ (mid ++ y ∷ back)) right x ≡ front ++ y ∷ (mid ++ x ∷ back) =
        ap (λ i. set (front ++ y ∷ (mid ++ y ∷ back)) i x) end
        ∙ ap (λ t. set t (length (front ++ y ∷ mid)) x)
            (sym (append_assoc front (y ∷ mid) (y ∷ back)))
        ∙ set-front (front ++ y ∷ mid) back y x
        ∙ append_assoc front (y ∷ mid) (x ∷ back) in
      rw (swap, first, second, one) two

  -- A list of two or more has two ends.
  ends_of : (x : A) (xs : List A) → (xs ≡ []) ⊎ ((mid : List A) × (y : A) × (xs ≡ mid ++ y ∷ []))
  ends_of x [] = inl refl
  ends_of x (z ∷ zs) = elim (ends_of z zs) [
    | inl e ↦ inr ([], z, ap (λ t. z ∷ t) e)
    | inr (mid, y, e) ↦ inr (z ∷ mid, y, ap (λ t. z ∷ t) e)
  ]

  reverse_loop_short :
      (rounds left right : ℕ) (xs : List A) → right ≤ left → reverse_loop rounds left right xs ≡ xs
  unfolding reverse_loop
  reverse_loop_short zero left right xs h = refl
  reverse_loop_short (suc rounds) left right xs h = rw (le→ltb left right h) refl

  reverse-ends :
      (x y : A) (mid back : List A)
      → y ∷ (reverse mid ++ x ∷ back) ≡ reverse (x ∷ (mid ++ y ∷ [])) ++ back
  reverse-ends x y mid back = sym (
      ap (λ t. t ++ back)
        (reverse-cons x (mid ++ y ∷ []) ∙ ap (λ t. t ++ x ∷ []) (reverse-append mid (y ∷ [])))
      ∙ append_assoc (reverse (y ∷ []) ++ reverse mid) (x ∷ []) back)

  pub reverse_loop_lem :
      (rounds : ℕ) (front mid back : List A) (left right : ℕ)
      → left ≡ length front
      → right ≡ left + length mid - 1
      → length mid ≤ rounds
      → reverse_loop rounds left right (front ++ (mid ++ back)) ≡ front ++ (reverse mid ++ back)
  unfolding reverse_loop
  reverse_loop_lem rounds front [] back left right hl hr fuel =
      reverse_loop_short rounds left right _ (omega (arith, hr))
  reverse_loop_lem zero front (x ∷ xs) back left right hl hr fuel = absurd (omega (arith, fuel))
  reverse_loop_lem (suc rounds) front (x ∷ xs) back left right hl hr fuel = elim (ends_of x xs) [
    | inl e ↦ rw e (reverse_loop_short (suc rounds) left right _ (omega (arith, hr, ap length e)))
    | inr (mid, y, e) ↦
        let size : length xs ≡ length mid + 1 =
          omega (arith, ap length e, length-append mid (y ∷ [])) in
        let at : front ++ (x ∷ (xs ++ back)) ≡ front ++ x ∷ (mid ++ y ∷ back) =
          ap (λ t. front ++ x ∷ t) (ap (λ t. t ++ back) e ∙ append_assoc mid (y ∷ []) back) in
        let more : ltb left right ≡ true = lt→ltb left right (omega (arith, hr, size)) in
        let swapped =
          swap-ends front mid back x y left right hl
            (omega (arith, hl, hr, size, length-append front (x ∷ mid))) in
        let rest =
          reverse_loop_lem rounds (front ++ y ∷ []) mid (x ∷ back) (left + 1) (right - 1)
            (omega (arith, hl, length-append front (y ∷ []))) (omega (arith, hr, size))
            (omega (arith, fuel, size)) in
        rw (at, more, swapped)
          (ap (reverse_loop rounds (left + 1) (right - 1))
              (sym (append_assoc front (y ∷ []) (mid ++ x ∷ back)))
            ∙ rest
            ∙ append_assoc front (y ∷ []) (reverse mid ++ x ∷ back)
            ∙ ap (λ t. front ++ t)
                (reverse-ends x y mid back ∙ ap (λ t. reverse (x ∷ t) ++ back) (sym e)))
  ]

  -- The swaps from both ends reverse a list, in as many rounds as it has elements.
  pub reverse_loop-reverse :
      (xs : List A) → reverse_loop (length xs) 0 (length xs - 1) xs ≡ reverse xs
  reverse_loop-reverse xs =
      ap (reverse_loop (length xs) 0 (length xs - 1)) (sym (append-nil xs))
      ∙ reverse_loop_lem (length xs) [] xs [] 0 (length xs - 1) refl (omega arith) (omega arith)
      ∙ append-nil (reverse xs)

-- `ReverseTrits` gives the trits in reverse, whatever their number.
pub reverse_trits-reverse : (ts : Trits) → reverse_trits ts ≡ reverse ts
unfolding reverse_trits
reverse_trits-reverse ts = reverse_loop-reverse ts
