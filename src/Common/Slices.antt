-- ===== src/Common/Slices.antt =====
-- Slices of slices, Go's `copy`, and slices that are laid out in fields of given sizes.
use Prim.Native.Nat.{ℕ, zero, suc, ◌+◌, ◌-◌, ◌≤◌}
use mathlib.Core.Path.{◌≡◌, refl, ap, sym, ◌∙◌}
use mathlib.Core.List.{List, [], ◌∷◌, ◌++◌, append_assoc, append-nil}
use native.Mathlib.Omega.{arith}
use iota_go.Common.Lists.{
  length, take, drop, replicate, length-append, length-replicate, take_front, drop_front, drop-drop,
  drop-take, take-take, take-append-drop, length-drop,
}

module _ {ℓ} {A : Type ℓ} where
  -- xs[i:i+n]
  unfoldable pub slice : ℕ → ℕ → List A → List A
  slice i n xs = take n (drop i xs)

  -- copy(dst, src): as many elements as both have.
  unfoldable pub copy : List A → List A → List A
  copy [] src = []
  copy (d ∷ dst) [] = d ∷ dst
  copy (d ∷ dst) (s ∷ src) = s ∷ copy dst src

  -- copy(dst[i:], src), for i up to the length of dst.
  unfoldable pub copy_at : ℕ → List A → List A → List A
  unfolding copy
  copy_at zero dst src = copy dst src
  copy_at (suc i) [] src = []
  copy_at (suc i) (d ∷ dst) src = d ∷ copy_at i dst src

  replicate_eq : (a : A) {m n : ℕ} → m ≡ n → replicate m a ≡ replicate n a
  replicate_eq a same = ap (λ n. replicate n a) same

  copy-replicate :
      (a : A) (src : List A) (n : ℕ)
      → length src ≤ n
      → copy (replicate n a) src ≡ src ++ replicate (n - length src) a
  unfolding copy
  copy-replicate a [] zero h = refl
  copy-replicate a [] (suc n) h = replicate_eq a {m = suc n} {n = suc n - 0} (omega arith)
  copy-replicate a (s ∷ src) zero h = absurd (omega arith)
  copy-replicate a (s ∷ src) (suc n) h =
      ap (λ xs. s ∷ xs)
        (copy-replicate a src n (omega arith)
          ∙ ap (λ xs. src ++ xs)
              (replicate_eq a {m = n - length src} {n = suc n - suc (length src)} (omega arith)))

  copy_at-front :
      (front back src : List A)
      → copy_at (length front) (front ++ back) src ≡ front ++ copy back src
  unfolding copy_at
  copy_at-front [] back src = refl
  copy_at-front (x ∷ front) back src = ap (λ xs. x ∷ xs) (copy_at-front front back src)

  replicate-append : (a : A) (m n : ℕ) → replicate m a ++ replicate n a ≡ replicate (m + n) a
  replicate-append a zero n = replicate_eq a {m = n} {n = 0 + n} (omega arith)
  replicate-append a (suc m) n =
      ap (λ xs. a ∷ xs) (replicate-append a m n)
      ∙ replicate_eq a {m = suc (m + n)} {n = suc m + n} (omega arith)

  -- src in a field of n elements, filled up with a.
  unfoldable pub field : A → ℕ → List A → List A
  field a n src = src ++ replicate (n - length src) a

  pub length-field : (a : A) (n : ℕ) (src : List A) → length src ≤ n → length (field a n src) ≡ n
  unfolding field
  length-field a n src h =
      omega (
        arith,
        length-append src (replicate (n - length src) a),
        length-replicate (n - length src) a,
      )

  -- A copy into what is still a's, at the end of what is written.
  copy_at-field :
      (a : A) (front src : List A) (off size rest : ℕ)
      → length front ≡ off
      → length src ≤ size
      → copy_at off (front ++ replicate (size + rest) a) src
        ≡ (front ++ field a size src) ++ replicate rest a
  unfolding field
  copy_at-field a front src off size rest at fits = rw (sym at) (
      copy_at-front front _ src
      ∙ ap (λ xs. front ++ xs)
          (copy-replicate a src (size + rest) (omega arith)
            ∙ ap (λ xs. src ++ xs) split
            ∙ sym (append_assoc src _ _))
      ∙ sym (append_assoc front _ _))
    where
      split :
          replicate (size + rest - length src) a
          ≡ replicate (size - length src) a ++ replicate rest a
      split =
          replicate_eq a {m = size + rest - length src} {n = size - length src + rest} (omega arith)
          ∙ sym (replicate-append a (size - length src) rest)

  -- Fields in a row, each with its size: where one begins, and what it holds.
  abbrev pub total : List (ℕ × List A) → ℕ
  total [] = 0
  total ((size, src) ∷ fs) = size + total fs

  unfoldable pub row : A → List (ℕ × List A) → List A
  unfolding field
  row a [] = []
  row a ((size, src) ∷ fs) = field a size src ++ row a fs

  abbrev pub Fit : List (ℕ × List A) → Type 0
  Fit [] = Unit
  Fit ((size, src) ∷ fs) = (length src ≤ size) × Fit fs

  -- The copies that fill the fields, one after another.
  abbrev pub write_row : ℕ → List (ℕ × List A) → List A → List A
  write_row off [] xs = xs
  write_row off ((size, src) ∷ fs) xs = write_row (off + size) fs (copy_at off xs src)

  pub write_row-row :
      (a : A) (fs : List (ℕ × List A)) (front : List A) (off n : ℕ)
      → Fit fs
      → length front ≡ off
      → n ≡ total fs
      → write_row off fs (front ++ replicate n a) ≡ front ++ row a fs
  unfolding row
  write_row-row a [] front off n fit at whole = rw whole refl
  write_row-row a ((size, src) ∷ fs) front off n (fits, fit) at whole =
      rw (whole, copy_at-field a front src off size (total fs) at fits)
        (write_row-row a fs (front ++ field a size src) (off + size) (total fs) fit
            (omega (arith, length-append front (field a size src), length-field a size src fits))
            refl
          ∙ append_assoc front _ _)

  abbrev pub offset_at : ℕ → List (ℕ × List A) → ℕ
  offset_at i [] = 0
  offset_at zero (f ∷ fs) = 0
  offset_at (suc i) (f ∷ fs) = f.0 + offset_at i fs

  abbrev pub size_at : ℕ → List (ℕ × List A) → ℕ
  size_at i [] = 0
  size_at zero (f ∷ fs) = f.0
  size_at (suc i) (f ∷ fs) = size_at i fs

  abbrev pub held_at : A → ℕ → List (ℕ × List A) → List A
  held_at a i [] = []
  held_at a zero (f ∷ fs) = field a (f.0) (f.1)
  held_at a (suc i) (f ∷ fs) = held_at a i fs

  drop_past :
      (size off : ℕ) (xs ys : List A)
      → length xs ≡ size
      → drop (size + off) (xs ++ ys) ≡ drop off ys
  drop_past size off xs ys h =
      sym (drop-drop off size (size + off) (xs ++ ys) refl)
      ∙ ap (drop off) (drop_front xs ys size h)

  pub slice-row :
      (a : A) (fs : List (ℕ × List A)) (i : ℕ)
      → Fit fs
      → slice (offset_at i fs) (size_at i fs) (row a fs) ≡ held_at a i fs
  unfolding row slice
  slice-row a [] i fit = refl
  slice-row a ((size, src) ∷ fs) zero (fits, fit) =
      take_front _ _ size (length-field a size src fits)
  slice-row a ((size, src) ∷ fs) (suc i) (fits, fit) =
      ap (take (size_at i fs)) (drop_past size (offset_at i fs) _ _ (length-field a size src fits))
      ∙ slice-row a fs i fit

  pub length-row : (a : A) (fs : List (ℕ × List A)) → Fit fs → length (row a fs) ≡ total fs
  unfolding row
  length-row a [] fit = refl
  length-row a ((size, src) ∷ fs) (fits, fit) = omega (
    arith,
    length-append (field a size src) (row a fs),
    length-field a size src fits,
    length-row a fs fit,
  )

  -- A part of a slice, and the two parts of a field that holds more than it needs.
  pub slice-slice :
      (i n j m k : ℕ) (xs : List A)
      → m ≡ i + n
      → k ≡ j + i
      → slice i n (slice j m xs) ≡ slice k n xs
  unfolding slice
  slice-slice i n j m k xs h at =
      ap (take n) (drop-take i m n (drop j xs) h)
      ∙ take-take n n (drop i (drop j xs)) (omega arith)
      ∙ ap (take n) (drop-drop i j k xs at)

  pub field_split :
      (a : A) (m n : ℕ) (src : List A)
      → length src ≤ m
      → field a (m + n) src ≡ field a m src ++ replicate n a
  unfolding field
  field_split a m n src h =
      ap (λ xs. src ++ xs)
        (replicate_eq a {m = m + n - length src} {n = m - length src + n} (omega arith)
          ∙ sym (replicate-append a (m - length src) n))
      ∙ sym (append_assoc src _ _)

  pub slice-back :
      (a : A) (m n : ℕ) (xs : List A)
      → length xs ≡ m
      → slice m n (xs ++ replicate n a) ≡ replicate n a
  unfolding slice
  slice-back a m n xs h =
      ap (take n) (drop_front xs (replicate n a) m h)
      ∙ ap (take n) (sym (append-nil (replicate n a)))
      ∙ take_front (replicate n a) [] n (length-replicate n a)

  take_parts : (m n : ℕ) (xs : List A) → take m xs ++ take n (drop m xs) ≡ take (m + n) xs
  take_parts m n xs =
      ap (λ ys. ys ++ take n (drop m xs)) (sym (take-take m (m + n) xs (omega arith)))
      ∙ ap (λ ys. take m (take (m + n) xs) ++ ys) (sym (drop-take m (m + n) n xs refl))
      ∙ take-append-drop m (take (m + n) xs)

  -- A slice that holds what each field holds is the row of the fields.
  abbrev pub Holds : A → ℕ → List (ℕ × List A) → List A → Type ℓ
  Holds a off [] xs = Unit
  Holds a off ((size, src) ∷ fs) xs =
      (field a size src ≡ slice off size xs) × Holds a (off + size) fs xs

  pub row-Holds :
      (a : A) (fs : List (ℕ × List A)) (xs : List A) (off : ℕ)
      → length xs ≡ off + total fs
      → Holds a off fs xs
      → row a fs ≡ drop off xs
  unfolding row slice
  row-Holds a [] xs off whole h =
      let none_left : length (drop off xs) ≡ 0 = omega (arith, length-drop off xs, whole) in
      sym (empty (drop off xs) none_left)
    where
      empty : (ys : List A) → length ys ≡ 0 → ys ≡ []
      empty [] e = refl
      empty (y ∷ ys) e = absurd (omega (arith, e))
  row-Holds a ((size, src) ∷ fs) xs off whole (h, hs) =
      ap (λ ys. ys ++ row a fs) h
      ∙ ap (λ ys. take size (drop off xs) ++ ys)
          (row-Holds a fs xs (off + size) (omega (arith, whole)) hs
            ∙ sym (drop-drop size off (off + size) xs refl))
      ∙ take-append-drop size (drop off xs)

  pub slice-append :
      (i m n : ℕ) (xs : List A) → slice i m xs ++ slice (i + m) n xs ≡ slice i (m + n) xs
  unfolding slice
  slice-append i m n xs =
      ap (λ ys. take m (drop i xs) ++ take n ys) (sym (drop-drop m i (i + m) xs refl))
      ∙ take_parts m n (drop i xs)
