-- ===== src/Bundle/Entries.antt =====
-- The indices and the values of the transactions that entries are made of.
use iota_go.Common.{
  ℕ, zero, suc, ◌+◌, ◌-◌, ◌%◌, ◌^◌, ◌≤◌, ◌≡◌, refl, ap, ◌∙◌, ◌⊎◌, inl, inr, List, [], ◌∷◌, ◌++◌,
  map, length, length-append, length-map, replicate, length-replicate, ◌==◌, eq→==, pos→==,
  is_empty, if◌then◌else◌, arith, ints, ℤ, pos, ◌+ℤ◌, ◌-ℤ◌, uint64, neg,
}
use mathlib.Core.Path.{subst}
use iota_go.Consts.{ok}
use iota_go.Trinary.Convert.{Trytes, must_pad}
use iota_go.Bundle.{
  Bundle, BundleEntry, get_bundle_entry_with_defaults, entry_transaction, entry_loop, add_entry,
  with_last_index, null_fragment,
}

-- Current indices from i on, and one last index for all.
abbrev pub Numbered : ℕ → ℕ → Bundle → Type 0
Numbered i last [] = Unit
Numbered i last (t ∷ txs) =
    (t.current_index ≡ i) × (t.last_index ≡ last) × Numbered (i + 1) last txs

-- A bundle whose indices are those of its places.
unfoldable pub IsNumbered : Bundle → Type 0
IsNumbered txs = Numbered 0 (length txs - 1) txs

unfoldable pub sum_values : Bundle → ℤ
sum_values [] = pos 0
sum_values (t ∷ txs) = t.value +ℤ sum_values txs

Numbered-append :
    (i j last : ℕ) (xs ys : Bundle)
    → j ≡ i + length xs
    → Numbered i last xs
    → Numbered j last ys
    → Numbered i last (xs ++ ys)
Numbered-append i j last [] ys h n m = subst (λ k. Numbered k last ys) (h ∙ (omega arith)) m
Numbered-append i j last (x ∷ xs) ys h (a, b, n) m =
    (a, b, Numbered-append (i + 1) j last xs ys (omega (arith, h)) n m)

Numbered-map :
    (i old last : ℕ) (xs : Bundle)
    → Numbered i old xs
    → Numbered i last (map (with_last_index last) xs)
unfolding with_last_index
Numbered-map i old last [] n = tt
Numbered-map i old last (x ∷ xs) (a, b, n) = (a, refl, Numbered-map (i + 1) old last xs n)

sum_values-map :
    (last : ℕ) (xs : Bundle) → sum_values (map (with_last_index last) xs) ≡ sum_values xs
unfolding sum_values with_last_index
sum_values-map last [] = refl
sum_values-map last (x ∷ xs) = ap (λ z. x.value +ℤ z) (sum_values-map last xs)

sum_values-append : (xs ys : Bundle) → sum_values (xs ++ ys) ≡ sum_values xs +ℤ sum_values ys
unfolding sum_values
sum_values-append [] ys = omega ints
sum_values-append (x ∷ xs) ys = rw (sum_values-append xs ys) (omega ints)

module _ (e : BundleEntry) (prev last : ℕ) where
  record Added (n i : ℕ) (out : Bundle) : Type 0 where
    numbered : Numbered (prev + i) last out
    size : length out ≡ n
    worthless : 1 ≤ i → sum_values out ≡ pos 0
    worth : i ≡ 0 → 1 ≤ n → sum_values out ≡ e.entry_value

  entry_loop-Added :
      (n i : ℕ) (frags : List Trytes)
      → n ≤ length frags
      → prev + i + n ≤ 2 ^ 64
      → (out : Bundle) × (entry_loop e prev last n i frags ≡ ok out) × Added n i out
  unfolding entry_loop entry_transaction sum_values
  entry_loop-Added zero i frags enough room = (
    [],
    refl,
    record {
      numbered = tt;
      size = refl;
      worthless = λ h. refl;
      worth = λ h k. absurd (omega (arith, k));
    },
  )
  entry_loop-Added (suc n) i [] enough room = absurd (omega (arith, enough))
  entry_loop-Added (suc n) i (f ∷ frags) enough room =
      let (rest, run, added) =
        entry_loop-Added n (i + 1) frags (omega (arith, enough)) (omega (arith, room)) in
      (
        entry_transaction e prev last i f ∷ rest,
        rw run refl,
        record {
          numbered = (
            omega (arith, room),
            refl,
            subst (λ k. Numbered k last rest) {x = prev + (i + 1)} {y = prev + i + 1} (omega arith)
                (added.numbered),
          );
          size = ap suc (added.size);
          worthless = λ h.
              rw (pos→== i h) (ap (λ z. pos 0 +ℤ z) (added.worthless (omega arith)) ∙ omega ints);
          worth = λ h k.
              rw (eq→== i 0 h)
                (ap (λ z. e.entry_value +ℤ z) (added.worthless (omega arith)) ∙ omega ints);
        },
      )

last_index_lem :
    (n count : ℕ)
    → 1 ≤ count
    → n + count ≤ 2 ^ 63
    → (uint64 (pos n -ℤ pos 1) + count) % 2 ^ 64 ≡ n + count - 1
unfolding uint64 ◌-ℤ◌ ◌+ℤ◌ neg
last_index_lem n count some_count room = ground arith

-- The transactions that an entry asks for: one at least.
unfoldable pub count_of : BundleEntry → ℕ
count_of entry = if entry.entry_length == 0 then 1 else entry.entry_length

count_of_pos : (entry : BundleEntry) → 1 ≤ count_of entry
unfolding count_of
count_of_pos entry = ground arith

fragments_enough :
    (now : ℕ) (entry : BundleEntry)
    → (entry.fragments ≡ []) ⊎ (count_of entry ≤ length (entry.fragments))
    → count_of entry ≤ length ((get_bundle_entry_with_defaults now entry).fragments)
unfolding get_bundle_entry_with_defaults count_of
fragments_enough now entry (inl absent) =
    rw absent (omega (arith, length-replicate (count_of entry) null_fragment))
fragments_enough now entry (inr enough) = padded (entry.fragments) enough
  where
    padded :
        (frags : List Trytes)
        → count_of entry ≤ length frags
        → count_of entry
          ≤ length (
              if is_empty frags
              then replicate (count_of entry) null_fragment
              else map (λ f. must_pad f 2187) frags)
    padded [] few = omega (arith, few, length-replicate (count_of entry) null_fragment)
    padded (f ∷ frags) few = omega (arith, few, length-map frags (λ f. must_pad f 2187))

-- An entry is added to a bundle whose indices are those of its places, where it has no fragments or
-- one for each of its transactions at least, and the length stays below 2^63: the result is such a
-- bundle, longer by the length of the entry (1 for 0), and its values sum up to those before and the
-- value of the entry.
pub add_entry-IsNumbered :
    (now : ℕ) (txs : Bundle) (entry : BundleEntry)
    → IsNumbered txs
    → (entry.fragments ≡ []) ⊎ (count_of entry ≤ length (entry.fragments))
    → length txs + count_of entry ≤ 2 ^ 63
    → (out : Bundle) × (add_entry now txs entry ≡ ok out)
      × (length out ≡ length txs + count_of entry)
      × IsNumbered out
      × (sum_values out ≡ sum_values txs +ℤ entry.entry_value)
unfolding add_entry IsNumbered get_bundle_entry_with_defaults count_of
add_entry-IsNumbered now txs entry numbered enough room =
    let e = get_bundle_entry_with_defaults now entry in
    let count = count_of entry in
    let last = (uint64 (pos (length txs) -ℤ pos 1) + count) % 2 ^ 64 in
    let last_is : last ≡ length txs + count - 1 =
      last_index_lem (length txs) count (count_of_pos entry) room in
    let (added, run, a) =
      entry_loop-Added e (length txs) last count 0 (e.fragments) (fragments_enough now entry enough)
        (omega (arith, room)) in
    let front = map (with_last_index last) txs in
    let len : length (front ++ added) ≡ length txs + count =
      omega (arith, length-append front added, length-map txs (with_last_index last), a.size) in
    let all : Numbered 0 last (front ++ added) =
      Numbered-append 0 (length txs + 0) last front added
        (omega (arith, length-map txs (with_last_index last)))
        (Numbered-map 0 (length txs - 1) last txs numbered) (a.numbered) in
    (
      front ++ added,
      rw run refl,
      len,
      subst (λ l. Numbered 0 l (front ++ added)) (last_is ∙ omega (arith, len)) all,
      sum_values-append front added
          ∙ ap (λ z. z +ℤ sum_values added) (sum_values-map last txs)
          ∙ ap (λ z. sum_values txs +ℤ z) (a.worth refl (count_of_pos entry)),
    )
