-- ===== src/Signing/Segments.antt =====
-- Slices of whole segments: each is a hash as Kerl gives it, 243 valid trits of which the last is 0.
use iota_go.Common.{
  ℕ, zero, suc, ◌+◌, ◌*◌, ◌≡◌, refl, ap, ◌∙◌, [], ◌∷◌, ◌++◌, length, take, drop, arith,
  take-append-drop, take-take, drop-take, drop-drop, length-append, take_front, drop_front,
}
use iota_go.Consts.{hash_trinary_size}
use iota_go.Trinary.Trits.{Trits}
use iota_go.Trinary.Convert.RoundTrip.{AllTrits}
use iota_go.Signing.{clear_trits}

pub record IsHash (ts : Trits) : Type 0 where
  pub size : length ts ≡ hash_trinary_size
  pub valid : AllTrits ts
  pub cleared : clear_trits 242 ts ≡ ts

abbrev pub AreSegments : ℕ → Trits → Type 0
AreSegments zero ts = ts ≡ []
AreSegments (suc n) ts =
    IsHash (take hash_trinary_size ts) × AreSegments n (drop hash_trinary_size ts)

pub AllTrits-append : (xs ys : Trits) → AllTrits xs → AllTrits ys → AllTrits (xs ++ ys)
AllTrits-append [] ys hx hy = hy
AllTrits-append (x ∷ xs) ys (h, hx) hy = (h, AllTrits-append xs ys hx hy)

clear_trits-append :
    (n : ℕ) (xs ys : Trits)
    → length xs ≡ suc n
    → clear_trits n (xs ++ ys) ≡ clear_trits n xs ++ clear_trits 242 ys
unfolding clear_trits
clear_trits-append n [] ys h = absurd (omega arith)
clear_trits-append zero (x ∷ []) ys h = refl
clear_trits-append zero (x ∷ y ∷ xs) ys h = absurd (omega arith)
clear_trits-append (suc n) (x ∷ xs) ys h =
    ap (λ r. x ∷ r) (clear_trits-append n xs ys (omega arith))

-- What segments are together: as many trits, all valid, with nothing to clear.
pub record IsKey (n : ℕ) (ts : Trits) : Type 0 where
  pub size : length ts ≡ n * hash_trinary_size
  pub valid : AllTrits ts
  pub cleared : clear_trits 242 ts ≡ ts

pub AreSegments-IsKey : (n : ℕ) (ts : Trits) → AreSegments n ts → IsKey n ts
AreSegments-IsKey zero ts h =
    rw h (record { size = refl; valid = tt; cleared = unfold clear_trits in refl })
AreSegments-IsKey (suc n) ts (h, hs) =
    let k = AreSegments-IsKey n (drop hash_trinary_size ts) hs in
    let whole = take-append-drop hash_trinary_size ts in
    rw (← whole) (record {
      size = length-append (take hash_trinary_size ts) _ ∙ omega (arith, h.size, k.size);
      valid = AllTrits-append (take hash_trinary_size ts) _ h.valid k.valid;
      cleared =
          clear_trits-append 242 (take hash_trinary_size ts) _ h.size
          ∙ ap (λ r. r ++ clear_trits 242 (drop hash_trinary_size ts)) h.cleared
          ∙ ap (λ r. take hash_trinary_size ts ++ r) k.cleared;
    })

-- The first segments, and the others.
pub AreSegments-split :
    (n a b m : ℕ) (ts : Trits)
    → n ≡ a + b
    → m ≡ a * hash_trinary_size
    → AreSegments n ts
    → AreSegments a (take m ts) × AreSegments b (drop m ts)
AreSegments-split n zero b m ts e em h =
    let nb : n ≡ b = omega arith in let m0 : m ≡ 0 = omega arith in rw m0 (refl, rw nb at h)
AreSegments-split zero (suc a) b m ts e em h = absurd (omega arith)
AreSegments-split (suc n) (suc a) b m ts e em (h, hs) =
    let k = a * hash_trinary_size in
    let (front, back) =
      AreSegments-split n a b k (drop hash_trinary_size ts) (omega arith) refl hs in
    (
      (
        rw (take-take hash_trinary_size m ts (omega arith)) h,
        rw (drop-take hash_trinary_size m k ts (omega arith)) front,
      ),
      rw (← drop-drop k hash_trinary_size m ts (omega arith)) back,
    )

pub AreSegments-append :
    (n : ℕ) (hash rest : Trits)
    → IsHash hash
    → AreSegments n rest
    → AreSegments (suc n) (hash ++ rest)
AreSegments-append n hash rest h hs = (
  rw (take_front hash rest hash_trinary_size h.size) h,
  rw (drop_front hash rest hash_trinary_size h.size) hs,
)
