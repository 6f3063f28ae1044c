-- ===== src/Signing/Chain.antt =====
-- Hash chains of signing/signing.go: rounds add up, and a chain leaves its sponge reset.
use iota_go.Common.{ap, ℕ, zero, suc, ◌+◌, ◌≡◌, sym, ◌∙◌, arith, length}
use iota_go.Consts.{ok, ◌>>=◌, ok_inj, >>=_split, >>=_congr, >>=_assoc, hash_trinary_size}
use iota_go.Trinary.Trits.{Trits}
use iota_go.Sponge.{Sponge}
use iota_go.Signing.{hash_chain}

module _ (sponge : Sponge) where
  open sponge use {State, fresh, absorb, squeeze, length-squeeze}

  -- a + b rounds are a rounds, and then b rounds on their hash.
  pub hash_chain_add :
      (n a b : ℕ) (tmp : Trits)
      → n ≡ a + b
      → hash_chain sponge n fresh tmp
        ≡ (hash_chain sponge a fresh tmp >>= λ r. hash_chain sponge b fresh r.0)
  unfolding hash_chain
  hash_chain_add n zero b tmp e = ap (λ k. hash_chain sponge k fresh tmp) (omega arith)
  hash_chain_add zero (suc a) b tmp e = absurd (omega arith)
  hash_chain_add (suc n) (suc a) b tmp e =
      >>=_congr (absorb fresh tmp) (λ s1.
        >>=_congr (squeeze s1 hash_trinary_size) (λ out. hash_chain_add n a b out.0 (omega arith))
        ∙ sym (>>=_assoc (squeeze s1 hash_trinary_size) _ _))
      ∙ sym (>>=_assoc (absorb fresh tmp) _ _)

  -- The hash of a segment has the length of a segment, and the sponge is reset behind it.
  pub hash_chain-fresh :
      (a : ℕ) (tmp : Trits) (r : Trits × State)
      → length tmp ≡ hash_trinary_size
      → hash_chain sponge a fresh tmp ≡ ok r
      → (r.1 ≡ fresh) × (length r.0 ≡ hash_trinary_size)
  unfolding hash_chain
  hash_chain-fresh zero tmp r l e =
      let e' = ok_inj e in (ap (λ p. p.1) (sym e'), ap (λ p. length p.0) (sym e') ∙ l)
  hash_chain-fresh (suc a) tmp r l e =
      let (s1, e1, rest) = >>=_split (absorb fresh tmp) _ e in
      let (out, e2, last) = >>=_split (squeeze s1 hash_trinary_size) _ rest in
      hash_chain-fresh a out.0 r (length-squeeze s1 _ out.0 out.1 e2) last
