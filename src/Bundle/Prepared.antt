-- ===== src/Bundle/Prepared.antt =====
-- What finalize prepares of a transaction is what is hashed of it, with another hash and another tag too.
use mathlib.Core.Path.{subst}
use iota_go.Common.{ℕ, ◌≡◌, ap, sym, ◌∙◌, List, [], ◌∷◌, map, length, arith, pos, int64}
use iota_go.Consts.{ok, >>=_split, ok_inj}
use iota_go.Trinary.Trits.{Trits, must_pad_trits}
use iota_go.Trinary.Convert.{Trytes, must_trits_to_trytes, must_trytes_to_trits}
use iota_go.Trinary.Convert.RoundTrip.{
  trits_of, length-trits_of, must_trytes_to_trits_lem, must_trits_to_trytes-trits_of,
}
use iota_go.Trinary.Number.{int_to_trytes}
use iota_go.Transaction.{Transaction}
use iota_go.Transaction.Fields.{IsText}
use iota_go.Bundle.{Bundle}
use iota_go.Bundle.Finalize.{Essence, prepare, prepare_all, zero_last_trit, with_bundle}
use iota_go.Bundle.Essences.{Matches}

abbrev pub AllTagged : Bundle → Type 0
AllTagged [] = Unit
AllTagged (t ∷ txs) = IsText 27 (t.obsolete_tag) × AllTagged txs

abbrev pub AllMatch : List Essence → Bundle → Type 0
AllMatch [] [] = Unit
AllMatch [] (t ∷ txs) = ⊥
AllMatch (e ∷ es) [] = ⊥
AllMatch (e ∷ es) (t ∷ txs) = Matches e t × AllMatch es txs

must_pad_trits_full : (n : ℕ) (ts : Trits) → length ts ≡ n → must_pad_trits ts n ≡ ts
unfolding must_pad_trits
must_pad_trits_full n ts h = ground (arith, h)

-- What is prepared of a transaction is what is hashed of it.
module _ (t : Transaction) (e : Essence) (done : prepare t ≡ ok e) where
  record Prepared : Type 0 where
    addr : e.essence_address ≡ t.address
    worth : int_to_trytes (t.value) 27 ≡ ok (e.worth)
    trits : Trits
    read : must_trytes_to_trits (t.obsolete_tag) ≡ ok trits
    padded : e.tag_trits ≡ must_pad_trits trits 81
    time : int_to_trytes (int64 (pos (t.timestamp))) 9 ≡ ok (e.time)
    current : int_to_trytes (int64 (pos (t.current_index))) 9 ≡ ok (e.current)
    last : int_to_trytes (int64 (pos (t.last_index))) 9 ≡ ok (e.last)

  prepared : Prepared
  unfolding prepare
  prepared =
      let (unused, e0, h0) = >>=_split (zero_last_trit (t.address)) _ done in
      let (worth, e1, h1) = >>=_split (int_to_trytes (t.value) 27) _ h0 in
      let (trits, e2, h2) = >>=_split (must_trytes_to_trits (t.obsolete_tag)) _ h1 in
      let (time, e3, h3) = >>=_split (int_to_trytes (int64 (pos (t.timestamp))) 9) _ h2 in
      let (current, e4, h4) = >>=_split (int_to_trytes (int64 (pos (t.current_index))) 9) _ h3 in
      let (last, e5, h5) = >>=_split (int_to_trytes (int64 (pos (t.last_index))) 9) _ h4 in
      let same = ok_inj h5 in
      record {
        addr = ap (λ (x : Essence). x.essence_address) (sym same);
        worth = e1 ∙ ap (λ (x : Essence). ok (x.worth)) same;
        trits = trits;
        read = e2;
        padded = ap (λ (x : Essence). x.tag_trits) (sym same);
        time = e3 ∙ ap (λ (x : Essence). ok (x.time)) same;
        current = e4 ∙ ap (λ (x : Essence). ok (x.current)) same;
        last = e5 ∙ ap (λ (x : Essence). ok (x.last)) same;
      }

  -- With another tag and another bundle hash.
  pub Matches-retagged :
      (trits : Trits) (tag hash : Trytes)
      → must_trits_to_trytes trits ≡ ok tag
      → Matches (record e { tag_trits = trits }) (record t { obsolete_tag = tag; bundle = hash })
  Matches-retagged trits tag hash tagged = record {
    addr = prepared.addr;
    worth = prepared.worth;
    tag = tagged;
    time = prepared.time;
    current = prepared.current;
    last = prepared.last;
  }

  tag_kept : IsText 27 (t.obsolete_tag) → must_trits_to_trytes (e.tag_trits) ≡ ok (t.obsolete_tag)
  tag_kept text =
      let read : trits_of (t.obsolete_tag) ≡ prepared.trits =
        ok_inj (sym (must_trytes_to_trits_lem (t.obsolete_tag) (text.valid)) ∙ prepared.read) in
      let full : must_pad_trits (prepared.trits) 81 ≡ prepared.trits =
        must_pad_trits_full 81 (prepared.trits)
          (omega (arith, ap length read, length-trits_of (t.obsolete_tag), text.size)) in
      ap must_trits_to_trytes (prepared.padded ∙ full ∙ sym read)
      ∙ must_trits_to_trytes-trits_of (t.obsolete_tag) (text.valid)

  -- A tag of 27 trytes needs no padding.
  pub Matches-with_bundle :
      (hash : Trytes) → IsText 27 (t.obsolete_tag) → Matches e (with_bundle hash t)
  unfolding with_bundle
  Matches-with_bundle hash text = record {
    addr = prepared.addr;
    worth = prepared.worth;
    tag = tag_kept text;
    time = prepared.time;
    current = prepared.current;
    last = prepared.last;
  }

pub prepare_rest :
    (hash : Trytes) (txs : Bundle) (es : List Essence)
    → prepare_all txs ≡ ok es
    → AllTagged txs
    → AllMatch es (map (with_bundle hash) txs)
unfolding prepare_all
prepare_rest hash [] es done tagged = subst (λ es. AllMatch es []) (ok_inj done) tt
prepare_rest hash (t ∷ txs) es done (text, tagged) =
    let (e, one, h1) = >>=_split (prepare t) _ done in
    let (rest, more, h2) = >>=_split (prepare_all txs) _ h1 in
    subst (λ es. AllMatch es (map (with_bundle hash) (t ∷ txs))) (ok_inj h2)
      (Matches-with_bundle t e one hash text, prepare_rest hash txs rest more tagged)
