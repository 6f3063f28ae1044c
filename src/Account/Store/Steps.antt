-- ===== src/Account/Store/Steps.antt =====
-- Runs of the methods of the store, each on one account, over accounts that share no maps.
use iota_go.Common.{
  ℕ, ℤ, ◌≡◌, refl, ap, ◌∙◌, false, List, [], ◌∷◌, ◌==◌, Option-cases, inl, inr, find, IsEquality,
  find-erase_ne, find-put_ne, arith, ◌&&◌,
}
use iota_go.Consts.{Result-cases, ok, err, panic}
use iota_go.Trinary.Convert.{Trytes, trytes_eq, trytes_eq_refl, trytes_eq→eq}
use iota_go.Account.Store.{
  AccountId, StoredDepositAddress, AccountState, Store, account, save, load_account, remove_account,
  import_account, export_account, write_index, add_deposit_address, remove_deposit_address,
  add_pending_transfer, remove_pending_transfer, add_tail_hash, trytes_to_pending_transfer,
}

trytes_eq_comm : (a b : Trytes) → trytes_eq a b ≡ trytes_eq b a
unfolding trytes_eq
trytes_eq_comm [] [] = refl
trytes_eq_comm [] (b ∷ bs) = refl
trytes_eq_comm (a ∷ xs) [] = refl
trytes_eq_comm (a ∷ xs) (b ∷ bs) =
    rw (trytes_eq_comm xs bs) (ap (λ c. c && trytes_eq bs xs) (ground arith))

pub trytes_eq-IsEquality : IsEquality Trytes trytes_eq
trytes_eq-IsEquality = record {
  reflexive = trytes_eq_refl;
  symmetric = trytes_eq_comm;
  transitive = λ i j k h. ap (λ x. trytes_eq x k) (trytes_eq→eq i j h);
}

pub ==-IsEquality : IsEquality ℕ (λ a b. a == b)
==-IsEquality = record {
  reflexive = λ k. ground arith;
  symmetric = λ j k. ground arith;
  transitive = λ i j k h. ground arith;
}

-- An account is exported, and the export is imported under an id. What is imported is a copy of its own.
unfoldable pub transplant : ℤ → AccountId → AccountId → Store → Store
transplant now from to s = elim (export_account now from s) [
  | ok e ↦ import_account (record e { id = to }) s
  | err e ↦ s
  | panic ↦ s
]

-- The methods that change the store, with their arguments; an import is of the copy that an export
-- makes, once.
pub data Step : Type 0 where
  load remove : AccountId → Step
  insert : ℤ → AccountId → AccountId → Step
  write : AccountId → ℕ → Step
  add_deposit : AccountId → ℕ → StoredDepositAddress → Step
  remove_deposit : AccountId → ℕ → Step
  add_transfer : AccountId → Trytes → List Trytes → List ℕ → Step
  remove_transfer : AccountId → Trytes → Step
  add_tail : AccountId → Trytes → Trytes → Step

abbrev pub step : Step → Store → Store
step (load id) s = (load_account id s).0
step (remove id) s = (remove_account id s).0
step (insert now from to) s = transplant now from to s
step (write id n) s = (write_index id n s).0
step (add_deposit id n d) s = (add_deposit_address id n d s).0
step (remove_deposit id n) s = (remove_deposit_address id n s).0
step (add_transfer id tail trytes indices) s = (add_pending_transfer id tail trytes indices s).0
step (remove_transfer id tail) s = (remove_pending_transfer id tail s).0
step (add_tail id tail more) s = (add_tail_hash id tail more s).0

abbrev pub target : Step → AccountId
target (load id) = id
target (remove id) = id
target (insert now from to) = to
target (write id n) = id
target (add_deposit id n d) = id
target (remove_deposit id n) = id
target (add_transfer id tail trytes indices) = id
target (remove_transfer id tail) = id
target (add_tail id tail more) = id

saved :
    (other id : AccountId) (state : AccountState) (s : Store)
    → trytes_eq other id ≡ false
    → account other (save id state s) ≡ account other s
saved other id state s h = find-put_ne trytes_eq trytes_eq-IsEquality id other state s h

step-account :
    (other : AccountId) (op : Step) (s : Store)
    → trytes_eq other (target op) ≡ false
    → account other (step op s) ≡ account other s
unfolding load_account remove_account import_account transplant write_index add_deposit_address
    remove_deposit_address add_pending_transfer remove_pending_transfer add_tail_hash
step-account other (load id) s h = elim (Option-cases (account id s)) [
  | inl gone ↦ rw (step, gone) (saved other id _ s h)
  | inr (state, here) ↦ rw (step, here) refl
]
step-account other (remove id) s h = elim (Option-cases (account id s)) [
  | inl gone ↦ rw (step, gone) refl
  | inr (state, here) ↦ rw (step, here) (find-erase_ne trytes_eq trytes_eq-IsEquality id other s h)
]
step-account other (insert now from to) s h = elim (Result-cases (export_account now from s)) [
  | inl (e, out) ↦ rw (step, transplant, out) (saved other to (e.state) s h)
  | inr (inl (e, failed)) ↦ rw (step, transplant, failed) refl
  | inr (inr short) ↦ rw (step, transplant, short) refl
]
step-account other (write id n) s h = elim (Option-cases (account id s)) [
  | inl gone ↦ rw (step, gone) refl
  | inr (state, here) ↦ rw (step, here) (saved other id _ s h)
]
step-account other (add_deposit id n d) s h = elim (Option-cases (account id s)) [
  | inl gone ↦ rw (step, gone) refl
  | inr (state, here) ↦ rw (step, here) (saved other id _ s h)
]
step-account other (remove_deposit id n) s h = elim (Option-cases (account id s)) [
  | inl gone ↦ rw (step, gone) refl
  | inr (state, here) ↦ elim (Option-cases (find (λ a b. a == b) n state.deposit_addresses)) [
    | inl absent ↦ rw (step, here, absent) refl
    | inr (d, found) ↦ rw (step, here, found) (saved other id _ s h)
  ]
]
step-account other (add_transfer id tail trytes indices) s h = elim (Option-cases (account id s)) [
  | inl gone ↦ rw (step, gone) refl
  | inr (state, here) ↦ elim (Result-cases (trytes_to_pending_transfer trytes)) [
    | inl (transfer, made) ↦ rw (step, here, made) (saved other id _ s h)
    | inr (inl (e, failed)) ↦ rw (step, here, failed) (saved other id _ s h)
    | inr (inr short) ↦ rw (step, here, short) (saved other id _ s h)
  ]
]
step-account other (remove_transfer id tail) s h = elim (Option-cases (account id s)) [
  | inl gone ↦ rw (step, gone) refl
  | inr (state, here) ↦ elim (Option-cases (find trytes_eq tail state.pending_transfers)) [
    | inl absent ↦ rw (step, here, absent) refl
    | inr (t, found) ↦ rw (step, here, found) (saved other id _ s h)
  ]
]
step-account other (add_tail id tail more) s h = elim (Option-cases (account id s)) [
  | inl gone ↦ rw (step, gone) refl
  | inr (state, here) ↦ elim (Option-cases (find trytes_eq tail state.pending_transfers)) [
    | inl absent ↦ rw (step, here, absent) refl
    | inr (t, found) ↦ rw (step, here, found) (saved other id _ s h)
  ]
]

-- The steps of a run, in their order.
unfoldable pub run : List Step → Store → Store
run [] s = s
run (op ∷ ops) s = run ops (step op s)

abbrev pub Apart : AccountId → List Step → Type 0
Apart other [] = Unit
Apart other (op ∷ ops) = (trytes_eq other (target op) ≡ false) × Apart other ops

-- In a store whose accounts share no maps, however many methods run, an account that none of them
-- changes by its id is as it was, or is still missing. An import is of a copy that an export has made,
-- of whatever account, and is made once.
pub run-account :
    (other : AccountId) (ops : List Step) (s : Store)
    → Apart other ops
    → account other (run ops s) ≡ account other s
unfolding run
run-account other [] s h = refl
run-account other (op ∷ ops) s (h, hs) =
    run-account other ops (step op s) hs ∙ step-account other op s h
