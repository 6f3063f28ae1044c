-- ===== src/Account/Store/Examples.antt =====
-- The theorems on the account store at concrete inputs.
use iota_go.Common.{
  ◌-◌, ◌/◌, ◌≡◌, refl, false, List, [], ◌∷◌, ◌++◌, none, some, take, replicate, arith, pos, find,
}
use iota_go.Consts.{ok, bundle_trinary_offset, transaction_trinary_size}
use iota_go.Trinary.Convert.{Trytes, trytes_eq}
use iota_go.Guards.{is_empty_trytes}
use iota_go.Account.Store.{
  AccountId, StoredDepositAddress, AccountState, Store, account, remove_account,
  ExportedAccountState, import_account, export_account, essence, essences, add_pending_transfer,
}
use iota_go.Account.Store.Essence.{restored, restored-essence}
use iota_go.Account.Store.Steps.{Step, run, run-account}
use iota_go.Account.Store.Transfers.{
  Sent, Missing, add_pending_transfer-Sent, remove_account-Missing, import_account-export_account,
}

abbrev alice : AccountId
alice = b'a' ∷ []

abbrev bob : AccountId
bob = b'b' ∷ []

abbrev deposit : StoredDepositAddress
deposit = record {
  conditions = record { timeout_at = none; multi_use = false; expected_amount = some 5 };
  security_level = pos 2;
}

abbrev state : AccountState
state = record {
  key_index = 2;
  deposit_addresses = (1, deposit) ∷ (2, deposit) ∷ [];
  pending_transfers = [];
}

abbrev one_account : Store
one_account = (alice, state) ∷ []

alice_run : account alice one_account ≡ some state
unfolding find trytes_eq
alice_run = refl

abbrev transaction : Trytes
transaction = replicate 2673 b'A'

essences_run : essences (transaction ∷ []) ≡ ok (replicate 2349 b'A' ∷ [])
unfolding essences essence is_empty_trytes
essences_run = refl

essence_run : essence transaction ≡ ok (replicate 2349 b'A')
unfolding essence is_empty_trytes
essence_run = refl

add_pending_transfer-Sent_example :
    (after : AccountState) × ((add_pending_transfer alice
        (b'T' ∷ [])
        (transaction ∷ [])
        (2 ∷ [])
        one_account).1
      ≡ ok tt)
    × (account alice
          (add_pending_transfer alice (b'T' ∷ []) (transaction ∷ []) (2 ∷ []) one_account).0
        ≡ some after)
    × Sent state after (b'T' ∷ []) (replicate 2349 b'A' ∷ []) (2 ∷ [])
add_pending_transfer-Sent_example =
    add_pending_transfer-Sent alice (b'T' ∷ []) (transaction ∷ []) (replicate 2349 b'A' ∷ [])
      (2 ∷ []) one_account state alice_run essences_run

remove_account-Missing_example :
    ((remove_account alice one_account).1 ≡ ok tt)
    × Missing alice (remove_account alice one_account).0
remove_account-Missing_example = remove_account-Missing alice one_account state alice_run

import_account-export_account_example :
    (exported : ExportedAccountState) × (export_account (pos 7) alice one_account ≡ ok exported)
    × (account alice (import_account exported []) ≡ some state)
import_account-export_account_example =
    import_account-export_account alice (pos 7) one_account [] state alice_run

abbrev steps : List Step
steps =
    Step.load bob
    ∷ Step.write bob 4
    ∷ Step.insert (pos 7) alice bob
    ∷ Step.remove_deposit bob 1
    ∷ Step.remove bob
    ∷ []

apart_run : trytes_eq alice bob ≡ false
unfolding trytes_eq
apart_run = refl

run-account_example : account alice (run steps one_account) ≡ account alice one_account
run-account_example =
    run-account alice steps one_account
      (apart_run, (apart_run, (apart_run, (apart_run, (apart_run, tt)))))

restored-essence_example :
    restored (replicate 2349 b'A')
    ≡ take (bundle_trinary_offset / 3) transaction
      ++ replicate ((transaction_trinary_size - bundle_trinary_offset) / 3) b'9'
restored-essence_example =
    restored-essence transaction (replicate 2349 b'A') (omega arith) essence_run
