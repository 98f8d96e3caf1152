-- ===== src/State.antt =====
-- crates/core/src/state.rs: the complete state of the host, and the witness that a batch carries.
pub mod Complete
pub mod Witness
pub mod Finding
use zk_clob.Prelude.{
  ℕ, Bool, true, false, Option, none, some, List, [], ◌∷◌, Search, found, vacant, get_elem?, set,
  insert_at, sort_unstable, binary_search_by_key, ltb, ◌==◌, if◌then◌else◌, map,
}
use zk_clob.Types.Ids.{B256, AccountId, account_id_bits}
use zk_clob.Types.Account.{Account}
use zk_clob.Types.Batch.{StateWitness}
use zk_clob.Types.Errors.{Result, ok, err, panic, ◌>>=◌}
use zk_clob.Hashing.{Crypto, account_hash}
use zk_clob.Trees.Patricia.{PatriciaLeaf, compute_root, compute_root_from_proof}
use zk_clob.Trees.Multiproof.{build_multiproof}

-- `State`
pub record State : Type 0 where
  pub accounts : List Account

-- `State::new`
abbrev pub state_of : List Account → State
state_of accounts = record { accounts = sort_unstable (λ (x y : Account). ltb x.id y.id) accounts }

abbrev pub replace_at : State → ℕ → Account → Option Account → State × Bool
replace_at s index account none = (s, false)
replace_at s index account (some existing) =
    if existing.id == account.id
    then (record { accounts = set s.accounts index account }, true)
    else (s, false)

-- `State::replace_account`: the state and whether it changed.
unfoldable pub replace_account : State → ℕ → Account → State × Bool
replace_account s index account = replace_at s index account (get_elem? s.accounts index)

abbrev pub insert_where : State → Account → Search → State × Bool
insert_where s account (found index) = (s, false)
insert_where s account (vacant index) =
    (record { accounts = insert_at s.accounts index account }, true)

-- `State::insert_account`
unfoldable pub insert_account : State → Account → State × Bool
insert_account s account =
    insert_where s account (binary_search_by_key (λ (a : Account). a.id) s.accounts account.id)

-- The account of an identifier, as `witness_for` finds it.
abbrev pub found_in : List Account → Search → List Account → List Account
found_in accounts (vacant index) rest = rest
found_in accounts (found index) rest = elim (get_elem? accounts index) [
  | none ↦ rest
  | some a ↦ a ∷ rest
]

abbrev pub touched : List Account → List AccountId → List Account
touched accounts [] = []
touched accounts (id ∷ ids) =
    found_in accounts (binary_search_by_key (λ (a : Account). a.id) accounts id)
      (touched accounts ids)

-- `expect` of a result.
abbrev pub expect_ok {ℓ} : {A : Type ℓ} → Result A → Result A
expect_ok (ok a) = ok a
expect_ok (err e) = panic
expect_ok panic = panic

module _ (c : Crypto) where
  -- `impl PatriciaLeaf for Account`
  abbrev pub account_leaf : PatriciaLeaf Account
  account_leaf = record { key = λ a. a.id; hash = account_hash c }

  -- `State::root`
  unfoldable pub state_root : State → Result B256
  unfolding compute_root
  state_root s = expect_ok (compute_root c account_id_bits account_leaf s.accounts)

  -- `State::witness_for`
  unfoldable pub witness_for : State → List AccountId → Result StateWitness
  unfolding build_multiproof
  witness_for s ids = do
    proof ← build_multiproof c account_id_bits account_leaf s.accounts ids
    ok (record { accounts = touched s.accounts ids; multiproof = proof })

  -- `StateWitness::root`
  unfoldable pub witness_root : StateWitness → Result B256
  witness_root w = compute_root_from_proof c account_id_bits account_leaf w.accounts w.multiproof
