-- ===== src/Host/Tree.antt =====
-- crates/host/src/account_tree.rs: the state with an index of its identifiers.
use zk_clob.Prelude.{
  ℕ, suc, ◌^◌, Option, none, some, List, [], ◌∷◌, ◌++◌, get_elem?, is_some, any, ltb, ◌==◌,
  if◌then◌else◌, not,
}
use zk_clob.Types.Ids.{AccountId}
use zk_clob.Types.Account.{Account}
use zk_clob.Types.Batch.{StateWitness}
use zk_clob.Hashing.{Crypto}
use zk_clob.State.{State, state_of, witness_for, replace_account, insert_account}
use zk_clob.Host.Errors.{
  HostResult, crash, refuse, give, ◌>>=◌, ◌>>◌, refuse_if, with_error, account_index_overflow,
  duplicate_account, unknown_account, invalid_state_proof,
}

-- A map as a list of entries, in the order of the keys where it is built in that order.
abbrev pub lookup {ℓ} : {V : Type ℓ} → ℕ → List (ℕ × V) → Option V
lookup key [] = none
lookup key (e ∷ es) = if e.0 == key then some e.1 else lookup key es

pub record AccountTree : Type 0 where
  pub state : State
  pub indices : List (AccountId × ℕ)

-- The loop of `AccountTree::new`, from an index.
unfoldable pub index_accounts :
    ℕ → List Account → List (AccountId × ℕ) → HostResult (List (AccountId × ℕ))
index_accounts index [] indices = give indices
index_accounts index (a ∷ as') indices = do
  refuse_if (not (ltb index (2 ^ 32))) account_index_overflow
  refuse_if (is_some (lookup a.id indices)) (duplicate_account a.id)
  index_accounts (suc index) as' (indices ++ ((a.id, index) ∷ []))

-- `AccountTree::new`
unfoldable pub account_tree : List Account → HostResult AccountTree
unfolding index_accounts
account_tree accounts = do
  indices ← index_accounts 0 (state_of accounts).accounts []
  give (record { state = state_of accounts; indices = indices })

abbrev get_account : AccountTree → Option ℕ → Option Account
get_account t none = none
get_account t (some index) = get_elem? t.state.accounts index

-- `AccountTree::account`
unfoldable pub account_in : AccountTree → AccountId → Option Account
account_in t id = get_account t (lookup id t.indices)

-- `AccountTree::witness`
unfoldable pub tree_witness : Crypto → AccountTree → List AccountId → HostResult StateWitness
unfolding witness_for
tree_witness c t ids = with_error invalid_state_proof (witness_for c t.state ids)

-- `BTreeMap::insert`
abbrev pub put {ℓ} : {V : Type ℓ} → ℕ → V → List (ℕ × V) → List (ℕ × V)
put key value [] = (key, value) ∷ []
put key value (e ∷ es) = if e.0 == key then (key, value) ∷ es else e ∷ put key value es

-- The first loop of `AccountTree::apply`: the accounts, each with the index that it has.
unfoldable pub replacements :
    List (AccountId × ℕ) → List AccountId → List Account → HostResult (List (Option ℕ × Account))
replacements indices seen [] = give []
replacements indices seen (a ∷ as') = do
  refuse_if (any (λ id. id == a.id) seen) (duplicate_account a.id)
  rest ← replacements indices (a.id ∷ seen) as'
  give ((lookup a.id indices, a) ∷ rest)

-- The second loop: the state, and the accounts to insert.
unfoldable pub replace_all : State → List (Option ℕ × Account) → State × HostResult (List Account)
unfolding replace_account
replace_all s [] = (s, give [])
replace_all s ((none, a) ∷ rs) =
    let rest = replace_all s rs in (rest.0, rest.1 >>= (λ insertions. give (a ∷ insertions)))
replace_all s ((some index, a) ∷ rs) =
    let replaced = replace_account s index a in
    let rest = replace_all replaced.0 rs in
    if replaced.1 then rest else (replaced.0, refuse (unknown_account a.id))

-- The third loop.
unfoldable pub insert_all : State → List Account → State × HostResult (Unit {0})
unfolding insert_account
insert_all s [] = (s, give tt)
insert_all s (a ∷ as') =
    let inserted = insert_account s a in
    let rest = insert_all inserted.0 as' in
    if inserted.1 then rest else (inserted.0, refuse (duplicate_account a.id))

-- The last loop, from an index.
unfoldable pub reindex :
    ℕ → List Account → List (AccountId × ℕ) → List (AccountId × ℕ) × HostResult (Unit {0})
reindex index [] indices = (indices, give tt)
reindex index (a ∷ as') indices =
    let rest = reindex (suc index) as' (put a.id index indices) in
    if ltb index (2 ^ 32) then rest else (indices, refuse account_index_overflow)

abbrev pub indexed : State → AccountTree × HostResult (Unit {0})
indexed s = let done = reindex 0 s.accounts [] in (record { state = s; indices = done.0 }, done.1)

abbrev pub after_insertions :
    List (AccountId × ℕ) → State × HostResult (Unit {0}) → AccountTree × HostResult (Unit {0})
after_insertions indices (s, crash) = (record { state = s; indices = indices }, crash)
after_insertions indices (s, refuse e) = (record { state = s; indices = indices }, refuse e)
after_insertions indices (s, give done) = indexed s

abbrev pub after_replacements :
    List (AccountId × ℕ) → State × HostResult (List Account) → AccountTree × HostResult (Unit {0})
after_replacements indices (s, crash) = (record { state = s; indices = indices }, crash)
after_replacements indices (s, refuse e) = (record { state = s; indices = indices }, refuse e)
after_replacements indices (s, give insertions) = after_insertions indices (insert_all s insertions)

abbrev pub apply_replacements :
    AccountTree → HostResult (List (Option ℕ × Account)) → AccountTree × HostResult (Unit {0})
apply_replacements t crash = (t, crash)
apply_replacements t (refuse e) = (t, refuse e)
apply_replacements t (give rs) = after_replacements t.indices (replace_all t.state rs)

-- `AccountTree::apply`: the tree, and whether it went well. A tree that is refused keeps what was written.
unfoldable pub apply : AccountTree → List Account → AccountTree × HostResult (Unit {0})
unfolding replacements replace_all insert_all reindex
apply t updated_accounts = apply_replacements t (replacements t.indices [] updated_accounts)
