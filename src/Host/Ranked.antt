-- ===== src/Host/Ranked.antt =====
-- The batch that `BatchBuilder::build` makes.
use zk_clob.Prelude.{ℕ, ◌≡◌, refl, true, not, some, List, [], ◌∷◌, get_elem?, checked_add_u64, ◌==◌}
use zk_clob.Types.Ids.{AccountId}
use zk_clob.Types.Operations.{Deposit, ForcedWithdrawal, SignedWithdrawal}
use zk_clob.Types.Order.{SequencedOrder, with_sequence}
use zk_clob.Types.Batch.{StateWitness, PatriciaMultiproof, BatchInput}
use zk_clob.Types.Errors.{Result, ok, err, panic}
use zk_clob.Types.Ids.{B256, account_id_bits}
use zk_clob.Types.Results.{Safe, Safe-bind, Succeeds, Any}
use zk_clob.Hashing.{Crypto}
use zk_clob.State.{State, account_leaf, expect_ok, state_root, witness_for}
use zk_clob.Trees.Patricia.{compute_root}
use zk_clob.Trees.Making.{build_multiproof-Safe}
use zk_clob.Settlement.Validation.Accounts.Ledger.{IsAscending}
use zk_clob.Host.Errors.{
  BatchBuildError, HostResult, ◌>>=◌, with_error, give, Gives, Gives-bind, refuse_if-bind,
  give_or-bind, invalid_nonce, invalid_state_proof,
}
use zk_clob.Host.Tree.{AccountTree, account_in, tree_witness}
use zk_clob.Host.Batches.{contains, BatchBuilder, next_nonce_of}
use zk_clob.Host.Build.{
  check_nonces_of, check_nonces, rank_of, map_all, index_deposit, index_forced_withdrawal,
  index_order, index_withdrawal, demand_ok, build_batch,
}
use zk_clob.Host.Ranks.{IsRank, rank_of-IsRank, AreTouched, IsBuilder}

abbrev AnyValue {ℓ} : {A : Type ℓ} → A → Type 0
AnyValue _ = Unit

check_nonces_of-Any :
    (id : AccountId) (expected : ℕ) (ns : List ℕ) → Gives AnyValue (check_nonces_of id expected ns)
unfolding check_nonces_of
check_nonces_of-Any id expected [] = tt
check_nonces_of-Any id expected (n ∷ ns) =
    refuse_if-bind AnyValue (not (n == expected)) (invalid_nonce id) _ (
      give_or-bind AnyValue (invalid_nonce id) (checked_add_u64 expected 1) _
        (λ next. check_nonces_of-Any id next ns))

check_nonces-Any :
    (state : AccountTree) (es : List (AccountId × List ℕ)) → Gives AnyValue (check_nonces state es)
unfolding check_nonces
check_nonces-Any state [] = tt
check_nonces-Any state (e ∷ es) =
    Gives-bind AnyValue AnyValue _ _
      (check_nonces_of-Any e.0 (next_nonce_of (account_in state e.0)) e.1)
      (λ _ _. check_nonces-Any state es)

with_error-Gives :
    {A : Type 0} (P : A → Type 0) (e : BatchBuildError) (r : Result A)
    → Safe P r
    → Gives P (with_error e r)
with_error-Gives P e (ok a) h = h
with_error-Gives P e (err x) h = tt
with_error-Gives P e panic h = h

demand_ok-Gives :
    {A : Type 0} (P : A → Type 0) (r : Result A) → Succeeds P r → Gives P (demand_ok r)
demand_ok-Gives P (ok a) h = h
demand_ok-Gives P (err x) h = h
demand_ok-Gives P panic h = h

-- Where a witness is made, the state has a root.
tree_witness-Gives :
    (c : Crypto) (t : AccountTree) (ids : List AccountId)
    → Gives
        (λ _. Succeeds Any (compute_root c account_id_bits (account_leaf c) t.state.accounts))
        (tree_witness c t ids)
unfolding tree_witness witness_for
tree_witness-Gives c t ids = with_error-Gives Q invalid_state_proof (witness_for c t.state ids) (
    Safe-bind (λ (_ : PatriciaMultiproof). HasRoot) Q _ _
      (build_multiproof-Safe c account_id_bits (account_leaf c) t.state.accounts ids)
      (λ proof h. h))
  where
    HasRoot : Type 0
    HasRoot = Succeeds Any (compute_root c account_id_bits (account_leaf c) t.state.accounts)

    Q : StateWitness → Type 0
    Q _ = HasRoot

expect_ok-Succeeds :
    (r : Result B256) → Succeeds Any r → Succeeds (λ root. expect_ok r ≡ ok root) (expect_ok r)
expect_ok-Succeeds (ok root) h = refl
expect_ok-Succeeds (err e) h = h
expect_ok-Succeeds panic h = h

state_root-Succeeds :
    (c : Crypto) (s : State)
    → Succeeds Any (compute_root c account_id_bits (account_leaf c) s.accounts)
    → Succeeds (λ root. state_root c s ≡ ok root) (state_root c s)
unfolding state_root
state_root-Succeeds c s h =
    expect_ok-Succeeds (compute_root c account_id_bits (account_leaf c) s.accounts) h

-- Pointwise, along two lists of one length.
abbrev pub Each {ℓ} : {A B : Type ℓ} → (A → B → Type 0) → List A → List B → Type 0
Each P [] [] = Unit
Each P (x ∷ xs) (y ∷ ys) = P x y × Each P xs ys
Each P [] (y ∷ ys) = ⊥
Each P (x ∷ xs) [] = ⊥

-- Each operation gets the index of its account in the list of the touched ones, and keeps the rest.
abbrev pub AreIndexed :
    {A : Type 0} → (A → AccountId) → (A → ℕ → A) → List AccountId → List A → List A → Type 0
AreIndexed account with_index touched =
    Each (λ x y. (i : ℕ) × (get_elem? touched i ≡ some (account x)) × (y ≡ with_index x i))

module _ {A : Type 0} (account : A → AccountId) (with_index : A → ℕ → A)
    (touched : List AccountId) where
  map_all-AreIndexed :
      (f : A → HostResult A) (xs : List A)
      → ((x : A)
          → contains (account x) touched ≡ true
          → Gives
              (λ y. (i : ℕ) × (get_elem? touched i ≡ some (account x)) × (y ≡ with_index x i))
              (f x))
      → AreTouched account touched xs
      → Gives (AreIndexed account with_index touched xs) (map_all f xs)
  map_all-AreIndexed f [] each h = tt
  map_all-AreIndexed f (x ∷ xs) each h =
      Gives-bind (λ y. (i : ℕ) × (get_elem? touched i ≡ some (account x)) × (y ≡ with_index x i))
        (AreIndexed account with_index touched (x ∷ xs)) _ _ (each x h.0)
        (λ y p.
          Gives-bind (AreIndexed account with_index touched xs)
            (AreIndexed account with_index touched (x ∷ xs)) _ _ (map_all-AreIndexed f xs each h.1)
            (λ ys ps. (p, ps)))

-- The accessor and the `with_account_index` of each type.
abbrev IndexedDeposits : List AccountId → List Deposit → List Deposit → Type 0
IndexedDeposits = AreIndexed (λ d. d.account) (λ d i. record d { account_index = some i })

abbrev IndexedRequests : List AccountId → List ForcedWithdrawal → List ForcedWithdrawal → Type 0
IndexedRequests = AreIndexed (λ w. w.account) (λ w i. record w { account_index = some i })

abbrev IndexedOrders : List AccountId → List SequencedOrder → List SequencedOrder → Type 0
IndexedOrders =
    AreIndexed (λ o. o.signer)
      (λ o i. with_sequence (record o.signed_order { account_index = some i }) o.sequence)

abbrev IndexedWithdrawals : List AccountId → List SignedWithdrawal → List SignedWithdrawal → Type 0
IndexedWithdrawals = AreIndexed (λ w. w.signer) (λ w i. record w { account_index = some i })

-- A batch for a builder: the root of the state, and every operation with the rank of its account.
pub record IsBuilt (c : Crypto) (b : BatchBuilder) (input : BatchInput) : Type 0 where
  pub root : state_root c b.state.state ≡ ok input.expected_old_state_root
  pub deposits : IndexedDeposits b.touched_accounts b.deposits input.deposits
  pub forced_withdrawals :
      IndexedRequests b.touched_accounts b.forced_withdrawals input.forced_withdrawals
  pub orders : IndexedOrders b.touched_accounts b.orders input.orders
  pub withdrawals : IndexedWithdrawals b.touched_accounts b.withdrawals input.withdrawals

-- Every account of a list of touched ones is found, at its rank.
rank-IsRank :
    {A : Type 0} (touched : List AccountId) (id : AccountId)
    → IsAscending touched
    → contains id touched ≡ true
    → (with_index : ℕ → A)
    → Gives
        (λ y. (i : ℕ) × (get_elem? touched i ≡ some id) × (y ≡ with_index i))
        (rank_of touched id >>= (λ i. give (with_index i)))
rank-IsRank touched id ascending t with_index =
    Gives-bind (λ i. IsRank touched id (some i))
      (λ y. (i : ℕ) × (get_elem? touched i ≡ some id) × (y ≡ with_index i)) _ _
      (rank_of-IsRank touched id ascending t) (λ i e. (i, e, refl))

indexed_deposits :
    (touched : List AccountId) (xs : List Deposit)
    → IsAscending touched
    → AreTouched (λ (x : Deposit). x.account) touched xs
    → Gives (IndexedDeposits touched xs) (map_all (index_deposit touched) xs)
indexed_deposits touched xs ascending =
    map_all-AreIndexed (λ (x : Deposit). x.account) (λ x i. record x { account_index = some i })
      touched (index_deposit touched) xs
      (λ x t. rank-IsRank touched x.account ascending t (λ i. record x { account_index = some i }))

indexed_requests :
    (touched : List AccountId) (xs : List ForcedWithdrawal)
    → IsAscending touched
    → AreTouched (λ (x : ForcedWithdrawal). x.account) touched xs
    → Gives (IndexedRequests touched xs) (map_all (index_forced_withdrawal touched) xs)
indexed_requests touched xs ascending =
    map_all-AreIndexed (λ (x : ForcedWithdrawal). x.account)
      (λ x i. record x { account_index = some i }) touched (index_forced_withdrawal touched) xs
      (λ x t. rank-IsRank touched x.account ascending t (λ i. record x { account_index = some i }))

indexed_orders :
    (touched : List AccountId) (xs : List SequencedOrder)
    → IsAscending touched
    → AreTouched (λ (x : SequencedOrder). x.signer) touched xs
    → Gives (IndexedOrders touched xs) (map_all (index_order touched) xs)
indexed_orders touched xs ascending =
    map_all-AreIndexed (λ (x : SequencedOrder). x.signer)
      (λ x i. with_sequence (record x.signed_order { account_index = some i }) x.sequence) touched
      (index_order touched) xs
      (λ x t.
        rank-IsRank touched x.signer ascending t
          (λ i. with_sequence (record x.signed_order { account_index = some i }) x.sequence))

indexed_withdrawals :
    (touched : List AccountId) (xs : List SignedWithdrawal)
    → IsAscending touched
    → AreTouched (λ (x : SignedWithdrawal). x.signer) touched xs
    → Gives (IndexedWithdrawals touched xs) (map_all (index_withdrawal touched) xs)
indexed_withdrawals touched xs ascending =
    map_all-AreIndexed (λ (x : SignedWithdrawal). x.signer)
      (λ x i. record x { account_index = some i }) touched (index_withdrawal touched) xs
      (λ x t. rank-IsRank touched x.signer ascending t (λ i. record x { account_index = some i }))

-- A builder with the invariant builds without a crash: neither the lookup of a touched account nor
-- the root of the state can fail. The batch has the root of the builder's state, and its operations
-- are the builder's, in their order, each with the position of its account among the touched ones.
pub build_batch-IsBuilt :
    (c : Crypto) (b : BatchBuilder) → IsBuilder b → Gives (IsBuilt c b) (build_batch c b)
unfolding build_batch
build_batch-IsBuilt c b h = Gives-bind AnyValue Q _ _ (check_nonces-Any b.state b.nonces) (λ _ _.
    Gives-bind (λ _. HasRoot) Q _ _ (tree_witness-Gives c b.state b.touched_accounts)
      (λ witness has_root.
        Gives-bind (IndexedDeposits b.touched_accounts b.deposits) Q _ _
          (indexed_deposits b.touched_accounts b.deposits h.ascending h.deposits)
          (λ ds hd.
            Gives-bind (IndexedRequests b.touched_accounts b.forced_withdrawals) Q _ _
              (indexed_requests b.touched_accounts b.forced_withdrawals h.ascending
                h.forced_withdrawals)
              (λ fs hf.
                Gives-bind (IndexedOrders b.touched_accounts b.orders) Q _ _
                  (indexed_orders b.touched_accounts b.orders h.ascending h.orders)
                  (λ os ho.
                    Gives-bind (IndexedWithdrawals b.touched_accounts b.withdrawals) Q _ _
                      (indexed_withdrawals b.touched_accounts b.withdrawals h.ascending
                        h.withdrawals)
                      (λ ws hw.
                        Gives-bind (λ root. state_root c b.state.state ≡ ok root) Q
                          (demand_ok (state_root c b.state.state)) _
                          (demand_ok-Gives (λ root. state_root c b.state.state ≡ ok root)
                            (state_root c b.state.state)
                            (state_root-Succeeds c b.state.state has_root))
                          (λ root e. record {
                            root = e;
                            deposits = hd;
                            forced_withdrawals = hf;
                            orders = ho;
                            withdrawals = hw;
                          })))))))
  where
    HasRoot : Type 0
    HasRoot = Succeeds Any (compute_root c account_id_bits (account_leaf c) b.state.state.accounts)

    Q : BatchInput → Type 0
    Q = IsBuilt c b
