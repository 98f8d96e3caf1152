-- ===== src/State/Complete.antt =====
-- `State::insert_account` and `State::replace_account` of crates/core/src/state.rs, on ledgers.
use zk_clob.Prelude.{
  ℕ, zero, suc, ◌+◌, ◌≡◌, refl, sym, ap, ◌≤◌, ◌<◌, Bool, true, false, not, ◌&&◌, is_key, ltb,
  ltb→lt, further, insert_at, List, [], ◌∷◌, Option, none, some, Search, found, vacant, get_elem?,
  set, ◌==◌, if◌then◌else◌, inl, inr, Bool-cases, arith,
}
use mathlib.Core.Path.{subst}
use zk_clob.Types.Ids.{AccountId, AssetId}
use zk_clob.Types.Account.{Account}
use zk_clob.Account.Held.{held, IsCanonical}
use zk_clob.State.{State, replace_at, replace_account, insert_where, insert_account}
use zk_clob.State.Finding.{account_at}
use zk_clob.Settlement.Balances.{find_account}
use zk_clob.Settlement.Balances.Ledger.{total, ids, IsAfter, IsLedger, IsAfter-of_ids}
use zk_clob.Settlement.Balances.Deposits.{IsGap, IsGap-suc, insert_at-IsLedger, total-insert_at}

-- What an insertion leaves: a ledger. The account goes in, as it is, if its identifier is new, and all
-- others stay as they were.
pub record IsInserted (s : State) (a : Account) (r : State × Bool) : Type 0 where
  pub ledger : IsLedger r.0.accounts
  pub went_in : r.1 ≡ not (is_key (ids s.accounts) a.id)
  pub accounts_are :
      (id : AccountId)
      → account_at id r.0.accounts
        ≡ (if r.1 && (a.id == id) then some a else account_at id s.accounts)
  pub grown :
      (asset : AssetId)
      → total asset r.0.accounts
        ≡ total asset s.accounts + (if r.1 then held asset a.balances else 0)

-- Whether the search found the account, and where a new one belongs.
abbrev IsSearched : Account → List Account → Search → Type 0
IsSearched a xs (found i) = is_key (ids xs) a.id ≡ true
IsSearched a xs (vacant j) =
    IsGap a.id xs j
    × (is_key (ids xs) a.id ≡ false)
    × ((id : AccountId)
        → account_at id (insert_at xs j a) ≡ (if a.id == id then some a else account_at id xs))

is_key-IsAfter :
    (k id : AccountId) (xs : List Account)
    → id ≤ k
    → IsAfter k xs
    → IsLedger xs
    → is_key (ids xs) id ≡ false
is_key-IsAfter k id [] le after h = refl
is_key-IsAfter k id (x ∷ xs) le after h =
    ground (arith, is_key-IsAfter x.id id xs (omega arith) h.1 h.2)

IsSearched-further :
    (a x : Account) (xs : List Account) (s : Search)
    → x.id < a.id
    → IsSearched a xs s
    → IsSearched a (x ∷ xs) (further s)
IsSearched-further a x xs (found i) lt h = ground (arith, h)
IsSearched-further a x xs (vacant j) lt h =
    (IsGap-suc a.id x xs j lt h.0, ground (arith, h.1), λ id. ground (arith, h.2 id))

find_account-IsSearched :
    (a : Account) (xs : List Account) → IsLedger xs → IsSearched a xs (find_account xs a.id)
find_account-IsSearched a [] h = ((refl, refl), refl, λ id. refl)
find_account-IsSearched a (x ∷ xs) h = elim (Bool-cases (ltb x.id a.id)) [
  | inl below ↦ rw below (
      IsSearched-further a x xs (find_account xs a.id) (ltb→lt _ _ below)
        (find_account-IsSearched a xs h.2))
  | inr above ↦ elim (Bool-cases (x.id == a.id)) [
    | inl same ↦ rw (above, same) (ground arith)
    | inr other ↦
        rw (above, other)
          (
            (refl, ground arith),
            ground (arith, is_key-IsAfter x.id a.id xs (ground arith) h.1 h.2),
            λ id. refl,
          )
  ]
]

insert_where-IsInserted :
    (s : State) (a : Account) (found_at : Search)
    → IsLedger s.accounts
    → IsCanonical a.balances
    → IsSearched a s.accounts found_at
    → IsInserted s a (insert_where s a found_at)
insert_where-IsInserted s a (found i) h k p = record {
  ledger = h;
  went_in = rw p refl;
  accounts_are = λ id. refl;
  grown = λ asset. omega arith;
}
insert_where-IsInserted s a (vacant j) h k p = record {
  ledger = insert_at-IsLedger a s.accounts j k h p.0;
  went_in = rw p.1 refl;
  accounts_are = p.2;
  grown = λ asset. total-insert_at asset a s.accounts j;
}

-- Let a canonical account be inserted into a state that is a ledger. The result says that it went in
-- exactly where no account has its identifier. If so, the account is found under its identifier
-- afterwards, as it was given; under every other identifier, or if it did not go in, the state has
-- the account that it had or none. The state is a ledger again, and each total has grown by the
-- holdings of the account if it went in.
pub insert_account-IsInserted :
    (s : State) (a : Account)
    → IsLedger s.accounts
    → IsCanonical a.balances
    → IsInserted s a (insert_account s a)
unfolding insert_account
insert_account-IsInserted s a h k =
    insert_where-IsInserted s a (find_account s.accounts a.id) h k
      (find_account-IsSearched a s.accounts h)

set-ids :
    (xs : List Account) (i : ℕ) (a : Account) {x : Account}
    → get_elem? xs i ≡ some x
    → x.id ≡ a.id
    → ids (set xs i a) ≡ ids xs
set-ids [] i a e same = refl
set-ids (y ∷ xs) zero a {x = x} e same =
    let there : y.id ≡ a.id = cc in ap (λ j. j ∷ ids xs) (sym there)
set-ids (y ∷ xs) (suc i) a e same = ap (λ is. y.id ∷ is) (set-ids xs i a e same)

set-IsLedger :
    (xs : List Account) (i : ℕ) (a : Account) {x : Account}
    → get_elem? xs i ≡ some x
    → x.id ≡ a.id
    → IsCanonical a.balances
    → IsLedger xs
    → IsLedger (set xs i a)
set-IsLedger [] i a e same k h = tt
set-IsLedger (y ∷ xs) zero a {x = x} e same k h =
    let there : y.id ≡ a.id = cc in (k, subst (λ j. IsAfter j xs) there h.1, h.2)
set-IsLedger (y ∷ xs) (suc i) a e same k h = (
  h.0,
  IsAfter-of_ids y.id xs (set xs i a) (set-ids xs i a e same) h.1,
  set-IsLedger xs i a e same k h.2,
)

-- What a replacement leaves: a ledger of the same accounts.
pub record IsReplaced (s : State) (r : State × Bool) : Type 0 where
  pub ledger : IsLedger r.0.accounts
  pub same_ids : ids r.0.accounts ≡ ids s.accounts

replace_at-IsReplaced :
    (s : State) (i : ℕ) (a : Account) (existing : Option Account)
    → IsLedger s.accounts
    → IsCanonical a.balances
    → get_elem? s.accounts i ≡ existing
    → IsReplaced s (replace_at s i a existing)
replace_at-IsReplaced s i a none h k e = record { ledger = h; same_ids = refl }
replace_at-IsReplaced s i a (some x) h k e = elim (Bool-cases (x.id == a.id)) [
  | inl same ↦ rw same (record {
    ledger = set-IsLedger s.accounts i a e (ground arith) k h;
    same_ids = set-ids s.accounts i a e (ground arith);
  })
  | inr other ↦ rw other (record { ledger = h; same_ids = refl })
]

-- Replacing an account of a ledger, at any index, by a canonical one leaves a ledger with the same
-- identifiers.
pub replace_account-IsReplaced :
    (s : State) (i : ℕ) (a : Account)
    → IsLedger s.accounts
    → IsCanonical a.balances
    → IsReplaced s (replace_account s i a)
unfolding replace_account
replace_account-IsReplaced s i a h k = replace_at-IsReplaced s i a (get_elem? s.accounts i) h k refl
