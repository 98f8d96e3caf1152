-- ===== src/Settlement/Balances/Deposits.antt =====
-- Deposits, settlement/deposits.rs, on ledgers.
use zk_clob.Prelude.{
  ℕ, zero, suc, ◌+◌, ◌-◌, ◌<◌, ◌≤◌, ◌≡◌, refl, ap, Bool, true, false, ◌&&◌, ◌||◌, List, [], ◌∷◌,
  some, Search, found, vacant, further, get_elem?, insert_at, length, ltb, leb, ltb→lt, ◌==◌, inl,
  inr, Bool-cases, All, All-imp, is_key-later, All-is_key_self, arith,
}
use zk_clob.Types.Ids.{AccountId, AssetId}
use zk_clob.Types.Account.{Account}
use zk_clob.Types.Operations.{Deposit}
use zk_clob.Types.Config.{max_touched_accounts_per_batch}
use zk_clob.Types.Results.{Safe, Safe-bind, Safe-imp, Safe-and}
use zk_clob.Account.Held.{part, held, IsCanonical}
use zk_clob.Settlement.Balances.{
  holds, is_before, is_none_or_after, locate_at, new_account, find_account, open_account,
  apply_deposit, apply_deposits,
}
use zk_clob.Settlement.Balances.Ledger.{
  total, ids, Keeps, Keeps-of_ids, Keeps-trans, IsAfter, IsLedger, IsShifted, no_flow, flow,
  update_at-credit,
}
use zk_clob.Settlement.Balances.Owned.{
  owned, posted, no_post, IsPosted, update_at-credits, stands_of_holds, stands-lt, stands-insert_at,
  owned-insert_at,
}

-- Whether the entry before a position, if there is one, is of an earlier account.
abbrev pub follows : List Account → AccountId → ℕ → Bool
follows xs id zero = true
follows xs id (suc j) = is_before (get_elem? xs j) id

-- A place where an account would keep the order.
abbrev pub IsGap : AccountId → List Account → ℕ → Type 0
IsGap id xs j = (follows xs id j ≡ true) × (is_none_or_after (get_elem? xs j) id ≡ true)

-- A hit is the account, and a miss is a gap.
abbrev pub IsSpot : AccountId → List Account → Search → Type 0
IsSpot id xs (found i) = get_elem? (ids xs) i ≡ some id
IsSpot id xs (vacant j) = IsGap id xs j

pub IsGap-suc :
    (id : AccountId) (x : Account) (xs : List Account) (j : ℕ)
    → x.id < id
    → IsGap id xs j
    → IsGap id (x ∷ xs) (suc j)
IsGap-suc id x xs zero lt g = (ground arith, g.1)
IsGap-suc id x xs (suc j) lt g = g

further-IsSpot :
    (id : AccountId) (x : Account) (xs : List Account) (s : Search)
    → x.id < id
    → IsSpot id xs s
    → IsSpot id (x ∷ xs) (further s)
further-IsSpot id x xs (found i) lt p = p
further-IsSpot id x xs (vacant j) lt p = IsGap-suc id x xs j lt p

pub find_account-IsSpot : (id : AccountId) (xs : List Account) → IsSpot id xs (find_account xs id)
find_account-IsSpot id [] = (refl, refl)
find_account-IsSpot id (x ∷ xs) = elim (Bool-cases (ltb x.id id)) [
  | inl below ↦
      rw below
        (further-IsSpot id x xs (find_account xs id) (ltb→lt _ _ below) (find_account-IsSpot id xs))
  | inr above ↦ elim (Bool-cases (x.id == id)) [
    | inl same ↦ rw (above, same) (let here : x.id ≡ id = ground arith in ap (λ j. some j) here)
    | inr other ↦ rw (above, other) (refl, ground arith)
  ]
]

pub holds-lt :
    (xs : List Account) (id : AccountId) (i : ℕ) → holds (get_elem? xs i) id ≡ true → i < length xs
holds-lt [] id i h = cc
holds-lt (x ∷ xs) id zero h = omega arith
holds-lt (x ∷ xs) id (suc i) h = omega (arith, holds-lt xs id i h)

follows_of_test :
    (xs : List Account) (id : AccountId) (i : ℕ)
    → (i == 0 || is_before (get_elem? xs (i - 1)) id) ≡ true
    → follows xs id i ≡ true
follows_of_test xs id zero h = refl
follows_of_test xs id (suc i) h =
    let e : suc i - 1 ≡ i = omega arith in ground (arith, ap (λ n. is_before (get_elem? xs n) id) e)

locate_at-IsSpot : (xs : List Account) (id : AccountId) (i : ℕ) → IsSpot id xs (locate_at xs id i)
locate_at-IsSpot xs id i = elim (Bool-cases (holds (get_elem? xs i) id)) [
  | inl here ↦ rw here (stands_of_holds xs i id here)
  | inr away ↦
      elim (Bool-cases
        ((i == 0 || is_before (get_elem? xs (i - 1)) id) && is_none_or_after (get_elem? xs i) id)) [
          | inl gap ↦ rw (away, gap) (follows_of_test xs id i (ground arith), ground arith)
          | inr search_it ↦ rw (away, search_it) (find_account-IsSpot id xs)
        ]
]

follows-le : (xs : List Account) (id : AccountId) (j : ℕ) → follows xs id j ≡ true → j ≤ length xs
follows-le xs id zero h = omega arith
follows-le [] id (suc j) h = cc
follows-le (x ∷ xs) id (suc zero) h = omega arith
follows-le (x ∷ xs) id (suc (suc j)) h = omega (arith, follows-le xs id (suc j) h)

IsAfter-insert_at :
    (x a : Account) (xs : List Account) (j : ℕ)
    → IsAfter x.id xs
    → follows (x ∷ xs) a.id (suc j) ≡ true
    → IsAfter x.id (insert_at xs j a)
IsAfter-insert_at x a [] zero h f = ltb→lt _ _ f
IsAfter-insert_at x a (y ∷ xs) zero h f = ltb→lt _ _ f
IsAfter-insert_at x a [] (suc j) h f = cc
IsAfter-insert_at x a (y ∷ xs) (suc j) h f = h

follows-tail :
    (x : Account) (xs : List Account) (id : AccountId) (j : ℕ)
    → follows (x ∷ xs) id (suc j) ≡ true
    → follows xs id j ≡ true
follows-tail x xs id zero h = refl
follows-tail x xs id (suc j) h = h

-- An account goes into the gap of its identifier.
pub insert_at-IsLedger :
    (a : Account) (xs : List Account) (j : ℕ)
    → IsCanonical a.balances
    → IsLedger xs
    → IsGap a.id xs j
    → IsLedger (insert_at xs j a)
insert_at-IsLedger a [] j k h g = (k, tt, tt)
insert_at-IsLedger a (x ∷ xs) zero k h g = (k, ltb→lt _ _ g.1, h)
insert_at-IsLedger a (x ∷ xs) (suc j) k h g = (
  h.0,
  IsAfter-insert_at x a xs j h.1 g.0,
  insert_at-IsLedger a xs j k h.2 (follows-tail x xs a.id j g.0, g.1),
)

pub total-insert_at :
    (asset : AssetId) (a : Account) (xs : List Account) (j : ℕ)
    → total asset (insert_at xs j a) ≡ total asset xs + held asset a.balances
total-insert_at asset a [] j = omega arith
total-insert_at asset a (x ∷ xs) zero = omega arith
total-insert_at asset a (x ∷ xs) (suc j) = omega (arith, total-insert_at asset a xs j)

-- The ledger with the account of a deposit in it.
pub record IsOpened (xs : List Account) (who : AccountId) (r : ℕ × List Account) : Type 0 where
  pub ledger : IsLedger r.1
  pub stands : get_elem? (ids r.1) r.0 ≡ some who
  pub same_total : (asset : AssetId) → total asset r.1 ≡ total asset xs
  pub same_owned : (id : AccountId) (asset : AssetId) → owned id asset r.1 ≡ owned id asset xs
  pub kept : Keeps xs r.1

Keeps-insert_at : (xs : List Account) (j : ℕ) (a : Account) → Keeps xs (insert_at xs j a)
Keeps-insert_at [] j a = tt
Keeps-insert_at (x ∷ xs) zero a =
    All-imp (λ id h. is_key-later a.id id (ids (x ∷ xs)) h) (ids (x ∷ xs))
      (All-is_key_self (ids (x ∷ xs)))
Keeps-insert_at (x ∷ xs) (suc j) a = (
  ground arith,
  All-imp (λ id h. is_key-later x.id id (ids (insert_at xs j a)) h) (ids xs)
      (Keeps-insert_at xs j a),
)

open_account-IsOpened :
    (xs : List Account) (d : Deposit) (s : Search)
    → IsLedger xs
    → IsSpot d.account xs s
    → Safe (IsOpened xs d.account) (open_account xs d s)
open_account-IsOpened xs d (found i) h p = record {
  ledger = h;
  stands = p;
  same_total = λ asset. refl;
  same_owned = λ id asset. refl;
  kept = Keeps-of_ids xs xs refl;
}
open_account-IsOpened xs d (vacant j) h p =
    let le : j ≤ length xs = follows-le xs d.account j p.0 in
    let room : ltb (length xs) j ≡ false = ground arith in
    elim (Bool-cases (leb max_touched_accounts_per_batch (length xs))) [
      | inl full ↦ rw full tt
      | inr space ↦
          rw (space, room)
            (record {
              ledger = insert_at-IsLedger (new_account d.account) xs j tt h p;
              stands = stands-insert_at (new_account d.account) xs j le;
              same_total =
                  λ asset. omega (arith, total-insert_at asset (new_account d.account) xs j);
              same_owned =
                  λ id asset. ground (arith, owned-insert_at id asset (new_account d.account) xs j);
              kept = Keeps-insert_at xs j (new_account d.account);
            })
    ]

-- The deposits of an asset, summed.
abbrev pub deposited : AssetId → List Deposit → ℕ
deposited asset [] = 0
deposited asset (d ∷ ds) = part asset d.asset d.amount + deposited asset ds

-- The deposits of an asset into one account, summed.
abbrev pub deposited_to : AccountId → AssetId → List Deposit → ℕ
deposited_to id asset [] = 0
deposited_to id asset (d ∷ ds) =
    posted d.account d.asset d.amount id asset + deposited_to id asset ds

-- The ledger after deposits: no account is lost, each account holds what it held and what was
-- deposited into it, and each total has grown by what was deposited.
pub record IsGrown (xs : List Account) (ds : List Deposit) (ys : List Account) : Type 0 where
  pub ledger : IsLedger ys
  pub grown : (asset : AssetId) → total asset ys ≡ total asset xs + deposited asset ds
  pub credited :
      (id : AccountId) (asset : AssetId)
      → owned id asset ys ≡ owned id asset xs + deposited_to id asset ds
  pub kept : Keeps xs ys

abbrev pub HasIndex : Deposit → Type 0
HasIndex d = (i : ℕ) × (d.account_index ≡ some i)

apply_deposit-Safe :
    (xs : List Account) (d : Deposit)
    → IsLedger xs
    → HasIndex d
    → Safe (IsGrown xs (d ∷ [])) (apply_deposit xs d)
unfolding apply_deposit
apply_deposit-Safe xs d h ix = simp ix.1 (
    Safe-bind (IsOpened xs d.account) (IsGrown xs (d ∷ [])) _ _
      (open_account-IsOpened xs d (locate_at xs d.account ix.0) h
        (locate_at-IsSpot xs d.account ix.0))
      (λ r o.
        Safe-imp (λ ys. Shifted r.1 ys × Posted r.1 ys) (IsGrown xs (d ∷ [])) _
          (Safe-and (Shifted r.1) (Posted r.1) _
            (update_at-credit d.asset d.amount r.1 r.0 o.ledger
              (stands-lt r.1 r.0 d.account o.stands))
            (update_at-credits d.asset d.amount d.account r.1 r.0 o.ledger o.stands))
          (λ ys s. record {
            ledger = s.0.ledger;
            grown = λ asset. omega (arith, s.0.moved asset, o.same_total asset);
            credited = λ id asset. omega (arith, s.1.posts id asset, o.same_owned id asset);
            kept = Keeps-trans xs r.1 ys o.kept (Keeps-of_ids r.1 ys s.0.same_ids);
          })))
  where
    Shifted : List Account → List Account → Type 0
    Shifted = IsShifted (flow d.asset d.amount) no_flow

    Posted : List Account → List Account → Type 0
    Posted = IsPosted (posted d.account d.asset d.amount) no_post

-- On a ledger, deposits that each carry an index, right or wrong, never make `apply_deposits` panic.
-- What it accepts is a ledger again, no account is lost, every account holds what it held and what is
-- deposited into it, asset by asset, and every asset's total has grown by what is deposited of it.
pub apply_deposits-Safe :
    (xs : List Account) (ds : List Deposit)
    → IsLedger xs
    → All HasIndex ds
    → Safe (IsGrown xs ds) (apply_deposits xs ds)
unfolding apply_deposits
apply_deposits-Safe xs [] h ix = record {
  ledger = h;
  grown = λ asset. omega arith;
  credited = λ id asset. omega arith;
  kept = Keeps-of_ids xs xs refl;
}
apply_deposits-Safe xs (d ∷ ds) h ix =
    Safe-bind (IsGrown xs (d ∷ [])) (IsGrown xs (d ∷ ds)) _ _ (apply_deposit-Safe xs d h ix.0)
      (λ ys g.
        Safe-imp (IsGrown ys ds) (IsGrown xs (d ∷ ds)) _ (apply_deposits-Safe ys ds g.ledger ix.1)
          (λ zs g'. record {
            ledger = g'.ledger;
            grown = λ asset. omega (arith, g.grown asset, g'.grown asset);
            credited = λ id asset. omega (arith, g.credited id asset, g'.credited id asset);
            kept = Keeps-trans xs ys zs g.kept g'.kept;
          }))
