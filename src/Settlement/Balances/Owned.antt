-- ===== src/Settlement/Balances/Owned.antt =====
-- The list of accounts account by account: what each holds, and which account a change is of.
use zk_clob.Prelude.{
  ℕ, zero, suc, ◌+◌, ◌<◌, ◌≤◌, ◌≡◌, refl, ap, ◌∙◌, true, List, [], ◌∷◌, Option, some, get_elem?,
  insert_at, length, arith,
}
use zk_clob.Types.Ids.{AccountId, AssetId}
use zk_clob.Types.Account.{Account}
use zk_clob.Types.Errors.{Result, ◌>>=◌}
use zk_clob.Types.Results.{Accepts, Accepts-bind, Accepts-imp, Accepts-of_Safe, Safe}
use zk_clob.Account.{debit, credit}
use zk_clob.Account.Held.{part, held, IsCanonical}
use zk_clob.Account.Laws.{debit_result, credit_result}
use zk_clob.Settlement.Balances.{update_at, holds}
use zk_clob.Settlement.Balances.Ledger.{
  ids, IsAfter, IsLedger, IsMoved, no_flow, flow, IsMoved-of_DebitResult, IsMoved-of_CreditResult,
  IsAfter-of_ids,
}

-- What the account of an identifier holds of an asset.
abbrev pub owned : AccountId → AssetId → List Account → ℕ
owned id asset [] = 0
owned id asset (a ∷ as') = part id a.id (held asset a.balances) + owned id asset as'

-- An amount of an asset that is of one account.
abbrev pub posted : AccountId → AssetId → ℕ → AccountId → AssetId → ℕ
posted who asset amount id other = part id who (part other asset amount)

abbrev pub no_post : AccountId → AssetId → ℕ
no_post id asset = 0

-- The account of an identifier stands at an index.
abbrev pub IsLed : List AccountId → AccountId → Option ℕ → Type 0
IsLed ks id index = (i : ℕ) × (index ≡ some i) × (get_elem? ks i ≡ some id)

-- A ledger before and after: its accounts stay, and what each holds changes by what is posted to it.
pub record IsPosted (inflow outflow : AccountId → AssetId → ℕ) (xs ys : List Account) : Type 0 where
  pub ledger : IsLedger ys
  pub same_ids : ids ys ≡ ids xs
  pub posts :
      (id : AccountId) (asset : AssetId)
      → owned id asset ys + outflow id asset ≡ owned id asset xs + inflow id asset

pub IsPosted-refl : (xs : List Account) → IsLedger xs → IsPosted no_post no_post xs xs
IsPosted-refl xs h = record { ledger = h; same_ids = refl; posts = λ id asset. refl }

pub IsPosted-trans :
    (in₁ out₁ in₂ out₂ : AccountId → AssetId → ℕ) (xs ys zs : List Account)
    → IsPosted in₁ out₁ xs ys
    → IsPosted in₂ out₂ ys zs
    → IsPosted (λ id a. in₁ id a + in₂ id a) (λ id a. out₁ id a + out₂ id a) xs zs
IsPosted-trans in₁ out₁ in₂ out₂ xs ys zs s t = record {
  ledger = t.ledger;
  same_ids = t.same_ids ∙ s.same_ids;
  posts = λ id asset. omega (arith, s.posts id asset, t.posts id asset);
}

-- What is posted may be replaced by anything with the same difference.
pub IsPosted-flows :
    (in₁ out₁ in₂ out₂ : AccountId → AssetId → ℕ) (xs ys : List Account)
    → ((id : AccountId) (a : AssetId) → in₁ id a + out₂ id a ≡ in₂ id a + out₁ id a)
    → IsPosted in₁ out₁ xs ys
    → IsPosted in₂ out₂ xs ys
IsPosted-flows in₁ out₁ in₂ out₂ xs ys same s = record {
  ledger = s.ledger;
  same_ids = s.same_ids;
  posts = λ id asset. omega (arith, s.posts id asset, same id asset);
}

pub IsPosted-bind :
    (in₁ out₁ in₂ out₂ : AccountId → AssetId → ℕ) (xs : List Account) (m : Result (List Account))
    (f : List Account → Result (List Account))
    → Accepts (IsPosted in₁ out₁ xs) m
    → ((ys : List Account) → IsPosted in₁ out₁ xs ys → Accepts (IsPosted in₂ out₂ ys) (f ys))
    → Accepts (IsPosted (λ id a. in₁ id a + in₂ id a) (λ id a. out₁ id a + out₂ id a) xs) (m >>= f)
IsPosted-bind in₁ out₁ in₂ out₂ xs m f h k =
    Accepts-bind (IsPosted in₁ out₁ xs) (IsPosted _ _ xs) m f h (λ ys s.
      Accepts-imp (IsPosted in₂ out₂ ys) (IsPosted _ _ xs) (f ys) (k ys s)
        (λ zs t. IsPosted-trans in₁ out₁ in₂ out₂ xs ys zs s t))

module _ (inflow outflow : AssetId → ℕ) (who : AccountId) where
  abbrev OfOne : List Account → List Account → Type 0
  OfOne = IsPosted (λ id a. part id who (inflow a)) (λ id a. part id who (outflow a))

  OfOne-head :
      (a a' : Account) (xs : List Account)
      → IsLedger (a ∷ xs)
      → a.id ≡ who
      → IsMoved inflow outflow a a'
      → OfOne (a ∷ xs) (a' ∷ xs)
  OfOne-head a a' xs h e m = record {
    ledger = (m.canonical, ground (arith, m.same_id), h.2);
    same_ids = ground (arith, m.same_id);
    posts = λ id asset. ground (arith, m.moved asset, m.same_id);
  }

  OfOne-tail :
      (a : Account) (xs xs' : List Account)
      → IsLedger (a ∷ xs)
      → OfOne xs xs'
      → OfOne (a ∷ xs) (a ∷ xs')
  OfOne-tail a xs xs' h s = record {
    ledger = (h.0, IsAfter-of_ids a.id xs xs' s.same_ids h.1, s.ledger);
    same_ids = ap (λ is. a.id ∷ is) s.same_ids;
    posts = λ id asset. omega (arith, s.posts id asset);
  }

  -- A method that shifts one account shifts no other.
  pub update_at-Accepts :
      (method : Account → Result Account)
      → ((a : Account) → IsCanonical a.balances → Safe (IsMoved inflow outflow a) (method a))
      → (xs : List Account) (i : ℕ) → IsLedger xs
      → get_elem? (ids xs) i ≡ some who
      → Accepts (OfOne xs) (update_at xs i method)
  update_at-Accepts method law [] i h e = tt
  update_at-Accepts method law (a ∷ xs) zero h e =
      Accepts-bind (IsMoved inflow outflow a) (OfOne (a ∷ xs)) (method a) _
        (Accepts-of_Safe (IsMoved inflow outflow a) (method a) (law a h.0))
        (λ a' m. OfOne-head a a' xs h (cc) m)
  update_at-Accepts method law (a ∷ xs) (suc i) h e =
      Accepts-bind (OfOne xs) (OfOne (a ∷ xs)) (update_at xs i method) _
        (update_at-Accepts method law xs i h.2 e) (λ xs' s. OfOne-tail a xs xs' h s)

-- A debit or a credit at an index is of the account that stands there.
pub update_at-debits :
    (asset : AssetId) (amount : ℕ) (who : AccountId) (xs : List Account) (i : ℕ)
    → IsLedger xs
    → get_elem? (ids xs) i ≡ some who
    → Accepts
        (IsPosted no_post (posted who asset amount) xs)
        (update_at xs i (λ a. debit a asset amount))
update_at-debits asset amount who xs i h e =
    Accepts-imp (OfOne no_flow (flow asset amount) who xs)
      (IsPosted no_post (posted who asset amount) xs) _
      (update_at-Accepts no_flow (flow asset amount) who (λ a. debit a asset amount)
        (λ a k. IsMoved-of_DebitResult a asset amount _ (debit_result a asset amount k)) xs i h e)
      (λ ys s. IsPosted-flows _ _ _ _ xs ys (λ id other. ground arith) s)

pub update_at-credits :
    (asset : AssetId) (amount : ℕ) (who : AccountId) (xs : List Account) (i : ℕ)
    → IsLedger xs
    → get_elem? (ids xs) i ≡ some who
    → Accepts
        (IsPosted (posted who asset amount) no_post xs)
        (update_at xs i (λ a. credit a asset amount))
update_at-credits asset amount who xs i h e =
    Accepts-imp (OfOne (flow asset amount) no_flow who xs)
      (IsPosted (posted who asset amount) no_post xs) _
      (update_at-Accepts (flow asset amount) no_flow who (λ a. credit a asset amount)
        (λ a k. IsMoved-of_CreditResult a asset amount _ (credit_result a asset amount k)) xs i h e)
      (λ ys s. IsPosted-flows _ _ _ _ xs ys (λ id other. ground arith) s)

-- An account before all others is none of them.
owned-IsAfter :
    (id k : AccountId) (asset : AssetId) (xs : List Account)
    → id ≤ k
    → IsAfter k xs
    → IsLedger xs
    → owned id asset xs ≡ 0
owned-IsAfter id k asset [] le after h = refl
owned-IsAfter id k asset (x ∷ xs) le after h =
    ground (arith, owned-IsAfter id x.id asset xs (omega arith) h.1 h.2)

owned-IsBefore :
    (k : AccountId) (xs : List Account) (i : ℕ) (a : Account)
    → IsAfter k xs
    → IsLedger xs
    → get_elem? xs i ≡ some a
    → k < a.id
owned-IsBefore k [] i a after h e = absurd (cc)
owned-IsBefore k (x ∷ xs) zero a after h e = let same : x.id ≡ a.id = cc in omega (arith, same)
owned-IsBefore k (x ∷ xs) (suc i) a after h e = omega (arith, owned-IsBefore x.id xs i a h.1 h.2 e)

-- What an account holds is what its balances do.
pub owned_at :
    (asset : AssetId) (xs : List Account) (i : ℕ) (a : Account)
    → IsLedger xs
    → get_elem? xs i ≡ some a
    → owned a.id asset xs ≡ held asset a.balances
owned_at asset [] i a h e = absurd (cc)
owned_at asset (x ∷ xs) zero a h e =
    let same : x.id ≡ a.id = cc in
    let held_same : held asset x.balances ≡ held asset a.balances = cc in
    ground (arith, owned-IsAfter a.id x.id asset xs (omega (arith, same)) h.1 h.2)
owned_at asset (x ∷ xs) (suc i) a h e =
    let later : x.id < a.id = owned-IsBefore x.id xs i a h.1 h.2 e in
    ground (arith, owned_at asset xs i a h.2 e)

-- The identifier of the account at an index.
pub get_elem?-ids :
    (xs : List Account) (i : ℕ) (a : Account)
    → get_elem? xs i ≡ some a
    → get_elem? (ids xs) i ≡ some a.id
get_elem?-ids [] i a e = absurd (cc)
get_elem?-ids (x ∷ xs) zero a e = cc
get_elem?-ids (x ∷ xs) (suc i) a e = get_elem?-ids xs i a e

pub stands_of_holds :
    (xs : List Account) (i : ℕ) (id : AccountId)
    → holds (get_elem? xs i) id ≡ true
    → get_elem? (ids xs) i ≡ some id
stands_of_holds [] i id h = absurd (cc)
stands_of_holds (x ∷ xs) zero id h = let same : x.id ≡ id = ground arith in ap (λ j. some j) same
stands_of_holds (x ∷ xs) (suc i) id h = stands_of_holds xs i id h

pub stands-lt :
    (xs : List Account) (i : ℕ) (id : AccountId) → get_elem? (ids xs) i ≡ some id → i < length xs
stands-lt [] i id e = absurd (cc)
stands-lt (x ∷ xs) zero id e = omega arith
stands-lt (x ∷ xs) (suc i) id e = omega (arith, stands-lt xs i id e)

-- A new account stands where it is inserted, and adds its balances to what it holds.
pub stands-insert_at :
    (a : Account) (xs : List Account) (j : ℕ)
    → j ≤ length xs
    → get_elem? (ids (insert_at xs j a)) j ≡ some a.id
stands-insert_at a [] zero le = refl
stands-insert_at a [] (suc j) le = absurd (omega arith)
stands-insert_at a (x ∷ xs) zero le = refl
stands-insert_at a (x ∷ xs) (suc j) le = stands-insert_at a xs j (omega arith)

pub owned-insert_at :
    (id : AccountId) (asset : AssetId) (a : Account) (xs : List Account) (j : ℕ)
    → owned id asset (insert_at xs j a) ≡ owned id asset xs + part id a.id (held asset a.balances)
owned-insert_at id asset a [] j = omega arith
owned-insert_at id asset a (x ∷ xs) zero = omega arith
owned-insert_at id asset a (x ∷ xs) (suc j) = omega (arith, owned-insert_at id asset a xs j)
