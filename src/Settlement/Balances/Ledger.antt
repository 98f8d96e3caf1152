-- ===== src/Settlement/Balances/Ledger.antt =====
-- The list of accounts as a ledger: its order, its totals, and one method applied in place.
use zk_clob.Prelude.{
  ℕ, zero, suc, ◌+◌, ◌<◌, ◌≡◌, refl, ap, ◌∙◌, List, [], ◌∷◌, some, map, length, All, All-imp,
  is_key, All-is_key, All-is_key_self, true, get_elem?, arith,
}
use zk_clob.Types.Ids.{AccountId, AssetId}
use zk_clob.Types.Account.{Account}
use zk_clob.Types.Errors.{Result, ok, err, panic, ◌>>=◌}
use mathlib.Core.Path.{subst}
use zk_clob.Types.Results.{Safe, Safe-bind, Safe-imp, Succeeds, Succeeds-bind}
use zk_clob.Account.{debit, credit}
use zk_clob.Account.Held.{part, held, IsCanonical}
use zk_clob.Account.Laws.{debit_result, credit_result, DebitResult, CreditResult}
use zk_clob.Settlement.Balances.{update_at}

-- What all accounts hold of an asset.
abbrev pub total : AssetId → List Account → ℕ
total asset [] = 0
total asset (a ∷ as') = held asset a.balances + total asset as'

abbrev pub IsAfter : AccountId → List Account → Type 0
IsAfter id [] = Unit
IsAfter id (a ∷ as') = id < a.id

-- Ascending by identifier, each account canonical.
abbrev pub IsLedger : List Account → Type 0
IsLedger [] = Unit
IsLedger (a ∷ as') = IsCanonical a.balances × IsAfter a.id as' × IsLedger as'

abbrev pub ids : List Account → List AccountId
ids = map (λ (a : Account). a.id)

-- Every account of the first list has its identifier in the second.
abbrev pub Keeps : List Account → List Account → Type 0
Keeps xs ys = All (λ id. is_key (ids ys) id ≡ true) (ids xs)

pub Keeps-of_ids : (xs ys : List Account) → ids ys ≡ ids xs → Keeps xs ys
Keeps-of_ids xs ys e = rw e (All-is_key_self (ids xs))

pub Keeps-trans : (xs ys zs : List Account) → Keeps xs ys → Keeps ys zs → Keeps xs zs
Keeps-trans xs ys zs h k =
    All-imp (λ id there. All-is_key (λ j. is_key (ids zs) j ≡ true) (ids ys) id there k) (ids xs) h

abbrev pub nonces : List Account → List ℕ
nonces = map (λ (a : Account). a.next_nonce)

-- One account before and after: identity and nonce stay, and the holdings shift by the flows.
pub record IsMoved (inflow outflow : AssetId → ℕ) (a a' : Account) : Type 0 where
  pub same_id : a'.id ≡ a.id
  pub same_nonce : a'.next_nonce ≡ a.next_nonce
  pub canonical : IsCanonical a'.balances
  pub moved :
      (asset : AssetId)
      → held asset a'.balances + outflow asset ≡ held asset a.balances + inflow asset

-- The same of a ledger, with its totals.
pub record IsShifted (inflow outflow : AssetId → ℕ) (xs xs' : List Account) : Type 0 where
  pub ledger : IsLedger xs'
  pub same_ids : ids xs' ≡ ids xs
  pub same_nonces : nonces xs' ≡ nonces xs
  pub moved : (asset : AssetId) → total asset xs' + outflow asset ≡ total asset xs + inflow asset

abbrev pub no_flow : AssetId → ℕ
no_flow asset = 0

abbrev pub flow : AssetId → ℕ → AssetId → ℕ
flow asset amount other = part other asset amount

pub IsMoved-of_DebitResult :
    (a : Account) (asset : AssetId) (amount : ℕ) (r : Result Account)
    → DebitResult a asset amount r
    → Safe (IsMoved no_flow (flow asset amount) a) r
IsMoved-of_DebitResult a asset amount (ok a') h = record {
  same_id = h.1.same_id;
  same_nonce = h.1.same_nonce;
  canonical = h.1.canonical;
  moved = λ other. omega (arith, h.1.moved other);
}
IsMoved-of_DebitResult a asset amount (err e) h = tt
IsMoved-of_DebitResult a asset amount panic h = h

pub IsMoved-of_CreditResult :
    (a : Account) (asset : AssetId) (amount : ℕ) (r : Result Account)
    → CreditResult a asset amount r
    → Safe (IsMoved (flow asset amount) no_flow a) r
IsMoved-of_CreditResult a asset amount (ok a') h = record {
  same_id = h.same_id;
  same_nonce = h.same_nonce;
  canonical = h.canonical;
  moved = λ other. omega (arith, h.moved other);
}
IsMoved-of_CreditResult a asset amount (err e) h = tt
IsMoved-of_CreditResult a asset amount panic h = h

pub IsAfter-of_ids :
    (id : AccountId) (xs xs' : List Account) → ids xs' ≡ ids xs → IsAfter id xs → IsAfter id xs'
IsAfter-of_ids id [] [] e h = tt
IsAfter-of_ids id [] (y ∷ ys) e h = cc
IsAfter-of_ids id (x ∷ xs) [] e h = tt
IsAfter-of_ids id (x ∷ xs) (y ∷ ys) e h = ground arith

pub length_of_ids : (xs xs' : List Account) → ids xs' ≡ ids xs → length xs' ≡ length xs
length_of_ids [] [] e = refl
length_of_ids [] (y ∷ ys) e = cc
length_of_ids (x ∷ xs) [] e = cc
length_of_ids (x ∷ xs) (y ∷ ys) e = ap suc (length_of_ids xs ys (cc))

module _ (inflow outflow : AssetId → ℕ) where
  IsShifted-head :
      (a a' : Account) (xs : List Account)
      → IsLedger (a ∷ xs)
      → IsMoved inflow outflow a a'
      → IsShifted inflow outflow (a ∷ xs) (a' ∷ xs)
  IsShifted-head a a' xs h m = record {
    ledger = (m.canonical, ground arith, h.2);
    same_ids = ground (arith, m.same_id);
    same_nonces = ground (arith, m.same_nonce);
    moved = λ asset. omega (arith, m.moved asset);
  }

  IsShifted-tail :
      (a : Account) (xs xs' : List Account)
      → IsLedger (a ∷ xs)
      → IsShifted inflow outflow xs xs'
      → IsShifted inflow outflow (a ∷ xs) (a ∷ xs')
  IsShifted-tail a xs xs' h s = record {
    ledger = (h.0, IsAfter-of_ids a.id xs xs' s.same_ids h.1, s.ledger);
    same_ids = ap (λ is. a.id ∷ is) s.same_ids;
    same_nonces = ap (λ ns. a.next_nonce ∷ ns) s.same_nonces;
    moved = λ asset. omega (arith, s.moved asset);
  }

  -- A method that shifts one account shifts the ledger, at an index in range.
  pub update_at-Safe :
      (method : Account → Result Account)
      → ((a : Account) → IsCanonical a.balances → Safe (IsMoved inflow outflow a) (method a))
      → (xs : List Account) (i : ℕ) → IsLedger xs
      → i < length xs
      → Safe (IsShifted inflow outflow xs) (update_at xs i method)
  update_at-Safe method law [] i h lt = absurd (omega arith)
  update_at-Safe method law (a ∷ xs) zero h lt =
      Safe-bind (IsMoved inflow outflow a) (IsShifted inflow outflow (a ∷ xs)) (method a) _
        (law a h.0) (λ a' m. IsShifted-head a a' xs h m)
  update_at-Safe method law (a ∷ xs) (suc i) h lt =
      Safe-bind (IsShifted inflow outflow xs) (IsShifted inflow outflow (a ∷ xs))
        (update_at xs i method) _ (update_at-Safe method law xs i h.2 (omega arith))
        (λ xs' s. IsShifted-tail a xs xs' h s)

pub update_at-debit :
    (asset : AssetId) (amount : ℕ) (xs : List Account) (i : ℕ)
    → IsLedger xs
    → i < length xs
    → Safe (IsShifted no_flow (flow asset amount) xs) (update_at xs i (λ a. debit a asset amount))
update_at-debit asset amount =
    update_at-Safe no_flow (flow asset amount) (λ a. debit a asset amount)
      (λ a h. IsMoved-of_DebitResult a asset amount _ (debit_result a asset amount h))

pub update_at-credit :
    (asset : AssetId) (amount : ℕ) (xs : List Account) (i : ℕ)
    → IsLedger xs
    → i < length xs
    → Safe (IsShifted (flow asset amount) no_flow xs) (update_at xs i (λ a. credit a asset amount))
update_at-credit asset amount =
    update_at-Safe (flow asset amount) no_flow (λ a. credit a asset amount)
      (λ a h. IsMoved-of_CreditResult a asset amount _ (credit_result a asset amount h))

-- Two shifts in a row add up.
pub IsShifted-trans :
    (in₁ out₁ in₂ out₂ : AssetId → ℕ) (xs ys zs : List Account)
    → IsShifted in₁ out₁ xs ys
    → IsShifted in₂ out₂ ys zs
    → IsShifted (λ a. in₁ a + in₂ a) (λ a. out₁ a + out₂ a) xs zs
IsShifted-trans in₁ out₁ in₂ out₂ xs ys zs s t = record {
  ledger = t.ledger;
  same_ids = t.same_ids ∙ s.same_ids;
  same_nonces = t.same_nonces ∙ s.same_nonces;
  moved = λ asset. omega (arith, s.moved asset, t.moved asset);
}

pub IsShifted-refl : (xs : List Account) → IsLedger xs → IsShifted no_flow no_flow xs xs
IsShifted-refl xs h = record {
  ledger = h;
  same_ids = refl;
  same_nonces = refl;
  moved = λ asset. refl;
}

-- The flows may be replaced by any with the same difference.
pub IsShifted-flows :
    (in₁ out₁ in₂ out₂ : AssetId → ℕ) (xs ys : List Account)
    → ((a : AssetId) → in₁ a + out₂ a ≡ in₂ a + out₁ a)
    → IsShifted in₁ out₁ xs ys
    → IsShifted in₂ out₂ xs ys
IsShifted-flows in₁ out₁ in₂ out₂ xs ys same s = record {
  ledger = s.ledger;
  same_ids = s.same_ids;
  same_nonces = s.same_nonces;
  moved = λ asset. omega (arith, s.moved asset, same asset);
}

-- A shift, and then a step that is another shift.
pub IsShifted-bind :
    (in₁ out₁ in₂ out₂ : AssetId → ℕ) (xs : List Account) (m : Result (List Account))
    (f : List Account → Result (List Account))
    → Safe (IsShifted in₁ out₁ xs) m
    → ((ys : List Account) → IsShifted in₁ out₁ xs ys → Safe (IsShifted in₂ out₂ ys) (f ys))
    → Safe (IsShifted (λ a. in₁ a + in₂ a) (λ a. out₁ a + out₂ a) xs) (m >>= f)
IsShifted-bind in₁ out₁ in₂ out₂ xs m f h k =
    Safe-bind (IsShifted in₁ out₁ xs) (IsShifted _ _ xs) m f h (λ ys s.
      Safe-imp (IsShifted in₂ out₂ ys) (IsShifted _ _ xs) (f ys) (k ys s)
        (λ zs t. IsShifted-trans in₁ out₁ in₂ out₂ xs ys zs s t))

pub length_of_IsShifted :
    (inflow outflow : AssetId → ℕ) (xs ys : List Account)
    → IsShifted inflow outflow xs ys
    → length ys ≡ length xs
length_of_IsShifted inflow outflow xs ys s = length_of_ids xs ys s.same_ids

-- The account at an index of a ledger is canonical.
pub get_elem?-IsCanonical :
    (xs : List Account) (i : ℕ) {a : Account}
    → IsLedger xs
    → get_elem? xs i ≡ some a
    → IsCanonical a.balances
get_elem?-IsCanonical [] i h e = cc
get_elem?-IsCanonical (x ∷ xs) zero {a = a} h e =
    let same : x ≡ a = cc in subst (λ (y : Account). IsCanonical y.balances) same h.0
get_elem?-IsCanonical (x ∷ xs) (suc i) h e = get_elem?-IsCanonical xs i h.2 e

-- A method that succeeds on the account at an index succeeds on the ledger.
pub update_at-Succeeds :
    (inflow outflow : AssetId → ℕ) (method : Account → Result Account) (xs : List Account) (i : ℕ)
    (a : Account)
    → IsLedger xs
    → get_elem? xs i ≡ some a
    → Succeeds (IsMoved inflow outflow a) (method a)
    → Succeeds (IsShifted inflow outflow xs) (update_at xs i method)
update_at-Succeeds inflow outflow method [] i a h e law = cc
update_at-Succeeds inflow outflow method (x ∷ xs) zero a h e law =
    let same : a ≡ x = cc in
    Succeeds-bind (IsMoved inflow outflow x) (IsShifted inflow outflow (x ∷ xs)) (method x) _
      (subst (λ y. Succeeds (IsMoved inflow outflow y) (method y)) same law)
      (λ a' m. IsShifted-head inflow outflow x a' xs h m)
update_at-Succeeds inflow outflow method (x ∷ xs) (suc i) a h e law =
    Succeeds-bind (IsShifted inflow outflow xs) (IsShifted inflow outflow (x ∷ xs))
      (update_at xs i method) _ (update_at-Succeeds inflow outflow method xs i a h.2 e law)
      (λ xs' s. IsShifted-tail inflow outflow x xs xs' h s)
