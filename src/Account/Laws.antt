-- ===== src/Account/Laws.antt =====
-- `debit` and `credit`, types/account.rs, on every branch.
use zk_clob.Prelude.{
  ℕ, ◌+◌, ◌-◌, ◌<◌, ◌≤◌, ◌≡◌, refl, true, false, List, some, Search, found, vacant, get_elem?, set,
  remove_at, inl, inr, ltb, ◌==◌, Bool-cases, binary_search_by_key-IsResult, IsResult, u128_mod,
  checked_sub, checked_add, arith, ◌⊎◌,
}
use zk_clob.Types.Ids.{AssetId}
use zk_clob.Types.Account.{AssetBalance, Account}
use zk_clob.Types.Errors.{Result, ok, err, panic, insufficient_balance, arithmetic_overflow}
use zk_clob.Account.{find_asset, with_available, debit_at, debit, credit_at, credit}
use zk_clob.Account.Held.{part, held, IsCanonical, held-set, held-remove_at, held-insert_at}
use zk_clob.Account.Canonical.{
  held-get_elem?, get_elem?_positive, set-IsCanonical, remove_at-IsCanonical, IsPlace,
  find_asset-IsPlace,
}

-- The account after a debit: nothing but the holding of one asset has changed.
pub record IsDebited (a : Account) (asset : AssetId) (amount : ℕ) (a' : Account) : Type 0 where
  pub same_id : a'.id ≡ a.id
  pub same_nonce : a'.next_nonce ≡ a.next_nonce
  pub canonical : IsCanonical a'.balances
  pub moved :
      (other : AssetId) → held other a'.balances + part other asset amount ≡ held other a.balances

pub record IsCredited (a : Account) (asset : AssetId) (amount : ℕ) (a' : Account) : Type 0 where
  pub same_id : a'.id ≡ a.id
  pub same_nonce : a'.next_nonce ≡ a.next_nonce
  pub canonical : IsCanonical a'.balances
  pub moved :
      (other : AssetId) → held other a'.balances ≡ held other a.balances + part other asset amount

-- The results of a debit: the exact debit, or the exact shortfall.
abbrev pub DebitResult : Account → AssetId → ℕ → Result Account → Type 0
DebitResult a asset amount (ok a') = (amount ≤ held asset a.balances) × IsDebited a asset amount a'
DebitResult a asset amount (err e) =
    ((held asset a.balances < amount) ⊎ (held asset a.balances ≡ 0))
    × (e ≡ insufficient_balance a.id asset (held asset a.balances) amount)
DebitResult a asset amount panic = ⊥

-- The results of a credit: the exact credit, or a sum that does not fit 128 bits.
abbrev pub CreditResult : Account → AssetId → ℕ → Result Account → Type 0
CreditResult a asset amount (ok a') = IsCredited a asset amount a'
CreditResult a asset amount (err e) =
    (u128_mod ≤ held asset a.balances + amount) × (e ≡ arithmetic_overflow)
CreditResult a asset amount panic = ⊥

leb_of_ltb : (a b : ℕ) → ltb a b ≡ false → b ≤ a
leb_of_ltb a b h = ground arith

-- A search that ends without a hit: nothing is held.
abbrev IsVacantOf : AssetId → List AssetBalance → Search → Type 0
IsVacantOf asset bs (found i) = Unit
IsVacantOf asset bs (vacant i) = held asset bs ≡ 0

IsVacantOf-of_IsPlace :
    (b : AssetBalance) (bs : List AssetBalance) (s : Search)
    → IsPlace b bs s
    → IsVacantOf b.asset bs s
IsVacantOf-of_IsPlace b bs (found i) p = tt
IsVacantOf-of_IsPlace b bs (vacant i) p = p.0

find_asset-IsVacantOf :
    (asset : AssetId) (bs : List AssetBalance)
    → IsCanonical bs
    → IsVacantOf asset bs (find_asset bs asset)
find_asset-IsVacantOf asset bs h =
    IsVacantOf-of_IsPlace (record { asset = asset; available = 1 }) bs (find_asset bs asset)
      (find_asset-IsPlace (record { asset = asset; available = 1 }) bs (omega arith) h)

module _ (a : Account) (asset : AssetId) (amount : ℕ) (h : IsCanonical a.balances) where
  module _ (i : ℕ) (b : AssetBalance) (e : get_elem? a.balances i ≡ some b)
      (same : b.asset ≡ asset) where
    full : held asset a.balances ≡ b.available
    full = rw same at (held-get_elem? a.balances i h e)

    debit-set :
        amount ≤ b.available
        → (b.available - amount == 0) ≡ false
        → IsDebited a asset amount
            (record a { balances = set a.balances i (with_available b (b.available - amount)) })
    debit-set le left = record {
      same_id = refl;
      same_nonce = refl;
      canonical = set-IsCanonical a.balances i (b.available - amount) e (ground arith) h;
      moved = λ other. ground (arith, held-set other a.balances i (b.available - amount) e);
    }

    debit-remove_at :
        amount ≤ b.available
        → (b.available - amount == 0) ≡ true
        → IsDebited a asset amount (record a { balances = remove_at a.balances i })
    debit-remove_at le left = record {
      same_id = refl;
      same_nonce = refl;
      canonical = remove_at-IsCanonical a.balances i h;
      moved = λ other. ground (arith, held-remove_at other a.balances i e);
    }

    debit_at-result : DebitResult a asset amount (debit_at a asset amount i)
    unfolding checked_sub
    debit_at-result = elim (Bool-cases (ltb b.available amount)) [
      | inl short ↦ rw (e, short, full) (inl (ground arith), refl)
      | inr enough ↦ elim (Bool-cases (b.available - amount == 0)) [
        | inl gone ↦
            rw (e, enough, gone)
              (
                omega (arith, full, leb_of_ltb b.available amount enough),
                debit-remove_at (leb_of_ltb b.available amount enough) gone,
              )
        | inr left ↦
            rw (e, enough, left)
              (
                omega (arith, full, leb_of_ltb b.available amount enough),
                debit-set (leb_of_ltb b.available amount enough) left,
              )
      ]
    ]

    credit_at-found : CreditResult a asset amount (credit_at a asset amount (found i))
    unfolding checked_add
    credit_at-found = elim (Bool-cases (ltb (b.available + amount) u128_mod)) [
      | inl fits ↦
          rw (e, fits)
            (record {
              same_id = refl;
              same_nonce = refl;
              canonical =
                  set-IsCanonical a.balances i (b.available + amount) e
                    (omega (arith, get_elem?_positive a.balances i h e)) h;
              moved = λ other. ground (arith, held-set other a.balances i (b.available + amount) e);
            })
      | inr over ↦ rw (e, over) (ground (arith, full), refl)
    ]

  credit_at-vacant :
      (i : ℕ)
      → 0 < amount
      → IsPlace (record { asset = asset; available = amount }) a.balances (vacant i)
      → CreditResult a asset amount (credit_at a asset amount (vacant i))
  credit_at-vacant i pos place = record {
    same_id = refl;
    same_nonce = refl;
    canonical = place.1;
    moved =
        λ other. held-insert_at other a.balances i (record { asset = asset; available = amount });
  }

  debit-from :
      (s : Search)
      → IsResult (λ (b : AssetBalance). b.asset) a.balances asset s
      → IsVacantOf asset a.balances s
      → DebitResult a asset amount (elim s [
        | found i ↦ debit_at a asset amount i
        | vacant i ↦ err (insufficient_balance a.id asset 0 amount)
      ])
  debit-from (found i) r v = debit_at-result i r.0 r.1 r.2
  debit-from (vacant i) r v = rw v (inr refl, refl)

  credit-from :
      (s : Search)
      → 0 < amount
      → IsResult (λ (b : AssetBalance). b.asset) a.balances asset s
      → IsPlace (record { asset = asset; available = amount }) a.balances s
      → CreditResult a asset amount (credit_at a asset amount s)
  credit-from (found i) pos r place = credit_at-found i r.0 r.1 r.2
  credit-from (vacant i) pos r place = credit_at-vacant i pos place

  -- On a canonical account `debit` never panics. It takes exactly the amount from the one asset,
  -- leaves identity, nonce and every other holding, and keeps the account canonical, so that no zero
  -- entry stays; it fails only where less than the amount, or nothing, is held, with the holding and
  -- the amount in the error.
  pub debit_result : DebitResult a asset amount (debit a asset amount)
  unfolding debit
  debit_result =
      debit-from (find_asset a.balances asset) (binary_search_by_key-IsResult _ a.balances asset)
        (find_asset-IsVacantOf asset a.balances h)

  -- On a canonical account `credit` never panics. It adds exactly the amount to the one asset, leaves
  -- identity, nonce and every other holding, and keeps the account canonical; it fails only where
  -- the sum does not fit 128 bits.
  pub credit_result : CreditResult a asset amount (credit a asset amount)
  unfolding credit
  credit_result = elim (Bool-cases (amount == 0)) [
    | inl nothing ↦
        rw nothing (record {
          same_id = refl;
          same_nonce = refl;
          canonical = h;
          moved = λ other. ground arith;
        })
    | inr something ↦ rw something (
        credit-from (find_asset a.balances asset) (ground arith)
          (binary_search_by_key-IsResult _ a.balances asset)
          (find_asset-IsPlace (record { asset = asset; available = amount }) a.balances
            (ground arith) h))
  ]
