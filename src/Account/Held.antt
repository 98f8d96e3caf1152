-- ===== src/Account/Held.antt =====
-- Holdings: what a list of balances holds of an asset, summed, and the canonical form of the list.
use zk_clob.Prelude.{
  ℕ, zero, suc, ◌+◌, ◌<◌, ◌≤◌, ◌≡◌, refl, List, [], ◌∷◌, some, get_elem?, set, insert_at, remove_at,
  ◌==◌, if◌then◌else◌, arith,
}
use zk_clob.Types.Ids.{AssetId}
use zk_clob.Types.Account.{AssetBalance}
use zk_clob.Account.{balance_in, with_available}

-- `amount` if the two assets are one, else nothing.
abbrev pub part : AssetId → AssetId → ℕ → ℕ
part asset other amount = if other == asset then amount else 0

abbrev pub held : AssetId → List AssetBalance → ℕ
held asset [] = 0
held asset (b ∷ bs) = part asset b.asset b.available + held asset bs

-- The first entry, if any, is of a later asset.
abbrev pub IsBelow : AssetId → List AssetBalance → Type 0
IsBelow asset [] = Unit
IsBelow asset (b ∷ bs) = asset < b.asset

-- Ascending by asset, with no zero.
abbrev pub IsCanonical : List AssetBalance → Type 0
IsCanonical [] = Unit
IsCanonical (b ∷ bs) = (0 < b.available) × IsBelow b.asset bs × IsCanonical bs

pub held-IsBelow :
    (asset key : AssetId) (bs : List AssetBalance)
    → IsCanonical bs
    → IsBelow key bs
    → asset ≤ key
    → held asset bs ≡ 0
held-IsBelow asset key [] h below le = refl
held-IsBelow asset key (b ∷ bs) h below le =
    ground (arith, held-IsBelow asset b.asset bs h.2 h.1 (omega arith))

-- A canonical list has one entry for an asset, so the first entry found is the sum.
pub balance_in-eq-held :
    (asset : AssetId) (bs : List AssetBalance)
    → IsCanonical bs
    → balance_in bs asset ≡ held asset bs
balance_in-eq-held asset [] h = refl
balance_in-eq-held asset (b ∷ bs) h =
    ground (arith, balance_in-eq-held asset bs h.2, held-IsBelow asset b.asset bs h.2 h.1)

-- The sum after each change of one entry.
pub held-set :
    (asset : AssetId) (bs : List AssetBalance) (i n : ℕ) {b : AssetBalance}
    → get_elem? bs i ≡ some b
    → held asset (set bs i (with_available b n)) + part asset b.asset b.available
      ≡ held asset bs + part asset b.asset n
held-set asset [] i n e = cc
held-set asset (x ∷ bs) zero n e = ground arith
held-set asset (x ∷ bs) (suc i) n e = omega (arith, held-set asset bs i n e)

pub held-remove_at :
    (asset : AssetId) (bs : List AssetBalance) (i : ℕ) {b : AssetBalance}
    → get_elem? bs i ≡ some b
    → held asset (remove_at bs i) + part asset b.asset b.available ≡ held asset bs
held-remove_at asset [] i e = cc
held-remove_at asset (x ∷ bs) zero e = ground arith
held-remove_at asset (x ∷ bs) (suc i) e = omega (arith, held-remove_at asset bs i e)

pub held-insert_at :
    (asset : AssetId) (bs : List AssetBalance) (i : ℕ) (b : AssetBalance)
    → held asset (insert_at bs i b) ≡ held asset bs + part asset b.asset b.available
held-insert_at asset [] i b = omega arith
held-insert_at asset (x ∷ bs) zero b = omega arith
held-insert_at asset (x ∷ bs) (suc i) b = omega (arith, held-insert_at asset bs i b)
