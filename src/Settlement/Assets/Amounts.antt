-- ===== src/Settlement/Assets/Amounts.antt =====
-- What the tracker holds, and what each operation does to it.
use zk_clob.Prelude.{
  ℕ, ◌+◌, ◌-◌, ◌<◌, ◌≡◌, ◌≢◌, refl, false, [], ◌∷◌, All, checked_add, checked_sub, u128_mod, ltb,
  ◌==◌, inl, inr, Bool-cases, arith,
}
use mathlib.Core.Path.{subst}
use zk_clob.Types.Ids.{AssetId}
use zk_clob.Types.Errors.{Result, ok, err, panic, ◌>>=◌, asset_conservation_violation}
use zk_clob.Types.Results.{Safe, Safe-bind}
use zk_clob.Account.Held.{part}
use zk_clob.Settlement.Assets.{AssetTracker, add, subtract_entry, subtract}

-- What a tracker holds of an asset.
abbrev pub amount_of : AssetId → AssetTracker → ℕ
amount_of asset [] = 0
amount_of asset ((key, value) ∷ ts) = part asset key value + amount_of asset ts

abbrev pub IsAbsent : AssetId → AssetTracker → Type 0
IsAbsent asset = All (λ (e : AssetId × ℕ). e.0 ≢ asset)

-- One entry for an asset, and none of zero.
abbrev pub IsTracker : AssetTracker → Type 0
IsTracker [] = Unit
IsTracker ((key, value) ∷ ts) = (0 < value) × IsAbsent key ts × IsTracker ts

pub amount_of_absent :
    (asset : AssetId) (t : AssetTracker) → IsAbsent asset t → amount_of asset t ≡ 0
amount_of_absent asset [] h = refl
amount_of_absent asset ((key, value) ∷ ts) h = ground (arith, h.0, amount_of_absent asset ts h.1)

-- The tracker after an addition.
pub record IsAdded (t : AssetTracker) (asset : AssetId) (n : ℕ) (t' : AssetTracker) : Type 0 where
  pub tracker : IsTracker t'
  pub amounts : (a : AssetId) → amount_of a t' ≡ amount_of a t + part a asset n
  pub absent : (a : AssetId) → IsAbsent a t → asset ≢ a → IsAbsent a t'

pub add-IsAdded :
    (t : AssetTracker) (asset : AssetId) (n : ℕ)
    → IsTracker t
    → 0 < n
    → Safe (IsAdded t asset n) (add t asset n)
unfolding add checked_add
add-IsAdded [] asset n h pos = elim (Bool-cases (ltb (0 + n) u128_mod)) [
  | inl small ↦ rw small (record {
    tracker = (omega arith, tt, tt);
    amounts = λ a. ground arith;
    absent = λ a _ ne. (ne, tt);
  })
  | inr large ↦ rw large tt
]
add-IsAdded ((key, value) ∷ ts) asset n h pos = elim (Bool-cases (key == asset)) [
  | inl same ↦ elim (Bool-cases (ltb (value + n) u128_mod)) [
    | inl small ↦
        rw (same, small)
          (record {
            tracker = (omega arith, h.1, h.2);
            amounts = λ a. ground arith;
            absent = λ a k ne. k;
          })
    | inr large ↦ rw (same, large) tt
  ]
  | inr other ↦ rw other (
      Safe-bind (IsAdded ts asset n) (IsAdded ((key, value) ∷ ts) asset n) _ _
        (add-IsAdded ts asset n h.2 pos)
        (λ ts' i. record {
          tracker = (h.0, i.absent key h.1 (ground arith), i.tracker);
          amounts = λ a. omega (arith, i.amounts a);
          absent = λ a k ne. (k.0, i.absent a k.1 ne);
        }))
]

-- The tracker after a subtraction.
pub record IsSubtracted (t : AssetTracker) (asset : AssetId) (n : ℕ) (t' : AssetTracker)
    : Type 0 where
  pub tracker : IsTracker t'
  pub amounts : (a : AssetId) → amount_of a t' + part a asset n ≡ amount_of a t
  pub absent : (a : AssetId) → IsAbsent a t → IsAbsent a t'

-- The results of a subtraction: what is left, or a holding that falls short.
abbrev pub SubtractResult : AssetTracker → AssetId → ℕ → Result AssetTracker → Type 0
SubtractResult t asset n (ok t') = IsSubtracted t asset n t'
SubtractResult t asset n (err e) = (amount_of asset t < n) × (e ≡ asset_conservation_violation)
SubtractResult t asset n panic = ⊥

SubtractResult-further :
    (key value : ℕ) (ts : AssetTracker) (asset : AssetId) (n : ℕ) (r : Result AssetTracker)
    → IsTracker ((key, value) ∷ ts)
    → (key == asset) ≡ false
    → SubtractResult ts asset n r
    → SubtractResult ((key, value) ∷ ts) asset n (r >>= λ ts'. ok ((key, value) ∷ ts'))
SubtractResult-further key value ts asset n (ok ts') h other s = record {
  tracker = (h.0, s.absent key h.1, s.tracker);
  amounts = λ a. omega (arith, s.amounts a);
  absent = λ a k. (k.0, s.absent a k.1);
}
SubtractResult-further key value ts asset n (err e) h other s = rw other (omega (arith, s.0), s.1)
SubtractResult-further key value ts asset n panic h other s = s

subtract_entry-result :
    (t : AssetTracker) (asset : AssetId) (n : ℕ)
    → IsTracker t
    → 0 < n
    → SubtractResult t asset n (subtract_entry t asset n)
unfolding subtract_entry checked_sub
subtract_entry-result [] asset n h pos = (pos, refl)
subtract_entry-result ((key, value) ∷ ts) asset n h pos = elim (Bool-cases (key == asset)) [
  | inl same ↦
      let e : key ≡ asset = ground arith in
      let rest : amount_of asset ts ≡ 0 =
        subst (λ k. amount_of k ts ≡ 0) e (amount_of_absent key ts h.1) in
      elim (Bool-cases (ltb value n)) [
        | inl short ↦ rw (same, short) (ground arith, refl)
        | inr enough ↦ elim (Bool-cases (value - n == 0)) [
          | inl gone ↦
              rw (same, enough, gone)
                (record { tracker = h.2; amounts = λ a. ground arith; absent = λ a k. k.1 })
          | inr left ↦
              rw (same, enough, left)
                (record {
                  tracker = (ground arith, h.1, h.2);
                  amounts = λ a. ground arith;
                  absent = λ a k. k;
                })
        ]
      ]
  | inr other ↦ rw other (
      SubtractResult-further key value ts asset n (subtract_entry ts asset n) h other
        (subtract_entry-result ts asset n h.2 pos))
]

-- `subtract` takes exactly the amount, and drops an entry that reaches zero; it fails only where
-- less than the amount is tracked.
pub subtract_result :
    (t : AssetTracker) (asset : AssetId) (n : ℕ)
    → IsTracker t
    → SubtractResult t asset n (subtract t asset n)
unfolding subtract
subtract_result t asset n h = elim (Bool-cases (n == 0)) [
  | inl nothing ↦
      rw nothing (record { tracker = h; amounts = λ a. ground arith; absent = λ a k. k })
  | inr something ↦ rw something (subtract_entry-result t asset n h (ground arith))
]
