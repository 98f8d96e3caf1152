-- ===== src/Trees/Sides.antt =====
-- `side_nodes` of crates/core/src/trees/patricia.rs: with the selected leaves they cut the tree.
use zk_clob.Prelude.{
  ℕ, ◌<◌, ◌≤◌, ◌≡◌, refl, ap, Bool, false, ◌&&◌, List, [], ◌∷◌, ◌++◌, any, All, retain, ltb, leb,
  inl, inr, Bool-cases, arith,
}
use zk_clob.Hashing.{Crypto}
use zk_clob.Trees.Node.{Commitment, Node}
use zk_clob.Trees.Patricia.{PatriciaLeaf, selected_in}
use zk_clob.Trees.Built.{leaves_of}
use zk_clob.Trees.Cut.{Cut}
use zk_clob.Settlement.Validation.Accounts.Ledger.{IsAscending}

-- A list put together from two, each in its order.
pub data Interleaved : List Commitment → List Commitment → List Commitment → Type 0 where
  done : Interleaved [] [] []
  left :
      (x : Commitment) {xs ys zs : List Commitment}
      → Interleaved xs ys zs
      → Interleaved (x ∷ xs) ys (x ∷ zs)
  right :
      (y : Commitment) {xs ys zs : List Commitment}
      → Interleaved xs ys zs
      → Interleaved xs (y ∷ ys) (y ∷ zs)

pub Interleaved-append :
    {xs ys zs xs' ys' zs' : List Commitment}
    → Interleaved xs ys zs
    → Interleaved xs' ys' zs'
    → Interleaved (xs ++ xs') (ys ++ ys') (zs ++ zs')
Interleaved-append Interleaved.done i' = i'
Interleaved-append (Interleaved.left x i) i' = Interleaved.left x (Interleaved-append i i')
Interleaved-append (Interleaved.right y i) i' = Interleaved.right y (Interleaved-append i i')

module _ {ℓ} {A : Type ℓ} (test : A → Bool) where
  pub retain-append : (xs ys : List A) → retain test (xs ++ ys) ≡ retain test xs ++ retain test ys
  retain-append [] ys = refl
  retain-append (x ∷ xs) ys = elim (Bool-cases (test x)) [
    | inl passes ↦ rw passes (ap (λ zs. x ∷ zs) (retain-append xs ys))
    | inr fails ↦ rw fails (retain-append xs ys)
  ]

  pub retain_none : (xs : List A) → All (λ x. test x ≡ false) xs → retain test xs ≡ []
  retain_none [] h = refl
  retain_none (x ∷ xs) h = rw h.0 (retain_none xs h.1)

-- Whether a key lies in a range.
abbrev pub in_range : Commitment → ℕ → Bool
in_range n k = leb n.min_key k && leb k n.max_key

below_range :
    (n : Commitment) (k : ℕ) (ks : List ℕ)
    → IsAscending (k ∷ ks)
    → n.max_key < k
    → any (in_range n) ks ≡ false
below_range n k [] h lt = refl
below_range n k (j ∷ ks) h lt = ground (arith, below_range n j ks h.1 (omega (arith, h.0)))

IsAscending-tail : (x : ℕ) (xs : List ℕ) → IsAscending (x ∷ xs) → IsAscending xs
IsAscending-tail x [] h = tt
IsAscending-tail x (y ∷ xs) h = h.1

pub within_unselected :
    (m x : Commitment) (ks : List ℕ)
    → m.min_key ≤ x.min_key
    → x.max_key ≤ m.max_key
    → any (in_range m) ks ≡ false
    → any (in_range x) ks ≡ false
within_unselected m x [] least greatest h = refl
within_unselected m x (k ∷ ks) least greatest h =
    ground (arith, within_unselected m x ks least greatest (ground arith))

module _ (c : Crypto) (bits : ℕ) {L : Type 0} (leaves : PatriciaLeaf L) where
  -- On keys in ascending order, the first key that is not below a range decides.
  pub selected_in-any :
      (ks : List ℕ) (n : Commitment)
      → IsAscending ks
      → selected_in c bits leaves ks n ≡ any (in_range n) ks
  unfolding selected_in
  selected_in-any [] n h = refl
  selected_in-any (k ∷ ks) n h = elim (Bool-cases (ltb k n.min_key)) [
    | inl below ↦ rw below (ground (arith, selected_in-any ks n (IsAscending-tail k ks h)))
    | inr above ↦ rw above (elim (Bool-cases (leb k n.max_key)) [
      | inl inside ↦ ground arith
      | inr beyond ↦ ground (arith, below_range n k ks h (ground arith))
    ])
  ]

  module _ (keys : List ℕ) (ascending : IsAscending keys) where
    abbrev pub selected : Commitment → Bool
    selected = selected_in c bits leaves keys

    -- The selected leaves of a tree and some subtrees without a selected key, in order.
    pub record Fills (n : Node) (sides : List Commitment) : Type 0 where
      pub nodes : List Commitment
      pub cut : Cut n nodes
      pub merged : Interleaved (retain selected (leaves_of n)) sides nodes
      pub unselected : All (λ s. selected s ≡ false) sides
