-- ===== src/Trees/Rows.antt =====
-- Rows of trees and their commitments.
use zk_clob.Prelude.{
  ℕ, ◌≡◌, refl, sym, ap, ◌∙◌, Bool, some, List, [], ◌∷◌, ◌++◌, All, retain, inl, inr, Bool-cases,
}
use zk_clob.Hashing.{Crypto}
use zk_clob.Trees.Node.{Commitment, Node, commitment}
use zk_clob.Trees.Parts.{last}
use zk_clob.Trees.Built.{leaves_of, IsCanonical}
use zk_clob.Trees.Cut.{Covers}
use zk_clob.Trees.Apart.{all_leaves, Heads}
use zk_clob.Trees.Unique.{leaves-Covers, canonical_unique}

module _ {ℓ κ} {A : Type ℓ} (P : A → Type κ) where
  pub All-left : (xs ys : List A) → All P (xs ++ ys) → All P xs
  All-left [] ys h = tt
  All-left (x ∷ xs) ys h = (h.0, All-left xs ys h.1)

  pub All-right : (xs ys : List A) → All P (xs ++ ys) → All P ys
  All-right [] ys h = h
  All-right (x ∷ xs) ys h = All-right xs ys h.1

  pub All-retain : (test : A → Bool) (xs : List A) → All P xs → All P (retain test xs)
  All-retain test [] h = tt
  All-retain test (x ∷ xs) h = elim (Bool-cases (test x)) [
    | inl passes ↦ rw passes (h.0, All-retain test xs h.1)
    | inr fails ↦ rw fails (All-retain test xs h.1)
  ]

  pub All-last : (x : A) (xs : List A) → All P (x ∷ xs) → P (last x xs)
  All-last x [] h = h.0
  All-last x (y ∷ ys) h = All-last y ys h.1

-- The heads of two rows of trees.
pub record HeadsSplit (us vs : List Node) (ss : List Commitment) : Type 0 where
  pub before_heads : List Commitment
  pub after_heads : List Commitment
  pub whole : ss ≡ before_heads ++ after_heads
  pub of_us : Heads us before_heads
  pub of_vs : Heads vs after_heads

pub split-Heads :
    (us vs : List Node) (ss : List Commitment) → Heads (us ++ vs) ss → HeadsSplit us vs ss
split-Heads [] vs ss h = record {
  before_heads = [];
  after_heads = ss;
  whole = refl;
  of_us = tt;
  of_vs = h;
}
split-Heads (u ∷ us) vs [] h = absurd h
split-Heads (u ∷ us) vs (s ∷ ss) h =
    let rest : HeadsSplit us vs ss = split-Heads us vs ss h.1 in
    record {
      before_heads = s ∷ rest.before_heads;
      after_heads = rest.after_heads;
      whole = ap (λ zs. s ∷ zs) rest.whole;
      of_us = (h.0, rest.of_us);
      of_vs = rest.of_vs;
    }

module _ (c : Crypto) (bits : ℕ) where
  -- Trees without a leaf are no trees.
  pub no_trees :
      (ts : List Node) (ss : List Commitment)
      → Heads ts ss
      → All (IsCanonical c bits) ts
      → all_leaves ts ≡ []
      → (ts ≡ []) × (ss ≡ [])
  no_trees [] [] heads h e = (refl, refl)
  no_trees [] (s ∷ ss) heads h e = absurd heads
  no_trees (t ∷ ts) [] heads h e = absurd heads
  no_trees (t ∷ ts) (s ∷ ss) heads h e =
      let covers : Covers c bits s (leaves_of t) = leaves-Covers c bits t h.0 heads.0 in
      let bad : covers.first ∷ (covers.rest ++ all_leaves ts) ≡ [] =
        ap (λ xs. xs ++ all_leaves ts) (sym covers.same) ∙ e in
      absurd (cc)

  append_empty : (xs ys : List Commitment) → xs ++ ys ≡ [] → (xs ≡ []) × (ys ≡ [])
  append_empty [] ys e = (refl, e)
  append_empty (x ∷ xs) ys e = cc

  -- Trees with one leaf are that leaf.
  pub single_tree :
      (n : Commitment) (ts : List Node) (ss : List Commitment)
      → IsCanonical c bits (Node.leaf n)
      → Heads ts ss
      → All (IsCanonical c bits) ts
      → all_leaves ts ≡ n ∷ []
      → ss ≡ n ∷ []
  single_tree n [] ss h heads canonical e = cc
  single_tree n (t ∷ ts) [] h heads canonical e = absurd heads
  single_tree n (t ∷ ts) (s ∷ ss) h heads canonical e =
      let covers : Covers c bits s (leaves_of t) = leaves-Covers c bits t canonical.0 heads.0 in
      let lists : covers.first ∷ (covers.rest ++ all_leaves ts) ≡ n ∷ [] =
        ap (λ xs. xs ++ all_leaves ts) (sym covers.same) ∙ e in
      let first : covers.first ≡ n = cc in
      let others : covers.rest ++ all_leaves ts ≡ [] = cc in
      let parts : (covers.rest ≡ []) × (all_leaves ts ≡ []) =
        append_empty covers.rest (all_leaves ts) others in
      let one : leaves_of t ≡ n ∷ [] = covers.same ∙ rw (first, parts.0) refl in
      let tree : t ≡ Node.leaf n = canonical_unique c bits t (Node.leaf n) canonical.0 h one in
      let tops : some s ≡ some n = sym heads.0 ∙ ap commitment tree in
      let same : s ≡ n = cc in rw (same, (no_trees ts ss heads.1 canonical.1 parts.1).1) refl
