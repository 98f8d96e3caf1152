-- ===== src/Trees/Apart.antt =====
-- Trees side by side, and the keys that share the bits of a subtree before its branch.
use mathlib.Core.List.{append_assoc}
use zk_clob.Prelude.{
  ℕ, suc, ◌-◌, ◌^◌, ◌<◌, ◌≤◌, ◌≡◌, refl, sym, ap, ◌∙◌, Bool, false, some, List, [], ◌∷◌, ◌++◌,
  arith,
}
use zk_clob.Trees.Node.{Commitment, Node, commitment}
use zk_clob.Trees.Patricia.{bit, same_bit, differing_bit}
use zk_clob.Trees.Bits.{prefix_mono, differing_bit-prefix}
use zk_clob.Trees.Differing.{Parted, Parted-of_differs}
use zk_clob.Trees.Classes.{before, across, differing_bit_self}
use zk_clob.Trees.Built.{leaves_of}

-- The leaves of trees side by side.
abbrev pub all_leaves : List Node → List Commitment
all_leaves [] = []
all_leaves (t ∷ ts) = leaves_of t ++ all_leaves ts

pub all_leaves-append : (ts us : List Node) → all_leaves (ts ++ us) ≡ all_leaves ts ++ all_leaves us
all_leaves-append [] us = refl
all_leaves-append (t ∷ ts) us =
    ap (λ xs. leaves_of t ++ xs) (all_leaves-append ts us)
    ∙ sym (append_assoc (leaves_of t) (all_leaves ts) (all_leaves us))

-- The commitments of trees.
abbrev pub Heads : List Node → List Commitment → Type 0
Heads [] [] = Unit
Heads (t ∷ ts) (s ∷ ss) = (commitment t ≡ some s) × Heads ts ss
Heads [] (s ∷ ss) = ⊥
Heads (t ∷ ts) [] = ⊥

pub Heads-append :
    (ts : List Node) (ss : List Commitment) (us : List Node) (vs : List Commitment)
    → Heads ts ss
    → Heads us vs
    → Heads (ts ++ us) (ss ++ vs)
Heads-append [] [] us vs h k = k
Heads-append (t ∷ ts) (s ∷ ss) us vs h k = (h.0, Heads-append ts ss us vs h.1 k)
Heads-append [] (s ∷ ss) us vs h k = absurd h
Heads-append (t ∷ ts) [] us vs h k = absurd h

module _ (bits : ℕ) where
  -- A key does not share the bits of a subtree before its branch.
  abbrev pub Apart : Commitment → ℕ → Type 0
  Apart s k =
      (d : ℕ)
      → differing_bit bits s.min_key s.max_key ≡ some d
      → before bits d k ≡ before bits d s.min_key
      → ⊥

  -- A leaf that shares them lies in the subtree.
  abbrev pub ClosedTo : Commitment → Commitment → Type 0
  ClosedTo s x =
      (d : ℕ)
      → differing_bit bits s.min_key s.max_key ≡ some d
      → before bits d x.min_key ≡ before bits d s.min_key
      → (s.min_key ≤ x.min_key) × (x.min_key ≤ s.max_key)

  -- A leaf has no branch.
  pub no_branch :
      (s : Commitment) (d : ℕ)
      → s.min_key ≡ s.max_key
      → differing_bit bits s.min_key s.max_key ≡ some d
      → ⊥
  no_branch s d same e =
      let e' : differing_bit bits s.max_key s.max_key ≡ some d = rw same at e in
      absurd (cc (differing_bit_self bits s.max_key))

  pub before_within :
      (a b d x : ℕ)
      → a < 2 ^ bits
      → b < 2 ^ bits
      → differing_bit bits a b ≡ some d
      → a ≤ x
      → x ≤ b
      → before bits d x ≡ before bits d a
  before_within a b d x a_fits b_fits e ax xb =
      let n : ℕ = suc (bits - 1 - d) in
      omega (
        arith,
        differing_bit-prefix bits a b d a_fits b_fits e,
        prefix_mono n a x ax,
        prefix_mono n x b xb,
      )

  -- Subtrees on one side of a branch have nothing to do with leaves on the other.
  pub across-ClosedTo :
      (n s x : Commitment) (depth : ℕ) (side other : Bool)
      → n.min_key < 2 ^ bits
      → n.max_key < 2 ^ bits
      → Parted bits n.min_key n.max_key depth
      → n.min_key ≤ s.min_key
      → s.min_key ≤ s.max_key
      → s.max_key ≤ n.max_key
      → (bit bits s.min_key depth ≡ side) × (bit bits s.max_key depth ≡ side)
      → bit bits x.min_key depth ≡ other
      → same_bit bits side other ≡ false
      → ClosedTo s x
  across-ClosedTo n s x depth side other min_fits max_fits p least range greatest s_side x_other
        differ d e class =
      absurd (
        across bits s.min_key s.max_key x.min_key d depth side other
          (Parted-of_differs bits s.min_key s.max_key d (omega (arith, range, greatest, max_fits))
            (omega (arith, greatest, max_fits)) range e)
          (before_within n.min_key n.max_key depth s.min_key min_fits max_fits p.differs least
              (omega (arith, range, greatest))
            ∙ sym (
                before_within n.min_key n.max_key depth s.max_key min_fits max_fits p.differs
                  (omega (arith, least, range)) greatest))
          s_side.0 s_side.1 x_other differ p.in_width class)
