-- ===== src/Trees/Straddle.antt =====
-- Where a border in the leaves of trees side by side falls: between two trees or through one.
use mathlib.Core.List.{append_assoc}
use zk_clob.Prelude.{◌≡◌, refl, sym, ap, ◌∙◌, List, [], ◌∷◌, ◌++◌}
use zk_clob.Trees.Node.{Commitment, Node}
use zk_clob.Trees.Built.{leaves_of}
use zk_clob.Trees.Parts.{Meets, meets}
use zk_clob.Trees.Apart.{all_leaves}

pub data Splitting (ts : List Node) (as' bs : List Commitment) : Type 0 where
  between :
      (us vs : List Node)
      → ts ≡ us ++ vs
      → all_leaves us ≡ as'
      → all_leaves vs ≡ bs
      → Splitting ts as' bs
  through :
      (us : List Node) (t : Node) (vs : List Node) (a : Commitment) (p : List Commitment)
      (b : Commitment) (q : List Commitment)
      → ts ≡ us ++ (t ∷ vs)
      → leaves_of t ≡ (a ∷ p) ++ (b ∷ q)
      → as' ≡ all_leaves us ++ (a ∷ p)
      → bs ≡ (b ∷ q) ++ all_leaves vs
      → Splitting ts as' bs

Splitting-cons :
    (t : Node) (ts : List Node) (p as' bs : List Commitment)
    → as' ≡ leaves_of t ++ p
    → Splitting ts p bs
    → Splitting (t ∷ ts) as' bs
Splitting-cons t ts p as' bs e (Splitting.between us vs f g h) =
    Splitting.between (t ∷ us) vs (ap (λ ws. t ∷ ws) f) (ap (λ xs. leaves_of t ++ xs) g ∙ sym e) h
Splitting-cons t ts p as' bs e (Splitting.through us u vs a xs b ys f g h k) =
    Splitting.through (t ∷ us) u vs a xs b ys (ap (λ ws. t ∷ ws) f) g
      (e
        ∙ ap (λ zs. leaves_of t ++ zs) h
        ∙ sym (append_assoc (leaves_of t) (all_leaves us) (a ∷ xs)))
      k

empty_parts : (as' bs : List Commitment) → [] ≡ as' ++ bs → ([] ≡ as') × ([] ≡ bs)
empty_parts [] bs e = (refl, e)
empty_parts (a ∷ as') bs e = cc

split_first :
    (t : Node) (ts : List Node) (as' bs : List Commitment) (x : Commitment) (q : List Commitment)
    → leaves_of t ≡ as' ++ (x ∷ q)
    → bs ≡ (x ∷ q) ++ all_leaves ts
    → all_leaves (t ∷ ts) ≡ as' ++ bs
    → Splitting (t ∷ ts) as' bs
split_first t ts [] bs x q e f whole = Splitting.between [] (t ∷ ts) refl refl whole
split_first t ts (a ∷ as') bs x q e f whole = Splitting.through [] t ts a as' x q refl e refl f

pub splitting :
    (ts : List Node) (as' bs : List Commitment) → all_leaves ts ≡ as' ++ bs → Splitting ts as' bs
splitting [] as' bs e =
    let parts : ([] ≡ as') × ([] ≡ bs) = empty_parts as' bs e in
    Splitting.between [] [] refl parts.0 parts.1
splitting (t ∷ ts) as' bs e = elim (meets (leaves_of t) (all_leaves ts) as' bs e) [
  | Meets.later p f g ↦ Splitting-cons t ts p as' bs f (splitting ts p bs g)
  | Meets.sooner x q f g ↦ split_first t ts as' bs x q f g e
]
