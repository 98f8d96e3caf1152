-- ===== src/Settlement/Nonces/Chunks.antt =====
-- Sorting the pairs of accounts and nonces, and cutting them into chunks.
use zk_clob.Prelude.{
  ℕ, ◌+◌, ◌<◌, ◌≤◌, ◌≡◌, refl, ◌&&◌, List, [], ◌∷◌, ◌++◌, All, All-imp, ◌==◌, if◌then◌else◌,
  insert_sorted, sort_unstable, inl, inr, Bool-cases, arith,
}
use zk_clob.Settlement.Nonces.{pair_less, push_chunk, chunk_by}

abbrev pub Pairs : Type 0
Pairs = List (ℕ × ℕ)

-- 1 for the pair of an index and a nonce.
abbrev pub is_pair : ℕ → ℕ → ℕ × ℕ → ℕ
is_pair i n p = if p.0 == i && p.1 == n then 1 else 0

-- How many pairs are of an index and a nonce, and how many are of an index.
abbrev pub pair_count : ℕ → ℕ → Pairs → ℕ
pair_count i n [] = 0
pair_count i n (p ∷ ps) = is_pair i n p + pair_count i n ps

abbrev pub key_count : ℕ → Pairs → ℕ
key_count i [] = 0
key_count i (p ∷ ps) = (if p.0 == i then 1 else 0) + key_count i ps

pub pair_count-append :
    (i n : ℕ) (ps qs : Pairs) → pair_count i n (ps ++ qs) ≡ pair_count i n ps + pair_count i n qs
pair_count-append i n [] qs = omega arith
pair_count-append i n (p ∷ ps) qs = omega (arith, pair_count-append i n ps qs)

pub key_count-append :
    (i : ℕ) (ps qs : Pairs) → key_count i (ps ++ qs) ≡ key_count i ps + key_count i qs
key_count-append i [] qs = omega arith
key_count-append i (p ∷ ps) qs = omega (arith, key_count-append i ps qs)

pair_count-insert_sorted :
    (i n : ℕ) (p : ℕ × ℕ) (ps : Pairs)
    → pair_count i n (insert_sorted pair_less p ps) ≡ pair_count i n (p ∷ ps)
pair_count-insert_sorted i n p [] = refl
pair_count-insert_sorted i n p (q ∷ ps) = elim (Bool-cases (pair_less q p)) [
  | inl later ↦ rw later (omega (arith, pair_count-insert_sorted i n p ps))
  | inr sooner ↦ rw sooner refl
]

pub pair_count-sort :
    (i n : ℕ) (ps : Pairs) → pair_count i n (sort_unstable pair_less ps) ≡ pair_count i n ps
pair_count-sort i n [] = refl
pair_count-sort i n (p ∷ ps) =
    omega
      (arith, pair_count-insert_sorted i n p (sort_unstable pair_less ps), pair_count-sort i n ps)

key_count-insert_sorted :
    (i : ℕ) (p : ℕ × ℕ) (ps : Pairs)
    → key_count i (insert_sorted pair_less p ps) ≡ key_count i (p ∷ ps)
key_count-insert_sorted i p [] = refl
key_count-insert_sorted i p (q ∷ ps) = elim (Bool-cases (pair_less q p)) [
  | inl later ↦ rw later (omega (arith, key_count-insert_sorted i p ps))
  | inr sooner ↦ rw sooner refl
]

pub key_count-sort :
    (i : ℕ) (ps : Pairs) → key_count i (sort_unstable pair_less ps) ≡ key_count i ps
key_count-sort i [] = refl
key_count-sort i (p ∷ ps) =
    omega (arith, key_count-insert_sorted i p (sort_unstable pair_less ps), key_count-sort i ps)

-- The same counts over chunks.
abbrev pub chunks_pair_count : ℕ → ℕ → List Pairs → ℕ
chunks_pair_count i n [] = 0
chunks_pair_count i n (c ∷ cs) = pair_count i n c + chunks_pair_count i n cs

abbrev pub chunks_key_count : ℕ → List Pairs → ℕ
chunks_key_count i [] = 0
chunks_key_count i (c ∷ cs) = key_count i c + chunks_key_count i cs

pair_count-push_chunk :
    (i n : ℕ) (p : ℕ × ℕ) (cs : List Pairs)
    → chunks_pair_count i n (push_chunk p cs) ≡ is_pair i n p + chunks_pair_count i n cs
pair_count-push_chunk i n p [] = omega arith
pair_count-push_chunk i n p ([] ∷ cs) = omega arith
pair_count-push_chunk i n p ((q ∷ c) ∷ cs) = elim (Bool-cases (p.0 == q.0)) [
  | inl same ↦ rw same (omega arith)
  | inr other ↦ rw other (omega arith)
]

pub pair_count-chunk_by :
    (i n : ℕ) (ps : Pairs) → chunks_pair_count i n (chunk_by ps) ≡ pair_count i n ps
pair_count-chunk_by i n [] = refl
pair_count-chunk_by i n (p ∷ ps) =
    omega (arith, pair_count-push_chunk i n p (chunk_by ps), pair_count-chunk_by i n ps)

key_count-push_chunk :
    (i : ℕ) (p : ℕ × ℕ) (cs : List Pairs)
    → chunks_key_count i (push_chunk p cs) ≡ (if p.0 == i then 1 else 0) + chunks_key_count i cs
key_count-push_chunk i p [] = omega arith
key_count-push_chunk i p ([] ∷ cs) = omega arith
key_count-push_chunk i p ((q ∷ c) ∷ cs) = elim (Bool-cases (p.0 == q.0)) [
  | inl same ↦ rw same (omega arith)
  | inr other ↦ rw other (omega arith)
]

pub key_count-chunk_by : (i : ℕ) (ps : Pairs) → chunks_key_count i (chunk_by ps) ≡ key_count i ps
key_count-chunk_by i [] = refl
key_count-chunk_by i (p ∷ ps) =
    omega (arith, key_count-push_chunk i p (chunk_by ps), key_count-chunk_by i ps)

-- What holds of every pair still does after sorting and cutting.
module _ (P : ℕ × ℕ → Type 0) where
  pub All-append : (ps qs : Pairs) → All P ps → All P qs → All P (ps ++ qs)
  All-append [] qs h k = k
  All-append (p ∷ ps) qs h k = (h.0, All-append ps qs h.1 k)

  pub All-insert_sorted :
      (p : ℕ × ℕ) (ps : Pairs) → P p → All P ps → All P (insert_sorted pair_less p ps)
  All-insert_sorted p [] h k = (h, tt)
  All-insert_sorted p (q ∷ ps) h k = elim (Bool-cases (pair_less q p)) [
    | inl later ↦ rw later (k.0, All-insert_sorted p ps h k.1)
    | inr sooner ↦ rw sooner (h, k)
  ]

  pub All-sort : (ps : Pairs) → All P ps → All P (sort_unstable pair_less ps)
  All-sort [] h = tt
  All-sort (p ∷ ps) h = All-insert_sorted p (sort_unstable pair_less ps) h.0 (All-sort ps h.1)

  All-push_chunk :
      (p : ℕ × ℕ) (cs : List Pairs) → P p → All (All P) cs → All (All P) (push_chunk p cs)
  All-push_chunk p [] h k = ((h, tt), tt)
  All-push_chunk p ([] ∷ cs) h k = ((h, tt), k.1)
  All-push_chunk p ((q ∷ c) ∷ cs) h k = elim (Bool-cases (p.0 == q.0)) [
    | inl same ↦ rw same ((h, k.0), k.1)
    | inr other ↦ rw other ((h, tt), k)
  ]

  pub All-chunk_by : (ps : Pairs) → All P ps → All (All P) (chunk_by ps)
  All-chunk_by [] h = tt
  All-chunk_by (p ∷ ps) h = All-push_chunk p (chunk_by ps) h.0 (All-chunk_by ps h.1)

-- Pairs in the order of their indices.
abbrev pub IsKeySorted : Pairs → Type 0
IsKeySorted [] = Unit
IsKeySorted (p ∷ ps) = All (λ (q : ℕ × ℕ). p.0 ≤ q.0) ps × IsKeySorted ps

insert_sorted-IsKeySorted :
    (p : ℕ × ℕ) (ps : Pairs) → IsKeySorted ps → IsKeySorted (insert_sorted pair_less p ps)
insert_sorted-IsKeySorted p [] h = (tt, tt)
insert_sorted-IsKeySorted p (q ∷ ps) h = elim (Bool-cases (pair_less q p)) [
  | inl later ↦ rw later (
    All-insert_sorted (λ (r : ℕ × ℕ). q.0 ≤ r.0) p ps (ground arith) h.0,
    insert_sorted-IsKeySorted p ps h.1,
  )
  | inr sooner ↦
      let le : p.0 ≤ q.0 = ground arith in
      rw sooner ((le, All-imp (λ (r : ℕ × ℕ) (k : q.0 ≤ r.0). omega arith) ps h.0), h)
]

pub sort-IsKeySorted : (ps : Pairs) → IsKeySorted (sort_unstable pair_less ps)
sort-IsKeySorted [] = tt
sort-IsKeySorted (p ∷ ps) =
    insert_sorted-IsKeySorted p (sort_unstable pair_less ps) (sort-IsKeySorted ps)

-- Chunks of one index each, in strictly ascending order.
abbrev pub AreGrouped : List Pairs → Type 0
AreGrouped [] = Unit
AreGrouped ([] ∷ cs) = ⊥
AreGrouped ((p ∷ c) ∷ cs) =
    All (λ (q : ℕ × ℕ). q.0 ≡ p.0) c × All (All (λ (q : ℕ × ℕ). p.0 < q.0)) cs × AreGrouped cs

push_chunk-AreGrouped :
    (p : ℕ × ℕ) (cs : List Pairs)
    → All (All (λ (q : ℕ × ℕ). p.0 ≤ q.0)) cs
    → AreGrouped cs
    → AreGrouped (push_chunk p cs)
push_chunk-AreGrouped p [] le g = (tt, tt, tt)
push_chunk-AreGrouped p ([] ∷ cs) le g = absurd g
push_chunk-AreGrouped p ((q ∷ c) ∷ cs) le g = elim (Bool-cases (p.0 == q.0)) [
  | inl same ↦
      let e : q.0 ≡ p.0 = ground arith in
      rw same (
        (e, All-imp (λ (r : ℕ × ℕ) (k : r.0 ≡ q.0). omega arith) c g.0),
        All-imp (λ d h. All-imp (λ (r : ℕ × ℕ) (k : q.0 < r.0). omega arith) d h) cs g.1,
        g.2,
      )
  | inr other ↦
      let lt : p.0 < q.0 = ground (arith, le.0.0) in
      rw other (
        tt,
        (
          (lt, All-imp (λ (r : ℕ × ℕ) (k : r.0 ≡ q.0). omega arith) c g.0),
          All-imp (λ d h. All-imp (λ (r : ℕ × ℕ) (k : q.0 < r.0). omega arith) d h) cs g.1,
        ),
        g,
      )
]

pub chunk_by-AreGrouped : (ps : Pairs) → IsKeySorted ps → AreGrouped (chunk_by ps)
chunk_by-AreGrouped [] h = tt
chunk_by-AreGrouped (p ∷ ps) h =
    push_chunk-AreGrouped p (chunk_by ps) (All-chunk_by (λ (q : ℕ × ℕ). p.0 ≤ q.0) ps h.0)
      (chunk_by-AreGrouped ps h.1)
