-- ===== src/Trees/Parts.antt =====
-- The two parts of a slice at a `partition_point`.
use zk_clob.Prelude.{
  ℕ, zero, suc, ◌<◌, ◌≡◌, refl, sym, ap, Bool, true, false, some, List, [], ◌∷◌, ◌++◌, length, All,
  get_last?, take, drop, partition_point, inl, inr, Bool-cases, arith,
}

module _ {ℓ} {A : Type ℓ} where
  abbrev pub last : A → List A → A
  last x [] = x
  last x (y ∷ ys) = last y ys

  pub get_last?_lem : (x : A) (xs : List A) → get_last? (x ∷ xs) ≡ some (last x xs)
  get_last?_lem x [] = refl
  get_last?_lem x (y ∷ ys) = get_last?_lem y ys

  pub last-append : (x y : A) (xs ys : List A) → last x (xs ++ (y ∷ ys)) ≡ last y ys
  last-append x y [] ys = refl
  last-append x y (z ∷ zs) ys = last-append z y zs ys

  -- A slice that passes a test up to a point within it, and not there.
  pub record Parts (test : A → Bool) (x : A) (xs : List A) (point : ℕ) : Type ℓ where
    pub front : List A
    pub middle : A
    pub back : List A
    pub taken : take point (x ∷ xs) ≡ x ∷ front
    pub dropped : drop point (x ∷ xs) ≡ middle ∷ back
    pub whole : (x ∷ front) ++ (middle ∷ back) ≡ x ∷ xs
    pub passes : test (last x front) ≡ true
    pub fails : test middle ≡ false
    pub ends : last middle back ≡ last x xs

  passing-Parts :
      (test : A → Bool) (x : A) (xs : List A)
      → test x ≡ true
      → suc (partition_point test xs) < length (x ∷ xs)
      → Parts test x xs (suc (partition_point test xs))
  passing-Parts test x [] passes short = absurd (omega arith)
  passing-Parts test x (y ∷ ys) passes short = elim (Bool-cases (test y)) [
    | inl passes' ↦
        let shorter : suc (partition_point test ys) < length (y ∷ ys) =
          omega (arith, rw passes' at short) in
        rw passes' (extended (passing-Parts test y ys passes' shorter))
    | inr fails ↦ rw fails (record {
      front = [];
      middle = y;
      back = ys;
      taken = refl;
      dropped = refl;
      whole = refl;
      passes = passes;
      fails = fails;
      ends = refl;
    })
  ]
    where
      extended :
          Parts test y ys (suc (partition_point test ys))
          → Parts test x (y ∷ ys) (suc (suc (partition_point test ys)))
      extended p = record {
        front = y ∷ p.front;
        middle = p.middle;
        back = p.back;
        taken = ap (λ zs. x ∷ zs) p.taken;
        dropped = p.dropped;
        whole = ap (λ zs. x ∷ zs) p.whole;
        passes = p.passes;
        fails = p.fails;
        ends = p.ends;
      }

  pub partition_point-Parts :
      (test : A → Bool) (x : A) (xs : List A)
      → 0 < partition_point test (x ∷ xs)
      → partition_point test (x ∷ xs) < length (x ∷ xs)
      → Parts test x xs (partition_point test (x ∷ xs))
  partition_point-Parts test x xs pos short = elim (Bool-cases (test x)) [
    | inl passes ↦ rw passes (passing-Parts test x xs passes (rw passes at short))
    | inr fails ↦ absurd (ground arith)
  ]

-- The point of two parts, the first passing and the second failing.
pub partition_point-append {ℓ} :
    {A : Type ℓ} (test : A → Bool) (xs ys : List A)
    → All (λ x. test x ≡ true) xs
    → partition_point test ys ≡ 0
    → partition_point test (xs ++ ys) ≡ length xs
partition_point-append test [] ys passes fails = fails
partition_point-append test (x ∷ xs) ys passes fails =
    rw passes.0 (ap suc (partition_point-append test xs ys passes.1 fails))

pub take-append {ℓ} : {A : Type ℓ} (xs ys : List A) → take (length xs) (xs ++ ys) ≡ xs
take-append [] ys = refl
take-append (x ∷ xs) ys = ap (λ zs. x ∷ zs) (take-append xs ys)

pub drop-append {ℓ} : {A : Type ℓ} (xs ys : List A) → drop (length xs) (xs ++ ys) ≡ ys
drop-append [] ys = refl
drop-append (x ∷ xs) ys = drop-append xs ys

module _ {ℓ κ} {A : Type ℓ} (P : A → Type κ) where
  pub All-take : (n : ℕ) (xs : List A) → All P xs → All P (take n xs)
  All-take zero xs h = tt
  All-take (suc n) [] h = tt
  All-take (suc n) (x ∷ xs) h = (h.0, All-take n xs h.1)

  pub All-drop : (n : ℕ) (xs : List A) → All P xs → All P (drop n xs)
  All-drop zero xs h = h
  All-drop (suc n) [] h = h
  All-drop (suc n) (x ∷ xs) h = All-drop n xs h.1

  pub All-append : (xs ys : List A) → All P xs → All P ys → All P (xs ++ ys)
  All-append [] ys hx hy = hy
  All-append (x ∷ xs) ys hx hy = (hx.0, All-append xs ys hx.1 hy)

-- Two ways to divide one list.
pub data Meets {A : Type 0} (xs ys as' bs : List A) : Type 0 where
  later : (p : List A) → as' ≡ xs ++ p → ys ≡ p ++ bs → Meets xs ys as' bs
  sooner : (x : A) (q : List A) → xs ≡ as' ++ (x ∷ q) → bs ≡ (x ∷ q) ++ ys → Meets xs ys as' bs

Meets-cons :
    {A : Type 0} (x a : A) (xs ys as' bs : List A)
    → x ≡ a
    → Meets xs ys as' bs
    → Meets (x ∷ xs) ys (a ∷ as') bs
Meets-cons x a xs ys as' bs same (Meets.later p e f) = Meets.later p (cc) f
Meets-cons x a xs ys as' bs same (Meets.sooner y q e f) = Meets.sooner y q (cc) f

pub meets : {A : Type 0} (xs ys as' bs : List A) → xs ++ ys ≡ as' ++ bs → Meets xs ys as' bs
meets [] ys as' bs e = Meets.later as' refl e
meets (x ∷ xs) ys [] bs e = Meets.sooner x xs refl (sym e)
meets (x ∷ xs) ys (a ∷ as') bs e =
    Meets-cons x a xs ys as' bs (cc)
      (meets xs ys as' bs (let tails : xs ++ ys ≡ as' ++ bs = cc in tails))
