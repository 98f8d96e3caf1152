-- ===== src/State/Finding.antt =====
-- The account of an identifier in the state of crates/core/src/state.rs, and what writing does to it.
use mathlib.Core.Path.{subst}
use zk_clob.Prelude.{
  ℕ, zero, suc, ◌<◌, ◌≡◌, refl, ap, ◌∙◌, Bool, false, Option, none, some, List, [], ◌∷◌, vacant,
  binary_search_by_key, get_elem?, set, insert_at, retain, ltb, ◌==◌, if◌then◌else◌, inl, inr,
  Bool-cases, arith,
}
use zk_clob.Types.Ids.{AccountId}
use zk_clob.Types.Account.{Account}
use zk_clob.Settlement.Balances.Ledger.{ids, IsAfter, IsLedger}

abbrev pub account_at : AccountId → List Account → Option Account
account_at id [] = none
account_at id (a ∷ as') = if a.id == id then some a else account_at id as'

-- Where an identifier stands.
abbrev pub position : AccountId → List AccountId → Option ℕ
position id [] = none
position id (k ∷ ks) =
    if k == id then some 0 else elim (position id ks) [ none ↦ none | some i ↦ some (suc i) ]

-- What stands at the place of an identifier.
pub data AtPosition (id : AccountId) (xs : List Account) : Option ℕ → Type 0 where
  absent : account_at id xs ≡ none → AtPosition id xs none
  present :
      (i : ℕ) (x : Account)
      → get_elem? xs i ≡ some x
      → x.id ≡ id
      → account_at id xs ≡ some x
      → AtPosition id xs (some i)

AtPosition-suc :
    (id : AccountId) (x : Account) (xs : List Account) (p : Option ℕ)
    → x.id == id ≡ false
    → AtPosition id xs p
    → AtPosition id (x ∷ xs) (elim p [ none ↦ none | some i ↦ some (suc i) ])
AtPosition-suc id x xs none other (AtPosition.absent e) = AtPosition.absent (rw other e)
AtPosition-suc id x xs (some _) other (AtPosition.present i y e same f) =
    AtPosition.present (suc i) y e same (rw other f)

pub position-AtPosition :
    (id : AccountId) (xs : List Account) → AtPosition id xs (position id (ids xs))
position-AtPosition id [] = AtPosition.absent refl
position-AtPosition id (x ∷ xs) = elim (Bool-cases (x.id == id)) [
  | inl same ↦ rw same (AtPosition.present 0 x refl (ground arith) (rw same refl))
  | inr other ↦
      rw other (AtPosition-suc id x xs (position id (ids xs)) other (position-AtPosition id xs))
]

-- A later account has a later identifier.
later_id :
    (k : AccountId) (xs : List Account) (i : ℕ) (x : Account)
    → IsAfter k xs
    → IsLedger xs
    → get_elem? xs i ≡ some x
    → k < x.id
later_id k [] i x after h e = absurd (cc)
later_id k (y ∷ xs) zero x after h e =
    (let same : y ≡ x = cc in subst (λ (z : Account). k < z.id) same after)
later_id k (y ∷ xs) (suc i) x after h e = omega (arith, after, later_id y.id xs i x h.1 h.2 e)

pub account_at-set :
    (id : AccountId) (xs : List Account) (i : ℕ) (a x : Account)
    → IsLedger xs
    → get_elem? xs i ≡ some x
    → x.id ≡ a.id
    → account_at id (set xs i a) ≡ (if a.id == id then some a else account_at id xs)
account_at-set id [] i a x h e same = absurd (cc)
account_at-set id (y ∷ xs) zero a x h e same =
    let there : y ≡ x = cc in
    let one : y.id ≡ a.id = ap (λ (z : Account). z.id) there ∙ same in ground (arith, one)
account_at-set id (y ∷ xs) (suc i) a x h e same =
    let later : y.id < x.id = later_id y.id xs i x h.1 h.2 e in
    ground (arith, account_at-set id xs i a x h.2 e same, later)

-- Where the account of a new identifier goes, and that it is there afterwards.
pub record Spot (a : Account) (xs : List Account) : Type 0 where
  pub index : ℕ
  pub search : binary_search_by_key (λ (x : Account). x.id) xs a.id ≡ vacant index
  pub written :
      (id : AccountId)
      → account_at id (insert_at xs index a) ≡ (if a.id == id then some a else account_at id xs)

pub Spot-of : (a : Account) (xs : List Account) → account_at a.id xs ≡ none → Spot a xs
Spot-of a [] e = record { index = 0; search = refl; written = λ id. refl }
Spot-of a (x ∷ xs) e = elim (Bool-cases (ltb x.id a.id)) [
  | inl below ↦
      let rest : Spot a xs = Spot-of a xs (ground arith) in
      record {
        index = suc rest.index;
        search = rw (below, rest.search) refl;
        written = λ id. ground (arith, rest.written id);
      }
  | inr above ↦ elim (Bool-cases (x.id == a.id)) [
    | inl same ↦ absurd (ground arith)
    | inr other ↦ record { index = 0; search = rw (above, other) refl; written = λ id. refl }
  ]
]

-- The account of an identifier among those that a test on identifiers keeps.
pub account_at-retain :
    (id : AccountId) (test : AccountId → Bool) (xs : List Account)
    → account_at id (retain (λ (a : Account). test a.id) xs)
      ≡ (if test id then account_at id xs else none)
account_at-retain id test [] = ground arith
account_at-retain id test (x ∷ xs) = elim (Bool-cases (x.id == id)) [
  | inl same ↦
      let one : x.id ≡ id = ground arith in
      let tests : test x.id ≡ test id = ap test one in
      ground (arith, account_at-retain id test xs, tests)
  | inr other ↦ ground (arith, account_at-retain id test xs)
]
