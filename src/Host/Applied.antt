-- ===== src/Host/Applied.antt =====
-- The loops of `AccountTree::apply` of crates/host/src/account_tree.rs together.
use mathlib.Core.Path.{subst}
use zk_clob.Prelude.{
  ℕ, suc, ◌+◌, ◌^◌, ◌<◌, ◌≤◌, ◌≡◌, refl, sym, ap, ◌∙◌, true, false, not, Option, none, some, List,
  [], ◌∷◌, length, All, All-imp, All-imp_both, retain, is_some, ltb, ◌==◌, if◌then◌else◌, inl, inr,
  Bool-cases, arith,
}
use zk_clob.Types.Ids.{AccountId}
use zk_clob.Types.Account.{Account}
use zk_clob.State.{State, replace_account, insert_account}
use zk_clob.State.Finding.{account_at, position, AtPosition, position-AtPosition}
use zk_clob.Settlement.Balances.Ledger.{ids, IsAfter, IsLedger}
use zk_clob.Host.Errors.{HostResult, give}
use zk_clob.Host.Tree.{lookup, put, replace_all, insert_all, reindex}
use zk_clob.Host.Applying.{
  IndicesOf, planned, Replaced, replace_account-Replaced, Inserted, insert_account-Inserted,
}

-- What replacing and inserting leave of an identifier: the old account and the new one.
abbrev pub keep : Option Account → Option Account → Option Account
keep none new = none
keep (some x) none = some x
keep (some x) (some u) = some u

abbrev pub or_else : Option Account → Option Account → Option Account
or_else none old = old
or_else (some u) old = some u

pub later_ids :
    (k : AccountId) (us : List Account)
    → IsAfter k us
    → IsLedger us
    → All (λ (v : Account). k < v.id) us
later_ids k [] after h = tt
later_ids k (v ∷ us) after h =
    (after, All-imp (λ (w : Account) lt. omega (arith, after, lt)) us (later_ids v.id us h.1 h.2))

pub absent_before :
    (k : AccountId) (us : List Account)
    → All (λ (v : Account). k < v.id) us
    → account_at k us ≡ none
absent_before k [] h = refl
absent_before k (v ∷ us) h = ground (arith, absent_before k us h.1)

position_before :
    (k : AccountId) (us : List Account)
    → All (λ (v : Account). k < v.id) us
    → position k (ids us) ≡ none
position_before k [] h = refl
position_before k (v ∷ us) h =
    let other : v.id == k ≡ false = ground arith in rw (other, position_before k us h.1) refl

-- All replacements.
pub record ReplacedAll (indices : List (AccountId × ℕ)) (s : State) (us : List Account)
    (r : State × HostResult (List Account)) : Type 0 where
  pub ledger : IsLedger r.0.accounts
  pub same_ids : ids r.0.accounts ≡ ids s.accounts
  pub result : r.1 ≡ give (retain (λ (a : Account). not (is_some (lookup a.id indices))) us)
  pub written :
      (id : AccountId)
      → account_at id r.0.accounts ≡ keep (account_at id s.accounts) (account_at id us)

keep-none : (o : Option Account) → keep o none ≡ o
keep-none none = refl
keep-none (some x) = refl

module _ (indices : List (AccountId × ℕ)) where
  replace_step :
      (s : State) (u : Account) (us : List Account) (p : Option ℕ)
      → IsLedger s.accounts
      → IsLedger (u ∷ us)
      → lookup u.id indices ≡ p
      → AtPosition u.id s.accounts p
      → ((s1 : State)
          → IsLedger s1.accounts
          → ids s1.accounts ≡ ids s.accounts
          → ReplacedAll indices s1 us (replace_all s1 (planned indices us)))
      → ReplacedAll indices s (u ∷ us) (replace_all s ((p, u) ∷ planned indices us))
  unfolding replace_all
  replace_step s u us none h k e (AtPosition.absent missing) next =
      let rest : ReplacedAll indices s us (replace_all s (planned indices us)) = next s h refl in
      record {
        ledger = rest.ledger;
        same_ids = rest.same_ids;
        result = rw (e, rest.result) refl;
        written = λ id. rest.written id ∙ elim (Bool-cases (u.id == id)) [
          | inl same ↦
              let one : u.id ≡ id = ground arith in
              let gone : account_at id s.accounts ≡ none =
                subst (λ j. account_at j s.accounts ≡ none) one missing in
              rw gone refl
          | inr other ↦ rw other refl
        ];
      }
  replace_step s u us (some _) h k e (AtPosition.present i x there same there') next =
      let first : Replaced s u (replace_account s i u) =
        replace_account-Replaced s i u x h k.0 there same in
      let s1 : State = (replace_account s i u).0 in
      let rest : ReplacedAll indices s1 us (replace_all s1 (planned indices us)) =
        next s1 first.ledger first.same_ids in
      let none_later : account_at u.id us ≡ none =
        absent_before u.id us (later_ids u.id us k.1 k.2) in
      rw first.done (record {
        ledger = rest.ledger;
        same_ids = rest.same_ids ∙ first.same_ids;
        result = rest.result ∙ rw e refl;
        written = λ id.
            rest.written id
            ∙ ap (λ o. keep o (account_at id us)) (first.written id)
            ∙ elim (Bool-cases (u.id == id)) [
              | inl equal ↦
                  let one : u.id ≡ id = ground arith in
                  let last : account_at id us ≡ none =
                    subst (λ j. account_at j us ≡ none) one none_later in
                  let old : account_at id s.accounts ≡ some x =
                    subst (λ j. account_at j s.accounts ≡ some x) one there' in
                  rw (equal, last, old) refl
              | inr other ↦ rw other refl
            ];
      })

  pub replace_all_lem :
      (s : State) (us : List Account)
      → IsLedger s.accounts
      → IsLedger us
      → IndicesOf indices s.accounts
      → ReplacedAll indices s us (replace_all s (planned indices us))
  unfolding replace_all
  replace_all_lem s [] h k ix = record {
    ledger = h;
    same_ids = refl;
    result = refl;
    written = λ id. sym (keep-none (account_at id s.accounts));
  }
  replace_all_lem s (u ∷ us) h k ix =
      replace_step s u us (lookup u.id indices) h k refl
        (subst (AtPosition u.id s.accounts) (sym (ix u.id)) (position-AtPosition u.id s.accounts))
        (λ s1 h1 same. replace_all_lem s1 us h1 k.2 (λ id. ix id ∙ ap (position id) (sym same)))

-- All insertions.
pub record InsertedAll (s : State) (us : List Account) (r : State × HostResult (Unit {0}))
    : Type 0 where
  pub ledger : IsLedger r.0.accounts
  pub longer : length r.0.accounts ≡ length us + length s.accounts
  pub result : r.1 ≡ give tt
  pub written :
      (id : AccountId)
      → account_at id r.0.accounts ≡ or_else (account_at id us) (account_at id s.accounts)

pub insert_all_lem :
    (s : State) (us : List Account)
    → IsLedger s.accounts
    → IsLedger us
    → All (λ (u : Account). account_at u.id s.accounts ≡ none) us
    → InsertedAll s us (insert_all s us)
unfolding insert_all
insert_all_lem s [] h k new = record {
  ledger = h;
  longer = omega arith;
  result = refl;
  written = λ id. refl;
}
insert_all_lem s (u ∷ us) h k new =
    let first : Inserted s u (insert_account s u) = insert_account-Inserted s u h k.0 new.0 in
    let s1 : State = (insert_account s u).0 in
    let still_new : All (λ (v : Account). account_at v.id s1.accounts ≡ none) us =
      All-imp_both
        (λ (v : Account) (later : u.id < v.id) (e : account_at v.id s.accounts ≡ none).
          first.written v.id ∙ (let other : u.id == v.id ≡ false = ground arith in rw other e))
        us (later_ids u.id us k.1 k.2) new.1 in
    let rest : InsertedAll s1 us (insert_all s1 us) =
      insert_all_lem s1 us first.ledger k.2 still_new in
    let none_later : account_at u.id us ≡ none =
      absent_before u.id us (later_ids u.id us k.1 k.2) in
    rw first.done (record {
      ledger = rest.ledger;
      longer = omega (arith, rest.longer, first.longer);
      result = rest.result;
      written = λ id.
          rest.written id
          ∙ ap (or_else (account_at id us)) (first.written id)
          ∙ elim (Bool-cases (u.id == id)) [
            | inl equal ↦
                let one : u.id ≡ id = ground arith in
                let last : account_at id us ≡ none =
                  subst (λ j. account_at j us ≡ none) one none_later in
                rw (equal, last) refl
            | inr other ↦ rw other refl
          ];
    })

lookup-put :
    (id key value : ℕ) (es : List (ℕ × ℕ))
    → lookup id (put key value es) ≡ (if key == id then some value else lookup id es)
lookup-put id key value [] = refl
lookup-put id key value (e ∷ es) = elim (Bool-cases (e.0 == key)) [
  | inl same ↦ let one : e.0 ≡ key = ground arith in rw same (ground (arith, one))
  | inr other ↦ rw other (ground (arith, lookup-put id key value es))
]

-- The index of a place, from an index; or what was there.
abbrev pub shifted : ℕ → Option ℕ → Option ℕ → Option ℕ
shifted n none old = old
shifted n (some i) old = some (n + i)

pub shifted_zero : (p : Option ℕ) → shifted 0 p none ≡ p
shifted_zero none = refl
shifted_zero (some i) = (let same : 0 + i ≡ i = omega arith in ap (λ (j : ℕ). some j) same)

pub shifted-suc :
    (n : ℕ) (p old : Option ℕ)
    → shifted (suc n) p old ≡ shifted n (elim p [ none ↦ none | some i ↦ some (suc i) ]) old
shifted-suc n none old = refl
shifted-suc n (some i) old =
    (let same : suc n + i ≡ n + suc i = omega arith in ap (λ (j : ℕ). some j) same)

pub reindex_lem :
    (n : ℕ) (xs : List Account) (es : List (AccountId × ℕ))
    → IsLedger xs
    → n + length xs ≤ 2 ^ 32
    → ((reindex n xs es).1 ≡ give tt)
      × ((id : AccountId)
          → lookup id (reindex n xs es).0 ≡ shifted n (position id (ids xs)) (lookup id es))
unfolding reindex
reindex_lem n [] es h le = (refl, λ id. refl)
reindex_lem n (x ∷ xs) es h le =
    let fits : ltb n (2 ^ 32) ≡ true = ground arith in
    let rest : ((reindex (suc n) xs (put x.id n es)).1 ≡ give tt)
        × ((id : AccountId)
            → lookup id (reindex (suc n) xs (put x.id n es)).0
              ≡ shifted (suc n) (position id (ids xs)) (lookup id (put x.id n es))) =
      reindex_lem (suc n) xs (put x.id n es) h.2 (omega (arith, le)) in
    rw fits (
      rest.0,
      λ id. rest.1 id ∙ elim (Bool-cases (x.id == id)) [
        | inl same ↦
            let one : x.id ≡ id = ground arith in
            let gone : position id (ids xs) ≡ none =
              subst (λ j. position j (ids xs) ≡ none) one
                (position_before x.id xs (later_ids x.id xs h.1 h.2)) in
            rw (gone, lookup-put id x.id n es, same)
              (let same_index : n ≡ n + 0 = omega arith in ap (λ (j : ℕ). some j) same_index)
        | inr other ↦
            rw (lookup-put id x.id n es, other)
              (shifted-suc n (position id (ids xs)) (lookup id es))
      ],
    )
