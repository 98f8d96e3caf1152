-- ===== src/Host/Applying.antt =====
-- `AccountTree::apply` of crates/host/src/account_tree.rs on trees and accounts in order.
use zk_clob.Prelude.{
  ℕ, zero, suc, ◌<◌, ◌≡◌, refl, ap, ◌∙◌, Bool, true, false, Option, none, some, List, [], ◌∷◌, map,
  length, any, All, get_elem?, set, insert_at, ◌==◌, if◌then◌else◌, arith,
}
use zk_clob.Types.Ids.{AccountId}
use zk_clob.Types.Account.{Account}
use zk_clob.Account.Held.{IsCanonical}
use zk_clob.State.{State, replace_account, insert_account}
use zk_clob.State.Complete.{
  IsReplaced, replace_account-IsReplaced, IsInserted, insert_account-IsInserted,
}
use zk_clob.State.Finding.{account_at, position, account_at-set, Spot, Spot-of}
use zk_clob.Settlement.Balances.Ledger.{ids, IsAfter, IsLedger}
use zk_clob.Host.Errors.{give}
use zk_clob.Host.Tree.{lookup, AccountTree, replacements}

-- The map has the place of every identifier, and of no other.
abbrev pub IndicesOf : List (AccountId × ℕ) → List Account → Type 0
IndicesOf indices xs = (id : AccountId) → lookup id indices ≡ position id (ids xs)

pub record IsTree (t : AccountTree) : Type 0 where
  pub ledger : IsLedger t.state.accounts
  pub indices : IndicesOf t.indices t.state.accounts

-- The accounts, each with its index.
abbrev pub planned : List (AccountId × ℕ) → List Account → List (Option ℕ × Account)
planned indices = map (λ (a : Account). (lookup a.id indices, a))

unseen :
    (id : AccountId) (seen : List AccountId)
    → All (λ j. j < id) seen
    → any (λ j. j == id) seen ≡ false
unseen id [] h = refl
unseen id (j ∷ js) h = ground (arith, unseen id js h.1)

seen_later :
    (id k : AccountId) (seen : List AccountId)
    → id < k
    → All (λ j. j < id) seen
    → All (λ j. j < k) seen
seen_later id k [] lt h = tt
seen_later id k (j ∷ js) lt h = (omega (arith, lt, h.0), seen_later id k js lt h.1)

-- What is before the first account of a ledger.
abbrev pub Before : List AccountId → List Account → Type 0
Before seen [] = Unit
Before seen (a ∷ as') = All (λ j. j < a.id) seen

Before-next :
    (a : Account) (seen : List AccountId) (as' : List Account)
    → IsAfter a.id as'
    → All (λ j. j < a.id) seen
    → Before (a.id ∷ seen) as'
Before-next a seen [] after h = tt
Before-next a seen (b ∷ as') after h = (after, seen_later a.id b.id seen after h)

pub replacements_lem :
    (indices : List (AccountId × ℕ)) (seen : List AccountId) (us : List Account)
    → IsLedger us
    → Before seen us
    → replacements indices seen us ≡ give (planned indices us)
unfolding replacements
replacements_lem indices seen [] h b = refl
replacements_lem indices seen (u ∷ us) h b =
    rw
      (
        unseen u.id seen b,
        replacements_lem indices (u.id ∷ seen) us h.2 (Before-next u seen us h.1 b),
      )
      refl

-- One replacement at the place of the identifier.
pub record Replaced (s : State) (a : Account) (r : State × Bool) : Type 0 where
  pub ledger : IsLedger r.0.accounts
  pub same_ids : ids r.0.accounts ≡ ids s.accounts
  pub done : r.1 ≡ true
  pub written :
      (id : AccountId)
      → account_at id r.0.accounts ≡ (if a.id == id then some a else account_at id s.accounts)

pub replace_account-Replaced :
    (s : State) (i : ℕ) (a x : Account)
    → IsLedger s.accounts
    → IsCanonical a.balances
    → get_elem? s.accounts i ≡ some x
    → x.id ≡ a.id
    → Replaced s a (replace_account s i a)
unfolding replace_account
replace_account-Replaced s i a x h k e same =
    let kept : IsReplaced s (replace_account s i a) = replace_account-IsReplaced s i a h k in
    let equal : x.id == a.id ≡ true = ground (arith, same) in
    let result : replace_account s i a ≡ (record { accounts = set s.accounts i a }, true) =
      rw (e, equal) refl in
    record {
      ledger = kept.ledger;
      same_ids = kept.same_ids;
      done = ap (λ (r : State × Bool). r.1) result;
      written = λ id.
          ap (λ (r : State × Bool). account_at id r.0.accounts) result
          ∙ account_at-set id s.accounts i a x h e same;
    }

length-insert_at :
    (xs : List Account) (i : ℕ) (a : Account) → length (insert_at xs i a) ≡ suc (length xs)
length-insert_at [] i a = refl
length-insert_at (x ∷ xs) zero a = refl
length-insert_at (x ∷ xs) (suc i) a = ap suc (length-insert_at xs i a)

-- One insertion of a new identifier.
pub record Inserted (s : State) (a : Account) (r : State × Bool) : Type 0 where
  pub ledger : IsLedger r.0.accounts
  pub longer : length r.0.accounts ≡ suc (length s.accounts)
  pub done : r.1 ≡ true
  pub written :
      (id : AccountId)
      → account_at id r.0.accounts ≡ (if a.id == id then some a else account_at id s.accounts)

pub insert_account-Inserted :
    (s : State) (a : Account)
    → IsLedger s.accounts
    → IsCanonical a.balances
    → account_at a.id s.accounts ≡ none
    → Inserted s a (insert_account s a)
unfolding insert_account
insert_account-Inserted s a h k e =
    let kept : IsInserted s a (insert_account s a) = insert_account-IsInserted s a h k in
    let spot : Spot a s.accounts = Spot-of a s.accounts e in
    let result : insert_account s a
        ≡ (record { accounts = insert_at s.accounts spot.index a }, true) =
      rw spot.search refl in
    record {
      ledger = kept.ledger;
      longer =
          ap (λ (r : State × Bool). length r.0.accounts) result
          ∙ length-insert_at s.accounts spot.index a;
      done = ap (λ (r : State × Bool). r.1) result;
      written =
          λ id. ap (λ (r : State × Bool). account_at id r.0.accounts) result ∙ spot.written id;
    }
