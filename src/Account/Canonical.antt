-- ===== src/Account/Canonical.antt =====
-- The canonical form of a list of balances, and changes of one entry.
use zk_clob.Prelude.{
  ℕ, zero, suc, ◌<◌, ◌≡◌, refl, List, [], ◌∷◌, some, Search, found, vacant, inl, inr, get_elem?,
  set, insert_at, remove_at, further, ltb, ltb→lt, ◌==◌, Bool-cases, arith,
}
use zk_clob.Types.Ids.{AssetId}
use zk_clob.Types.Account.{AssetBalance}
use zk_clob.Account.{find_asset, with_available}
use zk_clob.Account.Held.{held, held-IsBelow, IsBelow, IsCanonical}

IsBelow-get_elem? :
    (key : AssetId) (bs : List AssetBalance) (i : ℕ) {b : AssetBalance}
    → IsCanonical bs
    → IsBelow key bs
    → get_elem? bs i ≡ some b
    → key < b.asset
IsBelow-get_elem? key [] i h below e = cc
IsBelow-get_elem? key (x ∷ bs) zero h below e = ground arith
IsBelow-get_elem? key (x ∷ bs) (suc i) h below e =
    omega (arith, IsBelow-get_elem? x.asset bs i h.2 h.1 e)

-- The entry of an asset is all that is held of it.
pub held-get_elem? :
    (bs : List AssetBalance) (i : ℕ) {b : AssetBalance}
    → IsCanonical bs
    → get_elem? bs i ≡ some b
    → held b.asset bs ≡ b.available
held-get_elem? [] i h e = cc
held-get_elem? (x ∷ bs) zero h e = ground (arith, held-IsBelow x.asset x.asset bs h.2 h.1)
held-get_elem? (x ∷ bs) (suc i) h e =
    ground (arith, held-get_elem? bs i h.2 e, IsBelow-get_elem? x.asset bs i h.2 h.1 e)

pub get_elem?_positive :
    (bs : List AssetBalance) (i : ℕ) {b : AssetBalance}
    → IsCanonical bs
    → get_elem? bs i ≡ some b
    → 0 < b.available
get_elem?_positive [] i h e = cc
get_elem?_positive (x ∷ bs) zero h e = ground arith
get_elem?_positive (x ∷ bs) (suc i) h e = get_elem?_positive bs i h.2 e

IsBelow-set :
    (key : AssetId) (bs : List AssetBalance) (i n : ℕ) {b : AssetBalance}
    → get_elem? bs i ≡ some b
    → IsBelow key bs
    → IsBelow key (set bs i (with_available b n))
IsBelow-set key [] i n e h = cc
IsBelow-set key (x ∷ bs) zero n e h = ground arith
IsBelow-set key (x ∷ bs) (suc i) n e h = h

pub set-IsCanonical :
    (bs : List AssetBalance) (i n : ℕ) {b : AssetBalance}
    → get_elem? bs i ≡ some b
    → 0 < n
    → IsCanonical bs
    → IsCanonical (set bs i (with_available b n))
set-IsCanonical [] i n e pos h = cc
set-IsCanonical (x ∷ bs) zero n e pos h = ground arith
set-IsCanonical (x ∷ bs) (suc i) n e pos h =
    (h.0, IsBelow-set x.asset bs i n e h.1, set-IsCanonical bs i n e pos h.2)

IsBelow-trans :
    (low key : AssetId) (bs : List AssetBalance) → low < key → IsBelow key bs → IsBelow low bs
IsBelow-trans low key [] lt h = tt
IsBelow-trans low key (x ∷ bs) lt h = omega arith

IsBelow-remove_at :
    (key : AssetId) (bs : List AssetBalance) (i : ℕ)
    → IsCanonical bs
    → IsBelow key bs
    → IsBelow key (remove_at bs i)
IsBelow-remove_at key [] i c h = tt
IsBelow-remove_at key (x ∷ bs) zero c h = IsBelow-trans key x.asset bs h c.1
IsBelow-remove_at key (x ∷ bs) (suc i) c h = h

pub remove_at-IsCanonical :
    (bs : List AssetBalance) (i : ℕ) → IsCanonical bs → IsCanonical (remove_at bs i)
remove_at-IsCanonical [] i h = tt
remove_at-IsCanonical (x ∷ bs) zero h = h.2
remove_at-IsCanonical (x ∷ bs) (suc i) h =
    (h.0, IsBelow-remove_at x.asset bs i h.2 h.1, remove_at-IsCanonical bs i h.2)

IsBelow-insert_at :
    (key : AssetId) (bs : List AssetBalance) (i : ℕ) (b : AssetBalance)
    → key < b.asset
    → IsBelow key bs
    → IsBelow key (insert_at bs i b)
IsBelow-insert_at key [] i b lt h = lt
IsBelow-insert_at key (x ∷ bs) zero b lt h = lt
IsBelow-insert_at key (x ∷ bs) (suc i) b lt h = h

-- Where the search ends without a hit, nothing is held and an entry can go in.
abbrev pub IsPlace : AssetBalance → List AssetBalance → Search → Type 0
IsPlace b bs (found i) = Unit
IsPlace b bs (vacant i) = (held b.asset bs ≡ 0) × IsCanonical (insert_at bs i b)

further-IsPlace :
    (b x : AssetBalance) (bs : List AssetBalance) (s : Search)
    → IsCanonical (x ∷ bs)
    → x.asset < b.asset
    → IsPlace b bs s
    → IsPlace b (x ∷ bs) (further s)
further-IsPlace b x bs (found i) h lt p = tt
further-IsPlace b x bs (vacant i) h lt p =
    (ground arith, (h.0, IsBelow-insert_at x.asset bs i b lt h.1, p.1))

pub find_asset-IsPlace :
    (b : AssetBalance) (bs : List AssetBalance)
    → 0 < b.available
    → IsCanonical bs
    → IsPlace b bs (find_asset bs b.asset)
find_asset-IsPlace b [] pos h = (refl, (pos, tt, tt))
find_asset-IsPlace b (x ∷ bs) pos h = elim (Bool-cases (ltb x.asset b.asset)) [
  | inl below ↦ rw below (
      further-IsPlace b x bs (find_asset bs b.asset) h (ltb→lt _ _ below)
        (find_asset-IsPlace b bs pos h.2))
  | inr above ↦ elim (Bool-cases (x.asset == b.asset)) [
    | inl same ↦ rw (above, same) tt
    | inr other ↦
        rw (above, other)
          (ground (arith, held-IsBelow b.asset x.asset bs h.2 h.1), (pos, ground arith, h))
  ]
]
