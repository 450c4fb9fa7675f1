-- ===== src/Common/Distinct.antt =====
-- Lists of texts of which none occurs twice.
use Prim.Native.Nat.{suc, ◌≤◌}
use Prim.Native.String.{String}
use mathlib.Core.Path.{◌≡◌, refl, sym, ◌∙◌}
use mathlib.Core.Bool.{Bool, true, false, ◌||◌}
use mathlib.Core.List.{List, [], ◌∷◌, ◌++◌}
use mathlib.Core.Logic.{inl, inr}
use native.Mathlib.Omega.{arith}
use text.Mathlib.TextEquality.{eq_iff}
use allcallall_agent_runtime.Common.Tests.{Bool-cases, clash, if◌then◌else◌, or_false, or_left}
use allcallall_agent_runtime.Common.Lists.{All, length}
use allcallall_agent_runtime.Common.Eq.{◌==◌, string_eq, contains, contains-append, apart_from}

-- No text occurs twice.
abbrev pub Distinct : List String → Type 0
Distinct [] = Unit
Distinct (k ∷ ks) = (contains ks k ≡ false) × Distinct ks

-- Each of `ids` is among `ks`.
abbrev pub Listed : List String → List String → Type 0
Listed ks ids = All (λ i. contains ks i ≡ true) ids

-- None of `ids` is among `ks`.
abbrev pub Unlisted : List String → List String → Type 0
Unlisted ks ids = All (λ i. contains ks i ≡ false) ids

both_false : (a b : Bool) → a ≡ false → b ≡ false → (a || (b || false)) ≡ false
both_false a b h k = ground arith

pub Distinct-snoc :
    (ks : List String) (k : String) → Distinct ks → contains ks k ≡ false → Distinct (ks ++ k ∷ [])
unfolding contains
Distinct-snoc [] k d h = (refl, tt)
Distinct-snoc (j ∷ ks) k (fresh, d) h =
    let (other, rest) = apart_from j k (contains ks k) h in
    (contains-append ks (k ∷ []) j ∙ both_false _ _ fresh other, Distinct-snoc ks k d rest)

neither :
    (a : Bool) (i k : String) → (a || (i == k || false)) ≡ false → (a ≡ false) × ((k == i) ≡ false)
neither a i k h = ground (arith, eq_iff i k, eq_iff k i)

-- Of texts that are not among `ks` with `k` behind: they are not among `ks`, nor is `k` among them.
pub Unlisted-snoc :
    (ks : List String) (k : String) (ids : List String)
    → Unlisted (ks ++ k ∷ []) ids
    → Unlisted ks ids × (contains ids k ≡ false)
unfolding contains
Unlisted-snoc ks k [] h = (tt, refl)
Unlisted-snoc ks k (i ∷ ids) (h, hs) =
    let (out, apart) = neither (contains ks i) i k (sym (contains-append ks (k ∷ []) i) ∙ h) in
    let (outs, rest) = Unlisted-snoc ks k ids hs in ((out, outs), or_false _ _ apart rest)

pub Unlisted-cons :
    (k : String) (ids : List String)
    → contains ids k ≡ false
    → (seen : List String) → Unlisted seen ids
    → Unlisted (k ∷ seen) ids
unfolding contains
Unlisted-cons k [] h seen u = tt
Unlisted-cons k (i ∷ ids) h seen (u, us) =
    let (other, rest) = apart_from i k (contains ids k) h in
    (or_false _ _ other u, Unlisted-cons k ids rest seen us)

pub all-Unlisted : (ids : List String) → Unlisted [] ids
unfolding contains
all-Unlisted [] = tt
all-Unlisted (i ∷ ids) = (refl, all-Unlisted ids)

flipped : (i x : String) → (i == x) ≡ true → (x == i) ≡ true
flipped i x h = ground (arith, eq_iff i x, eq_iff x i)

or_right : (a b : Bool) → b ≡ true → (a || b) ≡ true
or_right a b h = ground arith

-- The list without the first `i`.
erase : String → List String → List String
erase i [] = []
erase i (x ∷ xs) = let rest = erase i xs in if i == x then xs else x ∷ rest

erase-length :
    (i : String) (xs : List String) → contains xs i ≡ true → suc (length (erase i xs)) ≡ length xs
unfolding erase contains
erase-length i [] h = clash h refl
erase-length i (x ∷ xs) h = elim (Bool-cases (i == x)) [
  | inl e ↦ rw e refl
  | inr e ↦ rw e (omega (arith, erase-length i xs (rw e at h)))
]

erase-contains :
    (i j : String) (xs : List String)
    → (j == i) ≡ false
    → contains xs j ≡ true
    → contains (erase i xs) j ≡ true
unfolding erase contains
erase-contains i j [] a h = clash h refl
erase-contains i j (x ∷ xs) a h =
    ground (arith, eq_iff i x, eq_iff j x, eq_iff j i, erase-contains i j xs a)

pub Listed-cons : (i : String) (is xs : List String) → Listed is xs → Listed (i ∷ is) xs
unfolding contains
Listed-cons i is [] l = tt
Listed-cons i is (x ∷ xs) (l, ls) = (or_right _ _ l, Listed-cons i is xs ls)

cover : (i : String) (is xs : List String) → Listed is (erase i xs) → Listed (i ∷ is) xs
unfolding erase contains
cover i is [] l = tt
cover i is (x ∷ xs) l = elim (Bool-cases (i == x)) [
  | inl e ↦
      let l' : Listed is xs = rw e at l in (or_left _ _ (flipped i x e), Listed-cons i is xs l')
  | inr e ↦
      let l' : Listed is (x ∷ erase i xs) = rw e at l in (or_right _ _ l'.0, cover i is xs l'.1)
]

erase-Listed :
    (i : String) (is xs : List String)
    → contains is i ≡ false
    → Listed xs is
    → Listed (erase i xs) is
unfolding contains
erase-Listed i [] xs a l = tt
erase-Listed i (j ∷ is) xs a (l, ls) =
    let (other, rest) = apart_from j i (contains is i) a in
    (erase-contains i j xs other l, erase-Listed i is xs rest ls)

-- As many different texts as `expected` has, all of them in it, are all that it has.
pub Listed-all :
    (ids expected : List String)
    → Distinct ids
    → Listed expected ids
    → length expected ≤ length ids
    → Listed ids expected
Listed-all [] [] d l le = tt
Listed-all [] (x ∷ xs) d l le = absurd (omega arith)
Listed-all (i ∷ is) expected (fresh, d) (l, ls) le = cover i is expected (
    Listed-all is (erase i expected) d (erase-Listed i is expected fresh ls)
      (omega (arith, erase-length i expected l)))
