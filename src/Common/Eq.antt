-- ===== src/Common/Eq.antt =====
-- Keys and values that the source compares by `==`: numbers and texts.
use Prim.Native.Nat.{ℕ, compare, Ordering}
use Prim.Native.String.{String}
use mathlib.Core.Path.{◌≡◌, refl}
use mathlib.Core.Logic.{◌↔◌}
use mathlib.Core.Bool.{Bool, true, false, ◌||◌}
use mathlib.Core.List.{List, [], ◌∷◌, ◌++◌}
use mathlib.Core.Logic.{inl, inr}
use allcallall_agent_runtime.Common.Tests.{Bool-cases}
use native.Mathlib.Omega.{arith}
use text.Mathlib.Text.{◌==◌ as str_eq}
use text.Mathlib.TextEquality.{eq_iff}

pub record Eq {ℓ} (K : Type ℓ) : Type ℓ where
  pub same : K → K → Bool
  pub same_iff : (j k : K) → (same j k ≡ true) ↔ (j ≡ k)

abbrev same_number : ℕ → ℕ → Bool
same_number j k = elim (compare j k) [ Ordering.eq ↦ true | _ ↦ false ]

pub same_number_iff : (j k : ℕ) → (same_number j k ≡ true) ↔ (j ≡ k)
same_number_iff j k = ground arith

instance abbrev pub string_eq : Eq String
string_eq = record { same = str_eq; same_iff = eq_iff }

instance abbrev pub nat_eq : Eq ℕ
nat_eq = record { same = same_number; same_iff = same_number_iff }

module _ {ℓ} {K : Type ℓ} ⦃keys : Eq K⦄ where
  infix 50 ◌==◌
  abbrev pub ◌==◌ : K → K → Bool
  j == k = keys.same j k

  pub ==_refl : (k : K) → (k == k) ≡ true
  ==_refl k = (keys.same_iff k k).1 refl

  -- Python's `k in ks`.
  unfoldable pub contains : List K → K → Bool
  contains [] k = false
  contains (j ∷ ks) k = k == j || contains ks k

  pub contains-append :
      (xs ys : List K) (k : K) → contains (xs ++ ys) k ≡ (contains xs k || contains ys k)
  unfolding contains
  contains-append [] ys k = refl
  contains-append (x ∷ xs) ys k = elim (Bool-cases (k == x)) [
    | inl e ↦ rw e refl
    | inr e ↦ rw e (contains-append xs ys k)
  ]

-- What a text that is not in `i :: ks` is apart from.
pub apart_from :
    (i k : String) (b : Bool) → (k == i || b) ≡ false → ((i == k) ≡ false) × (b ≡ false)
apart_from i k b h = ground (arith, eq_iff i k, eq_iff k i)
