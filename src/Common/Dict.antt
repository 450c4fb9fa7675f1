-- ===== src/Common/Dict.antt =====
-- Python's `dict`, as a list of entries in insertion order: a write to a key that is there keeps
-- the key's place, a write to a new key goes to the end.
use Prim.Native.Nat.{suc}
use mathlib.Core.Bool.{Bool, true, false}
use allcallall_agent_runtime.Common.Lists.{length}
use mathlib.Core.Path.{◌≡◌, refl}
use mathlib.Core.Option.{Option, none, some}
use mathlib.Core.List.{List, [], ◌∷◌, map}
use native.Mathlib.Omega.{arith}
use allcallall_agent_runtime.Common.Tests.{if◌then◌else◌}
use allcallall_agent_runtime.Common.Eq.{Eq, ◌==◌}

abbrev pub Dict {ℓ κ} : Type ℓ → Type κ → Type (ℓ ⊔ κ)
Dict K V = List (K × V)

module _ {ℓ κ} {K : Type ℓ} {V : Type κ} ⦃e : Eq K⦄ where
  -- d.get(k)
  unfoldable pub get : Dict K V → K → Option V
  get [] k = none
  get ((j, v) ∷ d) k = if j == k then some v else get d k

  -- d[k] = v
  unfoldable pub put : Dict K V → K → V → Dict K V
  put [] k v = (k, v) ∷ []
  put ((j, w) ∷ d) k v = if j == k then (k, v) ∷ d else (j, w) ∷ put d k v

  -- d.pop(k, None)
  unfoldable pub pop : Dict K V → K → Dict K V
  pop [] k = []
  pop ((j, w) ∷ d) k = let rest = pop d k in if j == k then rest else (j, w) ∷ rest

  -- list(d.values())
  abbrev pub values : Dict K V → List V
  values d = map (λ entry. entry.1) d

  pub get-put :
      (d : Dict K V) (k j : K) (v : V) → get (put d k v) j ≡ (if k == j then some v else get d j)
  unfolding get put
  get-put [] k j v = refl
  get-put ((i, w) ∷ d) k j v =
      ground (arith, e.same_iff k j, e.same_iff i k, e.same_iff i j, get-put d k j v)

  pub get-pop : (d : Dict K V) (k j : K) → get (pop d k) j ≡ (if k == j then none else get d j)
  unfolding get pop
  get-pop [] k j = ground arith
  get-pop ((i, w) ∷ d) k j =
      ground (arith, e.same_iff k j, e.same_iff i k, e.same_iff i j, get-pop d k j)

  -- k not in d
  abbrev pub lacks : Dict K V → K → Bool
  lacks d k = elim (get d k) [ none ↦ true | some v ↦ false ]

  pub length-put :
      (d : Dict K V) (k : K) (v : V)
      → length (put d k v) ≡ (if lacks d k then suc (length d) else length d)
  unfolding get put
  length-put [] k v = refl
  length-put ((j, w) ∷ d) k v = ground (arith, length-put d k v)
