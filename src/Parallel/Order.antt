-- ===== src/Parallel/Order.antt =====
-- nodes/parallel_roles.py: the merge, and the order in which the branches end.
use allcallall_agent_runtime.Common.{
  ◌≡◌, refl, ap, ◌∙◌, true, false, List, [], ◌∷◌, Bool-cases, inl, inr, arith, clash,
}
use mathlib.Core.Path.{fun_ext}
use allcallall_agent_runtime.Common.Eq.{Eq, ◌==◌, string_eq}
use allcallall_agent_runtime.Common.Dict
use allcallall_agent_runtime.Common.Dict.{Dict, get-put}
use allcallall_agent_runtime.Workflow.State.{Role}
use allcallall_agent_runtime.Parallel.Reservation.{role_eq}
use allcallall_agent_runtime.Parallel.Deltas.{
  RoleResult, RoleDelta, by_role, merge_found, merge_role_deltas,
}

-- Two lists that differ by exchanges of neighbours of different roles.
pub data Reordered {T C B : Type 0} : List (RoleDelta T C B) → List (RoleDelta T C B) → Type 0 where
  same : (ds : List (RoleDelta T C B)) → Reordered ds ds
  swap :
      (a b : RoleDelta T C B) (ds : List (RoleDelta T C B))
      → (a.role == b.role) ≡ false
      → Reordered (a ∷ b ∷ ds) (b ∷ a ∷ ds)
  skip :
      (a : RoleDelta T C B) (ds es : List (RoleDelta T C B))
      → Reordered ds es
      → Reordered (a ∷ ds) (a ∷ es)
  trans : (cs ds es : List (RoleDelta T C B)) → Reordered cs ds → Reordered ds es → Reordered cs es

both_same : (p q r : Role) → (p == r) ≡ true → (q == r) ≡ true → (p == q) ≡ true
both_same p q r h k = ground arith

module _ {T C B Key : Type 0} ⦃e : Eq Key⦄ (key : C → Key) where
  abbrev Alike : Dict Role (RoleDelta T C B) → Dict Role (RoleDelta T C B) → Type 0
  Alike c d = (role : Role) → Dict.get c role ≡ Dict.get d role

  put-Alike :
      (c d : Dict Role (RoleDelta T C B)) (role : Role) (delta : RoleDelta T C B)
      → Alike c d
      → Alike (Dict.put c role delta) (Dict.put d role delta)
  put-Alike c d role delta h other =
      rw (get-put c role other delta, get-put d role other delta, h other) refl

  by_role-Alike :
      (ds : List (RoleDelta T C B)) (c d : Dict Role (RoleDelta T C B))
      → Alike c d
      → Alike (by_role key ds c) (by_role key ds d)
  unfolding by_role
  by_role-Alike [] c d h = h
  by_role-Alike (a ∷ ds) c d h =
      by_role-Alike ds (Dict.put c a.role a) (Dict.put d a.role a) (put-Alike c d a.role a h)

  put-put :
      (d : Dict Role (RoleDelta T C B)) (a b : RoleDelta T C B)
      → (a.role == b.role) ≡ false
      → Alike (Dict.put (Dict.put d a.role a) b.role b) (Dict.put (Dict.put d b.role b) a.role a)
  put-put d a b apart role =
      rw
        (
          get-put (Dict.put d a.role a) b.role role b,
          get-put d a.role role a,
          get-put (Dict.put d b.role b) a.role role a,
          get-put d b.role role b,
        )
        (elim (Bool-cases (b.role == role)) [
          | inl here ↦ elim (Bool-cases (a.role == role)) [
            | inl there ↦ clash (both_same a.role b.role role there here) apart
            | inr there ↦ rw (here, there) refl
          ]
          | inr here ↦ rw here refl
        ])

  Reordered-Alike :
      (ds es : List (RoleDelta T C B)) (d : Dict Role (RoleDelta T C B))
      → Reordered ds es
      → Alike (by_role key ds d) (by_role key es d)
  unfolding by_role
  Reordered-Alike ds es d (same _) role = refl
  Reordered-Alike ds es d (swap a b rest apart) role =
      by_role-Alike rest (Dict.put (Dict.put d a.role a) b.role b)
        (Dict.put (Dict.put d b.role b) a.role a) (put-put d a b apart) role
  Reordered-Alike ds es d (skip a cs fs h) role = Reordered-Alike cs fs (Dict.put d a.role a) h role
  Reordered-Alike ds es d (trans cs fs gs h k) role =
      Reordered-Alike cs fs d h role ∙ Reordered-Alike fs gs d k role

  -- The merged update is the same in whatever order the branches ended, as far as each role ended
  -- once: exchanges of deltas of different roles do not change it.
  pub merge_role_deltas-Reordered :
      (ds es : List (RoleDelta T C B)) (canonical_order : List Role) (trace : List T)
      (results : List (RoleResult B))
      → Reordered ds es
      → merge_role_deltas key ds canonical_order trace results
        ≡ merge_role_deltas key es canonical_order trace results
  unfolding merge_role_deltas
  merge_role_deltas-Reordered ds es canonical_order trace results h =
      ap (λ found. merge_found key found canonical_order trace results)
        (fun_ext (Reordered-Alike ds es [] h))
