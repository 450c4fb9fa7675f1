-- ===== src/ToolQueue/Keyed.antt =====
-- async_tool_queue.py: the keys of the store's dictionary.
use allcallall_agent_runtime.ToolQueue.Writes.{step-Writes}
use allcallall_agent_runtime.Common.{
  ◌≡◌, refl, sym, ◌∙◌, ap, false, none, some, String, List, [], ◌∷◌, Bool-cases, inl, inr, arith,
  subst, clash_none, ◌⊎◌, some-injective,
}
use allcallall_agent_runtime.Common.Eq.{◌==◌, string_eq, ==_refl}
use allcallall_agent_runtime.Common.Dict
use allcallall_agent_runtime.Common.Dict.{Dict, get-put}
use allcallall_agent_runtime.ToolQueue.Store.{Task}
use allcallall_agent_runtime.ToolQueue.Queue.{Queue}
use allcallall_agent_runtime.ToolQueue.Steps.{Call, step}

==_sym-false : (j k : String) → (j == k) ≡ false → (k == j) ≡ false
==_sym-false j k h = ground (arith, string_eq.same_iff j k, string_eq.same_iff k j)

module _ {P : Type 0} where
  abbrev pub IsKeyed : Dict String (Task P) → Type 0
  IsKeyed [] = Unit
  IsKeyed ((key, t) ∷ d) = (t.task_id ≡ key) × (Dict.get d key ≡ none) × IsKeyed d

  -- The task stands in the list.
  abbrev pub Stands : Task P → List (Task P) → Type 0
  Stands t [] = ⊥
  Stands t (u ∷ us) = (t ≡ u) ⊎ Stands t us

  pub put-IsKeyed :
      (d : Dict String (Task P)) (t : Task P) → IsKeyed d → IsKeyed (Dict.put d t.task_id t)
  unfolding Dict.put Dict.get
  put-IsKeyed [] t h = (refl, refl, tt)
  put-IsKeyed ((key, u) ∷ d) t h = elim (Bool-cases (key == t.task_id)) [
    | inl e ↦
        let same = (string_eq.same_iff key t.task_id).0 e in
        rw (e, Dict.put) (refl, subst (λ k. Dict.get d k ≡ none) same h.1, h.2)
    | inr e ↦
        rw (e, Dict.put)
          (
            h.0,
            rw (get-put d t.task_id key t, ==_sym-false key t.task_id e) h.1,
            put-IsKeyed d t h.2,
          )
  ]

  pub Stands-get :
      (d : Dict String (Task P)) (t : Task P)
      → IsKeyed d
      → Stands t (Dict.values d)
      → Dict.get d t.task_id ≡ some t
  unfolding Dict.get
  Stands-get [] t h s = absurd s
  Stands-get ((key, u) ∷ d) t h (inl e) = rw (e, h.0, Dict.get, ==_refl key) refl
  Stands-get ((key, u) ∷ d) t h (inr s) = elim (Bool-cases (key == t.task_id)) [
    | inl e ↦ clash_none (
        sym (subst (λ k. Dict.get d k ≡ none) ((string_eq.same_iff key t.task_id).0 e) h.1)
        ∙ Stands-get d t h.2 s)
    | inr e ↦ rw (e, Dict.get) (Stands-get d t h.2 s)
  ]

  pub get-IsKeyed :
      (d : Dict String (Task P)) (key : String) (t : Task P)
      → IsKeyed d
      → Dict.get d key ≡ some t
      → t.task_id ≡ key
  unfolding Dict.get
  get-IsKeyed [] key t h e = clash_none e
  get-IsKeyed ((j, u) ∷ d) key t h e = elim (Bool-cases (j == key)) [
    | inl same ↦
        sym (ap (λ v. v.task_id) (some-injective (rw (same, Dict.get) at e)))
        ∙ h.0
        ∙ (string_eq.same_iff j key).0 same
    | inr other ↦ get-IsKeyed d key t h.2 (rw (other, Dict.get) at e)
  ]

  pub step-IsKeyed :
      (c : Call P) (q : Queue P) → IsKeyed q.store.tasks → IsKeyed (step c q).store.tasks
  step-IsKeyed c q h = elim (step-Writes c q) [
    | inl same ↦ subst IsKeyed (sym same) h
    | inr (v, e, _) ↦ subst IsKeyed (sym e) (put-IsKeyed q.store.tasks v h)
  ]
