-- ===== src/History/Window.antt =====
-- context_compression.py: which turns `_compress_full` keeps.
use mathlib.Core.List.{append_assoc, append-nil}
use allcallall_agent_runtime.Common.{
  ℕ, ◌+◌, ◌<◌, ◌≤◌, ◌≡◌, refl, sym, ap, ◌∙◌, subst, List, [], ◌∷◌, ◌++◌, length, ltb, ltb-false,
  ltb→lt, Bool-cases, inl, inr, ◌⊎◌, arith,
}
use allcallall_agent_runtime.History.Compress.{Turn, cost, select, window, reverse_onto}

abbrev pub total : List Turn → ℕ
total [] = 0
total (t ∷ ts) = cost t + total ts

-- The kept turns cost no more than the budget, or there is only one.
abbrev pub Fits : ℕ → List Turn → Type 0
Fits budget ts = (total ts ≤ budget) ⊎ (length ts ≤ 1)

-- The turn before the kept ones, if there is one, does not fit.
abbrev pub IsFull : ℕ → List Turn → List Turn → Type 0
IsFull budget before kept =
    (before ≡ [])
    ⊎ ((earlier : List Turn) × ((t : Turn) × ((before ≡ earlier ++ t ∷ [])
            × (budget < total kept + cost t))))

-- `kept` is a longest end of `turns` that fits.
abbrev pub IsWindow : ℕ → List Turn → List Turn → Type 0
IsWindow budget turns kept =
    (before : List Turn) × ((turns ≡ before ++ kept)
      × (Fits budget kept × IsFull budget before kept))

reverse_onto-append : {A : Type 0} (xs ys : List A) → reverse_onto xs ys ≡ reverse_onto xs [] ++ ys
unfolding reverse_onto
reverse_onto-append [] ys = refl
reverse_onto-append (x ∷ xs) ys =
    reverse_onto-append xs (x ∷ ys)
    ∙ sym (append_assoc (reverse_onto xs []) (x ∷ []) ys)
    ∙ ap (λ zs. zs ++ ys) (sym (reverse_onto-append xs (x ∷ [])))

reverse_onto-reverse_onto :
    {A : Type 0} (xs ys zs : List A)
    → reverse_onto (reverse_onto xs ys) zs ≡ reverse_onto ys (xs ++ zs)
unfolding reverse_onto
reverse_onto-reverse_onto [] ys zs = refl
reverse_onto-reverse_onto (x ∷ xs) ys zs = reverse_onto-reverse_onto xs (x ∷ ys) zs

select-IsWindow :
    (budget used : ℕ) (selected rest : List Turn)
    → used ≡ total selected
    → Fits budget selected
    → IsWindow budget (reverse_onto rest selected) (select budget used selected rest)
unfolding select reverse_onto
select-IsWindow budget used selected [] e fits = ([], (refl, (fits, inl refl)))
select-IsWindow budget used [] (t ∷ ts) e fits =
    select-IsWindow budget (used + cost t) (t ∷ []) ts (omega (arith, e)) (inr (omega arith))
select-IsWindow budget used (u ∷ us) (t ∷ ts) e fits =
    elim (Bool-cases (ltb budget (used + cost t))) [
      | inl over ↦
          let shape =
            reverse_onto-append ts (t ∷ u ∷ us)
            ∙ sym (append_assoc (reverse_onto ts []) (t ∷ []) (u ∷ us)) in
          let full = ltb→lt budget (used + cost t) over in
          rw over (
            reverse_onto ts [] ++ t ∷ [],
            (shape, (fits, inr (reverse_onto ts [], (t, (refl, omega (arith, full, e)))))),
          )
      | inr under ↦ rw under (
          select-IsWindow budget (used + cost t) (t ∷ u ∷ us) ts (omega (arith, e))
            (inl (omega (arith, ltb-false budget (used + cost t) under, e))))
    ]

-- `_compress_full` keeps an end of the turns that costs no more than the budget or is one turn, and
-- the turn before it, if there is one, would not fit.
pub window-IsWindow : (turns : List Turn) (budget : ℕ) → IsWindow budget turns (window turns budget)
unfolding window reverse_onto
window-IsWindow turns budget =
    subst (λ ts. IsWindow budget ts (select budget 0 [] (reverse_onto turns [])))
      (reverse_onto-reverse_onto turns [] [] ∙ append-nil turns)
      (select-IsWindow budget 0 [] (reverse_onto turns []) refl (inr (omega arith)))
