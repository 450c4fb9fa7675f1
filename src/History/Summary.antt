-- ===== src/History/Summary.antt =====
-- context_compression.py: what `_extractive_summary` leaves of the first and the last turn.
use mathlib.Core.List.{append_assoc, append-nil}
use allcallall_agent_runtime.Common.{
  ℕ, zero, suc, ◌*◌, ◌/◌, ◌<◌, ◌≤◌, ◌≡◌, refl, sym, ap, ◌∙◌, max, Bool, true, false, ◌&&◌, List, [],
  ◌∷◌, ◌++◌, length, take, length-take_le, ltb, ltb→lt, ltb-false, Bool-cases, inl, inr, ◌⊎◌, arith,
  clash,
}
use allcallall_agent_runtime.History.Compress.{
  Text, Turn, is_cjk, cjk_count, estimate_tokens, trim, extractive_summary, head_and_tail,
}

-- `part` is a beginning of `whole`.
abbrev pub Begins : Text → Text → Type 0
Begins part whole = (rest : Text) × (whole ≡ part ++ rest)

Begins-trans : (a b c : Text) → Begins a b → Begins b c → Begins a c
Begins-trans a b c (r, e) (s, f) = (r ++ s, f ∙ ap (λ w. w ++ s) e ∙ append_assoc a r s)

take-Begins : (n : ℕ) (text : Text) → Begins (take n text) text
take-Begins zero text = (text, refl)
take-Begins (suc n) [] = ([], refl)
take-Begins (suc n) (c ∷ cs) = let (rest, e) = take-Begins n cs in (rest, ap (λ w. c ∷ w) e)

cjk_count-le : (text : Text) → cjk_count text ≤ length text
unfolding cjk_count
cjk_count-le [] = omega arith
cjk_count-le (c ∷ cs) = elim (Bool-cases (is_cjk c)) [
  | inl e ↦ rw e (omega (arith, cjk_count-le cs))
  | inr e ↦ rw e (omega (arith, cjk_count-le cs))
]

-- A text has no more tokens than characters.
estimate_tokens-le : (text : Text) → estimate_tokens text ≤ length text
unfolding estimate_tokens
estimate_tokens-le [] = omega arith
estimate_tokens-le (c ∷ cs) = omega (arith, cjk_count-le (c ∷ cs))

both_true : (a b : Bool) → (a && b) ≡ true → (a ≡ true) × (b ≡ true)
both_true true b h = (refl, h)
both_true false b h = clash h refl

one_false : (a b : Bool) → (a && b) ≡ false → (a ≡ false) ⊎ (b ≡ false)
one_false false b h = inl refl
one_false true b h = inr h

three_quarters-lt : (n fuel : ℕ) → 10 < n → n ≤ suc fuel → max 10 (n * 3 / 4) ≤ fuel
three_quarters-lt n fuel h k = omega (arith, h, k)

-- The loop ends with a text that is within the budget or no longer than ten characters.
trim-lem :
    (fuel max_tokens : ℕ) (text : Text)
    → length text ≤ fuel
    → Begins (trim fuel max_tokens text) text
      × ((estimate_tokens (trim fuel max_tokens text) ≤ max_tokens)
          ⊎ (length (trim fuel max_tokens text) ≤ 10))
unfolding trim
trim-lem zero max_tokens text h = (([], sym (append-nil text)), inr (omega (arith, h)))
trim-lem (suc fuel) max_tokens text h =
    elim (Bool-cases (ltb max_tokens (estimate_tokens text) && ltb 10 (length text))) [
      | inl e ↦
          let long =
            ltb→lt 10 (length text)
              (both_true (ltb max_tokens (estimate_tokens text)) (ltb 10 (length text)) e).1 in
          let n = max 10 (length text * 3 / 4) in
          let short = three_quarters-lt (length text) fuel long h in
          let (begins, bound) =
            trim-lem fuel max_tokens (take n text) (omega (arith, length-take_le n text, short)) in
          rw e (
            Begins-trans (trim fuel max_tokens (take n text)) (take n text) text begins
                (take-Begins n text),
            bound,
          )
      | inr e ↦
          let bound : (estimate_tokens text ≤ max_tokens) ⊎ (length text ≤ 10) =
            elim (one_false (ltb max_tokens (estimate_tokens text)) (ltb 10 (length text)) e) [
              | inl few ↦ inl (ltb-false max_tokens (estimate_tokens text) few)
              | inr short ↦ inr (ltb-false 10 (length text) short)
            ] in
          rw e (([], sym (append-nil text)), bound)
    ]

-- The summary is a beginning of the first turn joined with the last one, and has at most
-- `max_tokens` tokens, or at most 10 where `max_tokens` is less than that.
pub extractive_summary-Begins :
    (head : Turn) (turns : List Turn) (max_tokens : ℕ)
    → Begins (extractive_summary (head ∷ turns) max_tokens) (head_and_tail head turns)
      × (estimate_tokens (extractive_summary (head ∷ turns) max_tokens) ≤ max 10 max_tokens)
unfolding extractive_summary
extractive_summary-Begins head turns max_tokens =
    let text = head_and_tail head turns in
    let (begins, bound) = trim-lem (length text) max_tokens text (omega arith) in
    let least = estimate_tokens-le (trim (length text) max_tokens text) in
    (begins, elim bound [ inl few ↦ omega (arith, few) | inr short ↦ omega (arith, short, least) ])
