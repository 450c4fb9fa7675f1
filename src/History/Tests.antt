-- ===== src/History/Tests.antt =====
-- context_compression.py on concrete inputs.
use allcallall_agent_runtime.Common.{◌≤◌, ◌≡◌, refl, max, [], ◌∷◌}
use allcallall_agent_runtime.History.Compress
use allcallall_agent_runtime.History.Compress.{
  Turn, Text, window, extractive_summary, head_and_tail, estimate_tokens, build_model_history,
}
use allcallall_agent_runtime.History.Window.{IsWindow, window-IsWindow}
use allcallall_agent_runtime.History.Summary.{Begins, extractive_summary-Begins}

-- Seven letters.
abbrev word : Text
word = 104 ∷ 101 ∷ 108 ∷ 108 ∷ 111 ∷ 33 ∷ 33 ∷ []

abbrev question : Turn
question = record { role = 117 ∷ []; content = word }

abbrev answer : Turn
answer = record { role = 97 ∷ []; content = 20013 ∷ 25991 ∷ [] }

program : Unit {0}
unfolding window Compress.select Compress.cost Compress.reverse_onto estimate_tokens
    Compress.cjk_count
program =
    let tokens : estimate_tokens word ≡ 2 = refl in
    let latest : window (question ∷ answer ∷ []) 5 ≡ answer ∷ [] = refl in
    let both : window (question ∷ answer ∷ []) 8 ≡ question ∷ answer ∷ [] = refl in
    let over_budget : window (question ∷ answer ∷ []) 1 ≡ answer ∷ [] = refl in tt

window-IsWindow_example : IsWindow 5 (question ∷ answer ∷ []) (window (question ∷ answer ∷ []) 5)
window-IsWindow_example = window-IsWindow (question ∷ answer ∷ []) 5

extractive_summary-Begins_example :
    Begins (extractive_summary (question ∷ answer ∷ []) 4) (head_and_tail question (answer ∷ []))
    × (estimate_tokens (extractive_summary (question ∷ answer ∷ []) 4) ≤ max 10 4)
extractive_summary-Begins_example = extractive_summary-Begins question (answer ∷ []) 4
