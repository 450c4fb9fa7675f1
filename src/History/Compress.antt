-- ===== src/History/Compress.antt =====
-- context_compression.py: `build_model_history`. A text is the list of its code points. An injected
-- summarizer is a parameter.
use allcallall_agent_runtime.Common.{
  ℕ, zero, suc, ◌+◌, ◌-◌, ◌*◌, ◌/◌, max, Bool, true, false, ◌&&◌, Option, none, some, List, [], ◌∷◌,
  ◌++◌, leb, ltb, length, take, if◌then◌else◌,
}
use allcallall_agent_runtime.Common.Result.{Result, ok, err}

abbrev pub Text : Type 0
Text = List ℕ

-- Between U+4E00 and U+9FFF.
abbrev pub is_cjk : ℕ → Bool
is_cjk c = leb 19968 c && leb c 40959

unfoldable pub cjk_count : Text → ℕ
cjk_count [] = 0
cjk_count (c ∷ cs) = (if is_cjk c then 1 else 0) + cjk_count cs

unfoldable pub estimate_tokens : Text → ℕ
estimate_tokens [] = 0
estimate_tokens (c ∷ cs) = let cjk = cjk_count (c ∷ cs) in max 1 (cjk + (length (c ∷ cs) - cjk) / 3)

pub record Turn : Type 0 where
  pub role : Text
  pub content : Text

-- f"[{role}]: {content}"
unfoldable pub labelled : Turn → Text
labelled t = (91 ∷ []) ++ t.role ++ (93 ∷ 58 ∷ 32 ∷ []) ++ t.content

-- The last of a list that is not empty, its first being `t`.
abbrev pub last_turn : Turn → List Turn → Turn
last_turn t [] = t
last_turn t (u ∷ us) = last_turn u us

-- " … ".join(parts)
unfoldable pub head_and_tail : Turn → List Turn → Text
head_and_tail head [] = labelled head
head_and_tail head (t ∷ ts) = labelled head ++ (32 ∷ 8230 ∷ 32 ∷ []) ++ labelled (last_turn t ts)

-- The `while` loop that cuts the summary, on fuel.
unfoldable pub trim : ℕ → ℕ → Text → Text
trim zero max_tokens summary = summary
trim (suc fuel) max_tokens summary =
    let shorter = trim fuel max_tokens (take (max 10 (length summary * 3 / 4)) summary) in
    if ltb max_tokens (estimate_tokens summary) && ltb 10 (length summary) then shorter else summary

unfoldable pub extractive_summary : List Turn → ℕ → Text
extractive_summary [] max_tokens = []
extractive_summary (head ∷ turns) max_tokens =
    let summary = head_and_tail head turns in trim (length summary) max_tokens summary

-- +2 for the role prefix
unfoldable pub cost : Turn → ℕ
cost t = estimate_tokens t.content + 2

-- reversed(xs), in front of `acc`
unfoldable pub reverse_onto : {A : Type 0} → List A → List A → List A
reverse_onto [] acc = acc
reverse_onto (x ∷ xs) acc = reverse_onto xs (x ∷ acc)

abbrev pub is_nil : List Turn → Bool
is_nil [] = true
is_nil (t ∷ ts) = false

-- The loop of `_compress_full`, over the turns from the latest on.
unfoldable pub select : ℕ → ℕ → List Turn → List Turn → List Turn
select budget used selected [] = selected
select budget used selected (t ∷ ts) =
    let more = select budget (used + cost t) (t ∷ selected) ts in
    if is_nil selected then more else if ltb budget (used + cost t) then selected else more

unfoldable pub window : List Turn → ℕ → List Turn
window turns budget = select budget 0 [] (reverse_onto turns [])

-- "\n".join(...)
unfoldable pub lines : List Turn → Text
lines [] = []
lines (t ∷ []) = labelled t
lines (t ∷ u ∷ us) = labelled t ++ (10 ∷ []) ++ lines (u ∷ us)

unfoldable pub compress_full : List Turn → ℕ → Text
compress_full turns budget = lines (window turns budget)

pub data Strategy : Type 0 where
  summary full other : Strategy

unfoldable pub compress_summary : Option (List Turn → Text) → List Turn → ℕ → Text
compress_summary none turns budget = extractive_summary turns budget
compress_summary (some summarizer) turns budget = summarizer turns

-- `other` is any other strategy; the error is the ValueError.
unfoldable pub build_model_history :
    Option (List Turn → Text) → Strategy → ℕ → List Turn → Result (Unit {0}) Text
build_model_history summarizer strategy max_tokens [] = ok []
build_model_history summarizer summary max_tokens (t ∷ ts) =
    ok (compress_summary summarizer (t ∷ ts) max_tokens)
build_model_history summarizer full max_tokens (t ∷ ts) = ok (compress_full (t ∷ ts) max_tokens)
build_model_history summarizer other max_tokens (t ∷ ts) = err tt
