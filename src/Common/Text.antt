-- ===== src/Common/Text.antt =====
-- Python's texts: the methods of `str` and the patterns of `re` that the source uses, by code point.
use Prim.Native.Char.{Char, code}
use Prim.Native.Nat.{ℕ, zero, suc, compare}
use Prim.Native.String.{String, ◌++◌ as ◌<>◌}
use mathlib.Core.Bool.{Bool, true, false, ◌&&◌, ◌||◌}
use mathlib.Core.List.{List, [], ◌∷◌}
use text.Mathlib.Text.{is_eq}
use allcallall_agent_runtime.Common.Tests.{leb, if◌then◌else◌}

abbrev pub is_blank : String → Bool
is_blank String.[] = true
is_blank (String.◌∷◌ c s) = false

-- `str.isspace` of one character, which is also what `\s` matches.
unfoldable pub is_space : Char → Bool
is_space c =
    let n = code c in
    (leb 9 n && leb n 13)
    || ((leb 28 n && leb n 32)
        || (is_eq (compare n 133)
            || (is_eq (compare n 160)
                || (is_eq (compare n 5760)
                    || ((leb 8192 n && leb n 8202)
                        || ((leb 8232 n && leb n 8233)
                            || (is_eq (compare n 8239)
                                || (is_eq (compare n 8287) || is_eq (compare n 12288)))))))))

-- s.lstrip()
unfoldable pub lstrip : String → String
lstrip String.[] = ""
lstrip (String.◌∷◌ c s) = let rest = lstrip s in if is_space c then rest else String.◌∷◌ c s

-- s.rstrip()
unfoldable pub rstrip : String → String
rstrip String.[] = ""
rstrip (String.◌∷◌ c s) =
    let rest = rstrip s in if is_space c && is_blank rest then "" else String.◌∷◌ c rest

-- s.strip()
unfoldable pub strip : String → String
strip s = rstrip (lstrip s)

-- re.sub(r"\s+", " ", s), where `inside` says that the character before was a space.
unfoldable pub collapse : Bool → String → String
collapse inside String.[] = ""
collapse inside (String.◌∷◌ c s) =
    let space = collapse true s in
    let other = collapse false s in
    if is_space c then if inside then space else " " <> space else String.◌∷◌ c other

-- s.split(), and " ".join of the parts: what is left of the spaces is one between two words.
unfoldable pub squeeze : String → String
squeeze s = collapse false (strip s)

unfoldable pub begins : String → String → Bool
begins String.[] s = true
begins (String.◌∷◌ c t) String.[] = false
begins (String.◌∷◌ c t) (String.◌∷◌ d s) = is_eq (compare (code c) (code d)) && begins t s

-- `t in s`
unfoldable pub within : String → String → Bool
within t String.[] = is_blank t
within t (String.◌∷◌ c s) = begins t (String.◌∷◌ c s) || within t s

-- len(s)
unfoldable pub char_count : String → ℕ
char_count String.[] = 0
char_count (String.◌∷◌ c s) = suc (char_count s)

-- s[:n]
unfoldable pub first_chars : ℕ → String → String
first_chars zero s = ""
first_chars (suc n) String.[] = ""
first_chars (suc n) (String.◌∷◌ c s) = String.◌∷◌ c (first_chars n s)

-- `c` in front of the first piece
abbrev onto_first : Char → List String → List String
onto_first c [] = String.◌∷◌ c "" ∷ []
onto_first c (t ∷ ts) = String.◌∷◌ c t ∷ ts

-- re.split at each character that `separates`
unfoldable pub split_at : (Char → Bool) → String → List String
split_at separates String.[] = "" ∷ []
split_at separates (String.◌∷◌ c s) =
    let rest = split_at separates s in if separates c then "" ∷ rest else onto_first c rest

-- sep.join(parts)
unfoldable pub join : String → List String → String
join sep [] = ""
join sep (t ∷ []) = t
join sep (t ∷ u ∷ us) = t <> (sep <> join sep (u ∷ us))
