-- ===== src/Skills/Tests.antt =====
-- The registry on a manifest of two files.
use allcallall_agent_runtime.Common.{
  Bool, List, Option, String, [], false, if◌then◌else◌, none, refl, some, true, ◌∷◌, ◌≡◌,
}
use allcallall_agent_runtime.Common.Eq.{contains, string_eq, ◌==◌}
use allcallall_agent_runtime.Common.Dict.{get, put}
use allcallall_agent_runtime.Common.Result.{ok}
use allcallall_agent_runtime.Common.Text.{is_space, lstrip, rstrip, split_at, strip}
use allcallall_agent_runtime.Skills.State.{Skill, is_strict, overlay, stricter_risk, with_snapshot}
use allcallall_agent_runtime.Skills.Registry.{
  Entry, Host, Meta, declared_risk, entry_file, entry_skill, harden, load_manifest, one_text,
  parse_file, parse_skill_md, register, resolve, skill_of,
}
use allcallall_agent_runtime.Skills.Floors.{
  approval_of, asks_approval, load_manifest-approval, loads, names,
}
use allcallall_agent_runtime.Retrieval.Helpers.{any, filter}

-- The tables of `lower` do not matter for texts in lower case.
abbrev as_is : String → String
as_is text = text

abbrev meta_of : String → Meta
meta_of front = record {
  name = some (if front == "helper" then "helper" else "writer");
  tools = one_text "send, write";
  risk_level = none;
  scope = none;
}

abbrev host : Host
host = record {
  lower = as_is;
  sha256 = as_is;
  frontmatter = λ text. some (text, "do it");
  safe_load = meta_of;
  read_text = λ path. some path;
  locate = as_is;
}

abbrev declared : String → String → Entry
declared path risk = record { name = some "entry"; path = some path; risk_level = some risk }

approval : List Entry → Option Bool
unfolding load_manifest resolve get put entry_skill entry_file strip rstrip lstrip is_space
    parse_file parse_skill_md skill_of register harden stricter_risk any is_strict declared_risk
    contains split_at filter overlay with_snapshot
approval entries = approval_of host (load_manifest host entries []).0 "writer"

guarded : approval (declared "writer" "high" ∷ declared "helper" "low" ∷ []) ≡ some true
unfolding approval
guarded = refl

-- The second entry, of low risk, points at a file that calls itself by the first one's name.
taken_over : approval (declared "writer" "high" ∷ declared "other" "low" ∷ []) ≡ some false
unfolding approval
taken_over = refl

-- A level that is neither "low" nor "high" counts as low, also where the file reports it itself.
fails_open : approval (declared "writer" "critical" ∷ []) ≡ some false
unfolding approval
fails_open = refl

abbrev writer : Skill
writer = record {
  name = "writer";
  instructions = "do it";
  tools = "send" ∷ "write" ∷ [];
  risk_level = "low";
  scope = "personal";
  source = "writer";
  instruction_sha256 = "do it";
}

file_loads : entry_file host (declared "writer" "high") ≡ ok writer
unfolding entry_file strip rstrip lstrip is_space parse_file parse_skill_md skill_of with_snapshot
    filter split_at contains
file_loads = refl

manifest_loads :
    loads host (load_manifest host (declared "writer" "high" ∷ declared "helper" "low" ∷ []) [])
    ≡ true
unfolding load_manifest entry_skill entry_file strip rstrip lstrip is_space parse_file
    parse_skill_md skill_of
manifest_loads = refl

other_name : names host "writer" (declared "helper" "low") ≡ false
unfolding names entry_skill entry_file strip rstrip lstrip is_space parse_file parse_skill_md
    skill_of harden stricter_risk any is_strict declared_risk with_snapshot
other_name = refl

load_manifest-approval_example :
    approval_of host
      (load_manifest host (declared "writer" "high" ∷ declared "helper" "low" ∷ []) []).0
      "writer"
    ≡ some (asks_approval host (declared "writer" "high") writer)
load_manifest-approval_example =
    load_manifest-approval host [] (declared "writer" "high") (declared "helper" "low" ∷ []) []
      writer file_loads manifest_loads (other_name, tt)
