-- ===== src/Skills/Registry.antt =====
-- skill_registry.py: `parse_skill_md` and `SkillRegistry`. The pattern of the frontmatter, the YAML
-- parser, the files and the place of a relative path are parameters.
use Prim.Native.Char.{code}
use Prim.Native.String.{◌++◌ as ◌<>◌}
use allcallall_agent_runtime.Common.{
  List, Option, String, [], false, if◌then◌else◌, map, none, not, some, ◌∷◌,
}
use allcallall_agent_runtime.Common.Eq.{contains, nat_eq, string_eq, ◌==◌}
use allcallall_agent_runtime.Common.Dict.{Dict, get, put}
use allcallall_agent_runtime.Common.Result.{Result, err, ok, ◌>>=◌}
use allcallall_agent_runtime.Common.Text.{is_blank, split_at, strip}
use allcallall_agent_runtime.Retrieval.Helpers.{filter}
use allcallall_agent_runtime.Skills.State.{
  ResolvedSkill, Skill, overlay, stricter_risk, with_snapshot,
}

-- The keys of a frontmatter that the parser reads; a list of tools may be one text.
pub data Tools : Type 0 where
  listed : List String → Tools
  one_text : String → Tools

pub record Meta : Type 0 where
  pub name : Option String
  pub tools : Tools
  pub risk_level : Option String
  pub scope : Option String

-- An entry of a manifest; `path` is its "path" or "file", if it has one that is not empty.
pub record Entry : Type 0 where
  pub name : Option String
  pub path : Option String
  pub risk_level : Option String

pub data SkillError : Type 0 where
  -- the three ValueErrors
  no_frontmatter no_name entry_without_name : SkillError
  -- OSError of a file that cannot be read
  unreadable : String → SkillError
  -- KeyError of `resolve`
  unknown_skill : String → SkillError

pub record Host : Type 0 where
  pub lower : String → String
  pub sha256 : String → String
  -- the two groups of _FRONTMATTER_RE
  pub frontmatter : String → Option (String × String)
  pub safe_load : String → Meta
  pub read_text : String → Option String
  pub locate : String → String

abbrev pub Registry : Type 0
Registry = Dict String Skill

abbrev or_else : Option String → String → String
or_else none default = default
or_else (some text) default = text

-- t.strip() for t in tools.split(",") if t.strip()
abbrev tools_of : Tools → List String
tools_of (listed tools) = tools
tools_of (one_text text) =
    filter (λ t. not (is_blank t))
      (map strip (split_at (λ c. contains ⦃keys = nat_eq⦄ (44 ∷ []) (code c)) text))

-- list.append, of a load that goes on
abbrev pub and_then :
    Skill → Registry × Result SkillError (List Skill) → Registry × Result SkillError (List Skill)
and_then skill (registry, ok loaded) = (registry, ok (skill ∷ loaded))
and_then skill (registry, err e) = (registry, err e)

unfoldable pub resolve : Registry → String → Result SkillError ResolvedSkill
resolve registry name = elim (get registry name) [
  | none ↦ err (unknown_skill name)
  | some skill ↦ ok (
      if skill.risk_level == "high" then overlay skill else record {
        name = skill.name;
        system_instructions = skill.instructions;
        allowed_tools = skill.tools;
        requires_approval = false;
        risk_level = skill.risk_level;
      })
]

module _ (host : Host) where
  -- The skill of a frontmatter and a body.
  unfoldable pub skill_of : Meta → String → String → Result SkillError Skill
  skill_of meta body source =
      let name = strip (or_else meta.name "") in
      if is_blank name
      then err no_name
      else ok (
          with_snapshot host.sha256 (record {
            name = name;
            instructions = strip body;
            tools = tools_of meta.tools;
            risk_level = host.lower (or_else meta.risk_level "low");
            scope = host.lower (or_else meta.scope "personal");
            source = source;
            instruction_sha256 = "";
          }))

  unfoldable pub parse_skill_md : String → String → Result SkillError Skill
  parse_skill_md text source = elim (host.frontmatter text) [
    | none ↦ err no_frontmatter
    | some (front, body) ↦ skill_of (host.safe_load front) body source
  ]

  unfoldable pub register : Registry → Skill → Registry
  register registry skill = put registry skill.name (with_snapshot host.sha256 skill)

  -- parse_skill_md(path.read_text(), source=path)
  unfoldable pub parse_file : String → Result SkillError Skill
  parse_file path = elim (host.read_text path) [
    | none ↦ err (unreadable path)
    | some text ↦ parse_skill_md text path
  ]

  -- The strictest of the two levels, with a new snapshot where the skill changes.
  unfoldable pub harden : String → Skill → Skill
  harden declared skill =
      let effective = stricter_risk host.lower (declared ∷ skill.risk_level ∷ []) in
      if effective == skill.risk_level
      then skill
      else with_snapshot host.sha256 (record skill { risk_level = effective })

  -- str(entry.get("risk_level", RISK_LOW)).lower()
  unfoldable pub declared_risk : Entry → String
  declared_risk entry = host.lower (or_else entry.risk_level "low")

  -- The skill of the file of an entry, as the file tells it.
  unfoldable pub entry_file : Entry → Result SkillError Skill
  entry_file entry =
      let name = strip (or_else entry.name "") in
      if is_blank name
      then err entry_without_name
      else parse_file (host.locate (or_else entry.path (name <> ".md")))

  unfoldable pub entry_skill : Entry → Result SkillError Skill
  entry_skill entry = do skill ← entry_file entry; ok (harden (declared_risk entry) skill)

  -- The loop of `load_manifest`; what was registered before an error stays registered.
  unfoldable pub load_manifest : List Entry → Registry → Registry × Result SkillError (List Skill)
  load_manifest [] registry = (registry, ok [])
  load_manifest (entry ∷ entries) registry = elim (entry_skill entry) [
    | err e ↦ (registry, err e)
    | ok skill ↦ and_then skill (load_manifest entries (register registry skill))
  ]

  unfoldable pub load_skill_md : String → Registry → Registry × Result SkillError Skill
  load_skill_md path registry = elim (parse_file path) [
    | err e ↦ (registry, err e)
    | ok skill ↦ (register registry skill, ok skill)
  ]

  -- `load_directory`, over the sorted paths of its files.
  unfoldable pub load_directory : List String → Registry → Registry × Result SkillError (List Skill)
  load_directory [] registry = (registry, ok [])
  load_directory (path ∷ paths) registry = elim (parse_file path) [
    | err e ↦ (registry, err e)
    | ok skill ↦ and_then skill (load_directory paths (register registry skill))
  ]
