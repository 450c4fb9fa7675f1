-- ===== src/Skills/Floors.antt =====
-- skill_registry.py: what a manifest's risk levels mean for `resolve`.
use allcallall_agent_runtime.Common.{
  All, Bool, Bool-cases, List, Option, String, [], ap, arith, clash, eq_iff, false, if◌then◌else◌,
  inl, inr, none, refl, some, sym, true, ◌++◌, ◌||◌, ◌∙◌, ◌∷◌, ◌≡◌,
}
use allcallall_agent_runtime.Common.Eq.{==_refl, string_eq, ◌==◌}
use allcallall_agent_runtime.Common.Dict.{get, get-put}
use allcallall_agent_runtime.Common.Result.{Result, Result-cases, err, ok}
use allcallall_agent_runtime.Skills.State.{Skill, is_strict, overlay, stricter_risk, with_snapshot}
use allcallall_agent_runtime.Skills.Registry.{
  Entry, Host, Registry, SkillError, and_then, declared_risk, entry_file, entry_skill, harden,
  load_manifest, register, resolve,
}
use allcallall_agent_runtime.Retrieval.Helpers.{any}

module _ (lower : String → String) where
  stricter_two :
      (a b : String)
      → stricter_risk lower (a ∷ b ∷ [])
        ≡ (if is_strict lower a || is_strict lower b then "high" else "low")
  unfolding stricter_risk any
  stricter_two a b = ground arith

  high_iff : (c : Bool) → ◌==◌ {K = String} (if c then "high" else "low") "high" ≡ c
  high_iff true = refl
  high_iff false = refl

module _ (host : Host) where
  -- One of the two levels is "high", as `stricter_risk` reads them.
  abbrev pub asks_approval : Entry → Skill → Bool
  asks_approval entry skill =
      is_strict host.lower (declared_risk host entry) || is_strict host.lower skill.risk_level

  harden-risk :
      (declared : String) (skill : Skill)
      → (harden host declared skill).risk_level
        ≡ stricter_risk host.lower (declared ∷ skill.risk_level ∷ [])
  unfolding harden with_snapshot
  harden-risk declared skill =
      elim (Bool-cases
        (stricter_risk host.lower (declared ∷ skill.risk_level ∷ []) == skill.risk_level)) [
          | inl e ↦ rw (e, harden) (sym ((eq_iff _ _).0 e))
          | inr e ↦ rw (e, harden) refl
        ]

  harden-name : (declared : String) (skill : Skill) → (harden host declared skill).name ≡ skill.name
  unfolding harden with_snapshot
  harden-name declared skill =
      elim (Bool-cases
        (stricter_risk host.lower (declared ∷ skill.risk_level ∷ []) == skill.risk_level)) [
          | inl e ↦ rw (e, harden) refl
          | inr e ↦ rw (e, harden) refl
        ]

  -- The file of the entry names this skill.
  unfoldable pub names : String → Entry → Bool
  names name entry = elim (entry_skill host entry) [ err e ↦ false | ok skill ↦ skill.name == name ]

  -- What `resolve` says about approval, where it knows the skill.
  abbrev pub approval_of : Registry → String → Option Bool
  approval_of registry name = elim (resolve registry name) [
    | err e ↦ none
    | ok resolved ↦ some resolved.requires_approval
  ]

  abbrev pub loads : Registry × Result SkillError (List Skill) → Bool
  loads (registry, ok loaded) = true
  loads (registry, err e) = false

  resolve_kept :
      (registry : Registry) (name : String) (skill : Skill)
      → get registry name ≡ some skill
      → approval_of registry name ≡ some (skill.risk_level == "high")
  unfolding resolve overlay
  resolve_kept registry name skill h =
      rw (h, resolve, approval_of)
        (elim (Bool-cases (skill.risk_level == "high")) [ inl e ↦ rw e refl | inr e ↦ rw e refl ])

  and_then-registry :
      (skill : Skill) (r : Registry × Result SkillError (List Skill)) → (and_then skill r).0 ≡ r.0
  and_then-registry skill (r, ok rest) = refl
  and_then-registry skill (r, err e) = refl

  and_then-loads :
      (skill : Skill) (r : Registry × Result SkillError (List Skill))
      → loads (and_then skill r) ≡ loads r
  and_then-loads skill (r, ok rest) = refl
  and_then-loads skill (r, err e) = refl

  load_cons :
      (entry : Entry) (entries : List Entry) (registry : Registry) (skill : Skill)
      → entry_skill host entry ≡ ok skill
      → load_manifest host (entry ∷ entries) registry
        ≡ and_then skill (load_manifest host entries (register host registry skill))
  unfolding load_manifest
  load_cons entry entries registry skill e = rw (e, load_manifest) refl

  load_cons-err :
      (entry : Entry) (entries : List Entry) (registry : Registry) (x : SkillError)
      → entry_skill host entry ≡ err x
      → load_manifest host (entry ∷ entries) registry ≡ (registry, err x)
  unfolding load_manifest
  load_cons-err entry entries registry x e = rw (e, load_manifest) refl

  names-ok :
      (name : String) (entry : Entry) (skill : Skill)
      → entry_skill host entry ≡ ok skill
      → names name entry ≡ (skill.name == name)
  unfolding names
  names-ok name entry skill e = rw (e, names) refl

  register-get :
      (registry : Registry) (skill : Skill) (name : String)
      → (skill.name == name) ≡ false
      → get (register host registry skill) name ≡ get registry name
  unfolding register
  register-get registry skill name h =
      get-put registry skill.name name (with_snapshot host.sha256 skill) ∙ rw h refl

  register-get_self :
      (registry : Registry) (skill : Skill)
      → get (register host registry skill) skill.name ≡ some (with_snapshot host.sha256 skill)
  unfolding register
  register-get_self registry skill =
      get-put registry skill.name skill.name (with_snapshot host.sha256 skill)
      ∙ rw (==_refl skill.name) refl

  load_manifest-get :
      (entries : List Entry) (registry : Registry) (name : String)
      → All (λ e. names name e ≡ false) entries
      → get (load_manifest host entries registry).0 name ≡ get registry name
  unfolding load_manifest
  load_manifest-get [] registry name u = refl
  load_manifest-get (entry ∷ entries) registry name (u, us) =
      elim (Result-cases (entry_skill host entry)) [
        | inr (x, e) ↦ ap (λ r. get r.0 name) (load_cons-err entry entries registry x e)
        | inl (skill, e) ↦
            ap (λ r. get r.0 name) (load_cons entry entries registry skill e)
            ∙ (ap (λ r. get r name)
                  (and_then-registry skill
                    (load_manifest host entries (register host registry skill)))
                ∙ (load_manifest-get entries (register host registry skill) name us
                    ∙ register-get registry skill name (sym (names-ok name entry skill e) ∙ u)))
      ]

  hardened_high :
      (entry : Entry) (skill : Skill)
      → ◌==◌ {K = String}
          (with_snapshot host.sha256 (harden host (declared_risk host entry) skill)).risk_level
          "high"
        ≡ asks_approval entry skill
  unfolding with_snapshot
  hardened_high entry skill =
      ap (λ level. ◌==◌ {K = String} level "high")
        (harden-risk (declared_risk host entry) skill
          ∙ stricter_two host.lower (declared_risk host entry) skill.risk_level)
      ∙ high_iff host.lower (asks_approval entry skill)

  entry_skill-ok :
      (entry : Entry) (skill : Skill)
      → entry_file host entry ≡ ok skill
      → entry_skill host entry ≡ ok (harden host (declared_risk host entry) skill)
  unfolding entry_skill
  entry_skill-ok entry skill h = rw (h, entry_skill) refl

  -- From a manifest that loads: a skill that one entry's file names, and no later entry's file, asks
  -- for approval exactly where the entry declares a high risk or the file itself does.
  pub load_manifest-approval :
      (before : List Entry) (entry : Entry) (after : List Entry) (registry : Registry)
      (skill : Skill)
      → entry_file host entry ≡ ok skill
      → loads (load_manifest host (before ++ entry ∷ after) registry) ≡ true
      → All (λ e. names skill.name e ≡ false) after
      → approval_of (load_manifest host (before ++ entry ∷ after) registry).0 skill.name
        ≡ some (asks_approval entry skill)
  load_manifest-approval [] entry after registry skill h l u =
      let hard = harden host (declared_risk host entry) skill in
      let e = entry_skill-ok entry skill h in
      let found : get (load_manifest host (entry ∷ after) registry).0 skill.name
          ≡ some (with_snapshot host.sha256 hard) =
        ap (λ r. get r.0 skill.name) (load_cons entry after registry hard e)
        ∙ (ap (λ r. get r skill.name)
              (and_then-registry hard (load_manifest host after (register host registry hard)))
            ∙ (load_manifest-get after (register host registry hard) skill.name u
                ∙ (ap (λ n. get (register host registry hard) n)
                      (sym (harden-name (declared_risk host entry) skill))
                    ∙ register-get_self registry hard))) in
      resolve_kept _ skill.name (with_snapshot host.sha256 hard) found
      ∙ ap some (hardened_high entry skill)
  load_manifest-approval (b ∷ before) entry after registry skill h l u =
      elim (Result-cases (entry_skill host b)) [
        | inr (x, e) ↦
            clash (sym (ap loads (load_cons-err b (before ++ entry ∷ after) registry x e)) ∙ l) refl
        | inl (first, e) ↦
            let rest =
              load_manifest host (before ++ entry ∷ after) (register host registry first) in
            ap (λ r. approval_of r.0 skill.name)
              (load_cons b (before ++ entry ∷ after) registry first e)
            ∙ (ap (λ r. approval_of r skill.name) (and_then-registry first rest)
                ∙ load_manifest-approval before entry after (register host registry first) skill h
                    (sym (and_then-loads first rest)
                      ∙ (sym (ap loads (load_cons b (before ++ entry ∷ after) registry first e))
                          ∙ l))
                    u)
      ]
