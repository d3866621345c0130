-- ===== src/Access.antt =====
-- src/access_grant.ts: what a grant of access lets a plan change, and which tools it exposes in a
-- phase. Two parameters stand for the JavaScript engine: `date_parse` for `Date.parse`, with `none`
-- for NaN, and `test` for `new RegExp(source).test(path)`.
mod Exposure
mod Plans
mod Tests
use Prim.Native.Char.{Char, code}
use coltrane.Base.{
  ℕ, ◌-◌, String, Bool, true, false, not, ◌&&◌, ◌||◌, Option, none, some, List, [], ◌∷◌, ◌==◌, eqb,
  leb, ltb, if◌then◌else◌, glue, length, any, keep, includes, map,
}

pub data ResourceType : Type 0 where
  repo environment database api email crm calendar social analytics : ResourceType

pub record Permissions : Type 0 where
  pub read : Bool
  pub write : Bool
  pub execute : Bool
  pub deploy : Bool

pub record Scope : Type 0 where
  pub branches : List String
  pub paths : List String
  pub excluded_paths : List String
  pub max_files_per_patch : ℕ
  pub max_lines_per_patch : ℕ

pub record AccessGrant : Type 0 where
  pub id : String
  pub company_id : String
  pub resource_type : ResourceType
  pub resource_uri : String
  pub permissions : Permissions
  pub scope : Scope
  pub expires_at : String
  pub requires_pr : Bool
  pub requires_human_review : Bool
  pub auto_revert_on_failure : Bool

pub data Phase : Type 0 where
  sense interpret judge plan create verify : Phase

-- The answer with `remaining_ms`, which is `none` for NaN, or the refusal.
pub data TtlResult : Type 0 where
  valid : Option ℕ → TtlResult
  expired : String → TtlResult

-- `expiry <= nowMs` is false of NaN.
abbrev pub ttl_of : String → Option ℕ → ℕ → TtlResult
ttl_of text (some expiry) now = if leb expiry now then expired text else valid (some (expiry - now))
ttl_of text none now = valid none

unfoldable pub check_grant_ttl : (String → Option ℕ) → AccessGrant → ℕ → TtlResult
check_grant_ttl date_parse grant now = ttl_of grant.expires_at (date_parse grant.expires_at) now

pub record PlanCheck : Type 0 where
  pub files : List String
  pub lines_changed : ℕ

pub data PlanResult : Type 0 where
  valid too_many_files too_many_lines : PlanResult
  excluded : String → String → PlanResult
  outside : String → PlanResult

-- `text.split("/")`
abbrev to_first : Char → List String → List String
to_first c [] = String.◌∷◌ c String.[] ∷ []
to_first c (s ∷ ss) = String.◌∷◌ c s ∷ ss

unfoldable split_slash : String → List String
split_slash String.[] = String.[] ∷ []
split_slash (String.◌∷◌ c s) =
    let rest = split_slash s in if eqb (code c) 47 then String.[] ∷ rest else to_first c rest

-- `seg.replace(/\*/g, "[^/]*")`
unfoldable replace_stars : String → String
replace_stars String.[] = String.[]
replace_stars (String.◌∷◌ c s) =
    let rest = replace_stars s in if eqb (code c) 42 then glue "[^/]*" rest else String.◌∷◌ c rest

abbrev segment_source : String → String
segment_source seg = if seg == "**" then ".*" else replace_stars seg

unfoldable join_slash : List String → String
join_slash [] = ""
join_slash (s ∷ []) = s
join_slash (s ∷ t ∷ ss) = glue s (glue "/" (join_slash (t ∷ ss)))

unfoldable pub matches_glob : (String → String → Bool) → String → String → Bool
unfolding split_slash replace_stars join_slash
matches_glob test pattern path =
    test (glue "^" (glue (join_slash (map segment_source (split_slash pattern))) "$")) path

-- The loop over the excluded paths, then over the files.
unfoldable pub first_excluded : (String → String → Bool) → String → List String → Option String
first_excluded test f [] = none
first_excluded test f (ex ∷ more) =
    let rest = first_excluded test f more in
    if matches_glob test ex f || f == ex then some ex else rest

abbrev pub file_result : String → Option String → Bool → PlanResult → PlanResult
file_result f (some ex) in_scope rest = excluded f ex
file_result f none in_scope rest = if not in_scope then outside f else rest

unfoldable pub check_files : (String → String → Bool) → Scope → List String → PlanResult
unfolding first_excluded
check_files test scope [] = valid
check_files test scope (f ∷ files) =
    file_result f (first_excluded test f scope.excluded_paths)
      (any (λ p. matches_glob test p f) scope.paths) (check_files test scope files)

unfoldable pub validate_plan_against_grant :
    (String → String → Bool) → PlanCheck → AccessGrant → PlanResult
unfolding check_files
validate_plan_against_grant test patch grant =
    if ltb grant.scope.max_files_per_patch (length patch.files)
    then too_many_files
    else if ltb grant.scope.max_lines_per_patch patch.lines_changed
    then too_many_lines
    else check_files test grant.scope patch.files

abbrev pub read_tools : List String
read_tools =
    "url_scan" ∷ "file_read" ∷ "type_browse" ∷ "output_query" ∷ "type_resolve" ∷ "charter_read" ∷ []

abbrev pub write_tools : List String
write_tools = "file_write" ∷ "shell_exec" ∷ []

abbrev pub deploy_tools : List String
deploy_tools = "deploy" ∷ []

-- `READ_PHASES.has(phase)`
abbrev pub is_read_phase : Phase → Bool
is_read_phase sense = true
is_read_phase interpret = true
is_read_phase judge = true
is_read_phase plan = true
is_read_phase _ = false

-- `WRITE_PHASES.has(phase)`
abbrev pub is_write_phase : Phase → Bool
is_write_phase create = true
is_write_phase _ = false

pub record ExposeQuery : Type 0 where
  pub phase : Phase
  pub agent_allowed : List String
  pub grant : AccessGrant

unfoldable pub undeclared_scope_tools : List String → List String
undeclared_scope_tools allowed =
    keep
      (λ t.
        not (includes t read_tools)
        && not (includes t write_tools)
        && not (includes t deploy_tools))
      allowed

-- Whether a round of the loop of `exposedTools` reaches its `push`.
unfoldable pub is_exposed : ExposeQuery → String → Bool
is_exposed q tool =
    if includes tool deploy_tools
    then q.grant.permissions.deploy
    else if includes tool write_tools
    then is_write_phase q.phase && q.grant.permissions.write
    else if includes tool read_tools
    then q.grant.permissions.read && (is_read_phase q.phase || is_write_phase q.phase)
    else false

unfoldable pub exposed_tools : ExposeQuery → List String
unfolding is_exposed
exposed_tools q = keep (is_exposed q) q.agent_allowed
