-- ===== src/Access/Tests.antt =====
-- A grant, and the theorems on it.
use coltrane.Base.{String, ◌≡◌, Bool, true, false, ◌&&◌, [], ◌∷◌, ◌↔◌, ◌==◌}
use coltrane.Access.{AccessGrant, PlanCheck, PlanResult, repo, validate_plan_against_grant}
use coltrane.Access.Plans.{IsGranted, validate_plan_exact}
use coltrane.Access.Exposure.{full_permissions}

abbrev grant : AccessGrant
grant = record {
  id = "g1";
  company_id = "eir";
  resource_type = repo;
  resource_uri = "git:coltrane";
  permissions = full_permissions;
  scope = record {
    branches = "main" ∷ [];
    paths = "src/**" ∷ [];
    excluded_paths = "src/secret.ts" ∷ [];
    max_files_per_patch = 2;
    max_lines_per_patch = 100;
  };
  expires_at = "2026-01-01";
  requires_pr = true;
  requires_human_review = true;
  auto_revert_on_failure = false;
}

abbrev patch : PlanCheck
patch = record { files = "src/bus.ts" ∷ []; lines_changed = 12 }

-- Stands for the tests of a regular expression: the paths that it matches are listed.
abbrev same_source : String → String → Bool
same_source source path = source == "^src/.*$" && path == "src/bus.ts"

validate_plan_exact_example :
    (validate_plan_against_grant same_source patch grant ≡ PlanResult.valid)
    ↔ IsGranted same_source patch grant
validate_plan_exact_example = validate_plan_exact same_source patch grant
