-- ===== src/Tenant/Examples.antt =====
-- The theorems on authorization at concrete data.
use issue_to_pr_agent.Prelude.{
  ◌≡◌, ◌≢◌, ◌↔◌, ◌⊎◌, refl, true, none, some, [], ◌∷◌, ok, contains, format, has_text, strip,
  fnmatch,
}
use issue_to_pr_agent.Domain.Json.{empty, entry, str, Json, Items, get, string_items}
use issue_to_pr_agent.Domain.Tenant.{
  active, suspended, operator, operate_queue, service, AuthenticatedPrincipal,
}
use issue_to_pr_agent.Tenant.Store.{TenantRow, TenantStore, list_tenants, get_tenant}
use issue_to_pr_agent.Tenant.Access.{require_repo_permission, resolve_tenant_for_repo, repo_matches}
use issue_to_pr_agent.Tenant.Principal.{
  require_repo_permission_for_principal, service_has_permission, no_items, clean_scopes,
}
use issue_to_pr_agent.Tenant.Authorization.{
  MayUse, require_repo_permission_iff, service_has_permission_scoped, suspended_refuses,
}

abbrev acme : TenantRow
acme = record {
  tenant = record {
    tenant_id = "acme";
    created_at = 1;
    updated_at = 2;
    name = "Acme";
    status = active;
    summary = "";
    config_path = [];
  };
  payload = entry "repo_patterns" (Json.arr (Items.cons (str "acme/*") Items.nil)) empty;
}

abbrev closed_acme : TenantRow
closed_acme = record acme { tenant = record acme.tenant { status = suspended } }

abbrev acme_store : TenantStore
acme_store = record {
  tenants = acme ∷ [];
  memberships =
      record {
        membership = record {
          tenant_id = "acme";
          actor = "ana";
          role = operator;
          team = "web";
          created_at = 1;
          updated_at = 1;
        };
        payload = empty;
      }
      ∷ [];
}

abbrev closed_store : TenantStore
closed_store = record acme_store { tenants = closed_acme ∷ [] }

abbrev robot : AuthenticatedPrincipal
robot = record {
  subject = "robot";
  actor = "robot";
  subject_type = service;
  issuer = none;
  team = none;
  groups = [];
  scopes = "tenant:acme:operate_queue" ∷ [];
  tenant_ids = "acme" ∷ [];
  issued_at = none;
  expires_at = none;
}

require_repo_permission_iff_example :
    (require_repo_permission acme_store "acme/site" (some "ana") operate_queue (some "web")
      ≡ ok (some acme))
    ↔ ((resolve_tenant_for_repo "acme/site" acme_store ≡ some acme)
        × MayUse acme_store acme (some "ana") operate_queue (some "web"))
require_repo_permission_iff_example =
    require_repo_permission_iff acme_store "acme/site" (some "ana") operate_queue (some "web") acme

robot_has_permission : service_has_permission robot operate_queue "acme" ≡ ok true
unfolding service_has_permission has_text strip format
robot_has_permission = refl

service_has_permission_scoped_example :
    ((no_items robot.tenant_ids ≡ true) ⊎ (contains robot.tenant_ids "acme" ≡ true))
    × ((contains (clean_scopes robot) "*" ≡ true)
        ⊎ (contains (clean_scopes robot) "operate_queue" ≡ true)
        ⊎ (contains (clean_scopes robot) "tenant:acme:operate_queue" ≡ true))
unfolding format
service_has_permission_scoped_example =
    service_has_permission_scoped robot operate_queue "acme" robot_has_permission

closed_found : resolve_tenant_for_repo "acme/site" closed_store ≡ some closed_acme
unfolding resolve_tenant_for_repo list_tenants get_tenant repo_matches get string_items fnmatch
    strip
closed_found = refl

suspended_refuses_example :
    (require_repo_permission closed_store "acme/site" (some "ana") operate_queue (some "web")
      ≢ ok none)
    × (require_repo_permission_for_principal closed_store "acme/site" robot operate_queue
          (some "web")
        ≢ ok none)
suspended_refuses_example =
    suspended_refuses closed_store "acme/site" (some "ana") robot operate_queue (some "web")
      closed_acme none closed_found refl
