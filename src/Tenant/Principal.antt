-- ===== src/Tenant/Principal.antt =====
-- The checks of authenticated principals of `application/services/tenant_access.py`.
use issue_to_pr_agent.Prelude.{
  String, Bool, true, false, not, ◌&&◌, ◌||◌, Option, none, some, List, [], ◌∷◌, ◌++◌, map,
  if◌then◌else◌, filter, contains, has_text, strip, is_empty, format, ok, Result, ◌>>=◌, ◌>>◌,
  raise, raise_if, policy_error, value_error,
}
use issue_to_pr_agent.Domain.Tenant.{
  TenantMembershipRecord, PlatformPermission, AuthenticatedPrincipal, AuthSubjectType, service,
  user, permission_value,
}
use issue_to_pr_agent.Tenant.Store.{TenantRow, TenantStore, get_tenant, get_tenant_membership}
use issue_to_pr_agent.Tenant.Access.{
  role_allows, resolve_tenant_for_repo, ensure_tenant_active, team_differs, wrong_team,
  no_permission, with_membership,
}

-- Scopes of a service principal.
abbrev pub clean_scopes : AuthenticatedPrincipal → List String
clean_scopes p = map strip (filter has_text p.scopes)

abbrev pub no_items : List String → Bool
no_items [] = true
no_items (_ ∷ _) = false

unfoldable pub service_has_permission :
    AuthenticatedPrincipal → PlatformPermission → String → Result Bool
service_has_permission p permission tenant =
    let scopes = clean_scopes p in
    let value = permission_value permission in
    let scoped = format ("tenant:" ∷ tenant ∷ ":" ∷ value ∷ []) in
    if no_items scopes
    then ok false
    else (if not (no_items p.tenant_ids) && not (contains p.tenant_ids tenant)
        then raise policy_error (
            format (
              "Service principal '" ∷ p.subject ∷ "' is not scoped to tenant '" ∷ tenant ∷ "'."
              ∷ []))
        else ok (contains scopes "*" || (contains scopes value || contains scopes scoped)))

abbrev own_team : Option String → List String
own_team none = []
own_team (some t) = if is_empty t then [] else t ∷ []

-- `{item for item in principal.groups if item}`, and the principal's own team.
unfoldable pub principal_teams : AuthenticatedPrincipal → List String
principal_teams p = own_team p.team ++ filter (λ g. not (is_empty g)) p.groups

unfoldable pub ensure_principal_member :
    AuthenticatedPrincipal
    → PlatformPermission
    → Option String
    → TenantMembershipRecord
    → Result (Unit {0})
ensure_principal_member p permission team m = do
  raise_if (team_differs team m.team) policy_error (wrong_team p.actor m.team team)
  raise_if (not (no_items (principal_teams p)) && not (contains (principal_teams p) m.team))
      policy_error
      (format (
        "Authenticated principal does not include required team '" ∷ m.team ∷ "' for actor '"
        ∷ p.actor ∷ "'." ∷ []))
  raise_if (not (role_allows m.role permission)) policy_error
      (no_permission p.actor m.role permission)

-- `principal.subject_type == SERVICE and self._service_has_permission(…)`
unfoldable pub service_passes :
    AuthSubjectType → AuthenticatedPrincipal → PlatformPermission → String → Result Bool
service_passes service p permission tenant = service_has_permission p permission tenant
service_passes user p permission tenant = ok false

member_unless :
    Bool
    → TenantStore
    → String
    → AuthenticatedPrincipal
    → PlatformPermission
    → Option String
    → Result (Unit {0})
unfolding with_membership ensure_principal_member
member_unless true store tenant p permission team = ok tt
member_unless false store tenant p permission team =
    with_membership (get_tenant_membership tenant p.actor store) tenant p.actor
      (ensure_principal_member p permission team)

unfoldable pub ensure_principal_has_permission :
    TenantStore
    → String
    → AuthenticatedPrincipal
    → PlatformPermission
    → Option String
    → Result (Unit {0})
unfolding member_unless
ensure_principal_has_permission store tenant p permission team = do
  passed ← service_passes p.subject_type p permission tenant
  member_unless passed store tenant p permission team

authorize_principal :
    TenantStore
    → TenantRow
    → AuthenticatedPrincipal
    → PlatformPermission
    → Option String
    → Result TenantRow
authorize_principal store row p permission team = do
  ensure_tenant_active row.tenant
  ensure_principal_has_permission store row.tenant.tenant_id p permission team
  ok row

principal_on_repo :
    TenantStore
    → Option TenantRow
    → AuthenticatedPrincipal
    → PlatformPermission
    → Option String
    → Result (Option TenantRow)
unfolding authorize_principal
principal_on_repo store none p permission team = ok none
principal_on_repo store (some row) p permission team = do
  allowed ← authorize_principal store row p permission team
  ok (some allowed)

unfoldable pub require_repo_permission_for_principal :
    TenantStore
    → String
    → AuthenticatedPrincipal
    → PlatformPermission
    → Option String
    → Result (Option TenantRow)
unfolding principal_on_repo
require_repo_permission_for_principal store repo p permission team =
    principal_on_repo store (resolve_tenant_for_repo repo store) p permission team

principal_on_tenant :
    TenantStore
    → String
    → Option TenantRow
    → AuthenticatedPrincipal
    → PlatformPermission
    → Option String
    → Result TenantRow
unfolding authorize_principal
principal_on_tenant store tenant none p permission team =
    raise value_error (format ("Tenant not found: " ∷ tenant ∷ []))
principal_on_tenant store tenant (some row) p permission team =
    authorize_principal store row p permission team

unfoldable pub require_tenant_permission_for_principal :
    TenantStore
    → String
    → AuthenticatedPrincipal
    → PlatformPermission
    → Option String
    → Result TenantRow
unfolding principal_on_tenant
require_tenant_permission_for_principal store tenant p permission team =
    principal_on_tenant store tenant (get_tenant tenant store) p permission team
