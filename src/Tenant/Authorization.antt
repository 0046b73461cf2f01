-- ===== src/Tenant/Authorization.antt =====
-- What the checks of `TenantAccessController` let through.
use issue_to_pr_agent.Prelude.{
  String, ◌≡◌, refl, ◌↔◌, true, false, ◌⊎◌, ◌≢◌, [], ◌∷◌, format, Option, none, some, arith,
  has_text, ok, contains, Option-cases, inl, inr,
}
use issue_to_pr_agent.Domain.Tenant.{
  PlatformPermission, AuthenticatedPrincipal, active, suspended, permission_value,
}
use issue_to_pr_agent.Tenant.Store.{TenantRow, MembershipRow, TenantStore, get_tenant_membership}
use issue_to_pr_agent.Tenant.Access.{
  role_allows, resolve_tenant_for_repo, ensure_tenant_active, ensure_member, ensure_membership,
  require_actor, require_repo_permission, team_differs,
}
use issue_to_pr_agent.Tenant.Principal.{
  service_has_permission, no_items, clean_scopes, require_repo_permission_for_principal,
}

-- An actor is named, the tenant is active, and the actor is a member whose team fits the given one
-- and whose role has the permission.
pub record MayUse (store : TenantStore) (row : TenantRow) (actor : Option String)
    (permission : PlatformPermission) (team : Option String) : Type 0 where
  pub name : String
  pub member : MembershipRow
  pub named : actor ≡ some name
  pub not_blank : has_text name ≡ true
  pub is_open : row.tenant.status ≡ active
  pub found : get_tenant_membership row.tenant.tenant_id name store ≡ some member
  pub team_fits : team_differs team member.membership.team ≡ false
  pub allowed : role_allows member.membership.role permission ≡ true

require_repo_sound :
    (store : TenantStore) (repo : String) (actor : Option String) (permission : PlatformPermission)
    (team : Option String) (row : TenantRow)
    → require_repo_permission store repo actor permission team ≡ ok (some row)
    → (resolve_tenant_for_repo repo store ≡ some row) × MayUse store row actor permission team
unfolding require_repo_permission ensure_tenant_active ensure_member ensure_membership require_actor
require_repo_sound store repo none permission team row h = ground arith
require_repo_sound store repo (some name) permission team row h =
    elim (Option-cases (resolve_tenant_for_repo repo store)) [
      | inl no_tenant ↦ ground arith
      | inr (t, resolved) ↦
          elim (Option-cases (get_tenant_membership t.tenant.tenant_id name store)) [
            | inl stranger ↦ ground arith
            | inr (m, found) ↦ (
              ground arith,
              record {
                name = name;
                member = m;
                named = refl;
                not_blank = ground arith;
                is_open = ground arith;
                found = ground arith;
                team_fits = ground arith;
                allowed = ground arith;
              },
            )
          ]
    ]

require_repo_complete :
    (store : TenantStore) (repo : String) (actor : Option String) (permission : PlatformPermission)
    (team : Option String) (row : TenantRow)
    → resolve_tenant_for_repo repo store ≡ some row
    → MayUse store row actor permission team
    → require_repo_permission store repo actor permission team ≡ ok (some row)
unfolding require_repo_permission ensure_tenant_active ensure_member ensure_membership require_actor
require_repo_complete store repo actor permission team row resolved may =
    ground (arith, may.named, may.not_blank, may.is_open, may.found, may.team_fits, may.allowed)

-- On a repository of a tenant the check passes, with that tenant, exactly when the tenant is the
-- first that claims the repository, it is active, an actor that is not blank is named, and the actor
-- is a member whose team fits the given one, if one is given, and whose role has the permission.
pub require_repo_permission_iff :
    (store : TenantStore) (repo : String) (actor : Option String) (permission : PlatformPermission)
    (team : Option String) (row : TenantRow)
    → (require_repo_permission store repo actor permission team ≡ ok (some row))
      ↔ ((resolve_tenant_for_repo repo store ≡ some row) × MayUse store row actor permission team)
require_repo_permission_iff store repo actor permission team row = (
  require_repo_sound store repo actor permission team row,
  λ h. require_repo_complete store repo actor permission team row h.0 h.1,
)

-- A service principal's scopes grant a permission on a tenant only if the principal is bound to no
-- tenant or to this one, and some scope is `*`, the permission, or the permission on this tenant.
pub service_has_permission_scoped :
    (p : AuthenticatedPrincipal) (permission : PlatformPermission) (tenant : String)
    → service_has_permission p permission tenant ≡ ok true
    → ((no_items p.tenant_ids ≡ true) ⊎ (contains p.tenant_ids tenant ≡ true))
      × ((contains (clean_scopes p) "*" ≡ true)
          ⊎ (contains (clean_scopes p) (permission_value permission) ≡ true)
          ⊎ (contains
                (clean_scopes p)
                (format ("tenant:" ∷ tenant ∷ ":" ∷ permission_value permission ∷ []))
              ≡ true))
unfolding service_has_permission
service_has_permission_scoped p permission tenant h = ground arith

-- If the first tenant that claims a repository is suspended, then nobody passes the checks on the
-- repository, neither an actor nor a principal, whatever the role or the scopes: no check returns,
-- with a tenant or without one.
pub suspended_refuses :
    (store : TenantStore) (repo : String) (actor : Option String) (p : AuthenticatedPrincipal)
    (permission : PlatformPermission) (team : Option String) (row : TenantRow)
    (allowed : Option TenantRow)
    → resolve_tenant_for_repo repo store ≡ some row
    → row.tenant.status ≡ suspended
    → (require_repo_permission store repo actor permission team ≢ ok allowed)
      × (require_repo_permission_for_principal store repo p permission team ≢ ok allowed)
unfolding require_repo_permission require_repo_permission_for_principal require_actor
    ensure_tenant_active
suspended_refuses store repo none p permission team row allowed resolved closed =
    (ground arith, ground arith)
suspended_refuses store repo (some name) p permission team row allowed resolved closed =
    (ground arith, ground arith)
