-- ===== src/Tenant/Access.antt =====
-- `application/services/tenant_access.py`: which actor may do what on a repository or a tenant.
use issue_to_pr_agent.Prelude.{
  String, Bool, true, false, not, ◌&&◌, ◌||◌, ◌==◌, Option, none, some, List, [], ◌∷◌,
  if◌then◌else◌, has_text, strip, format, fnmatch, ok, Result, ◌>>=◌, ◌>>◌, raise, raise_if,
  policy_error, value_error,
}
use issue_to_pr_agent.Domain.Json.{Json, get, string_list}
use issue_to_pr_agent.Domain.Tenant.{
  TenantRecord, TenantMembershipRecord, TenantRole, admin, operator, reviewer, observer,
  PlatformPermission, operate_queue, view_queue, request_approval, review_approval, deliver,
  view_dashboard, view_notifications, permission_value, role_value, is_active,
}
use issue_to_pr_agent.Tenant.Store.{
  TenantRow, MembershipRow, TenantStore, list_tenants, get_tenant, get_tenant_membership,
}

-- `permission in _ROLE_PERMISSIONS[role]`
unfoldable pub role_allows : TenantRole → PlatformPermission → Bool
role_allows admin permission = true
role_allows operator operate_queue = true
role_allows operator view_queue = true
role_allows operator request_approval = true
role_allows operator deliver = true
role_allows operator view_dashboard = true
role_allows operator view_notifications = true
role_allows operator _ = false
role_allows reviewer view_queue = true
role_allows reviewer review_approval = true
role_allows reviewer view_dashboard = true
role_allows reviewer view_notifications = true
role_allows reviewer _ = false
role_allows observer view_queue = true
role_allows observer view_dashboard = true
role_allows observer view_notifications = true
role_allows observer _ = false

matches_any : String → List String → Bool
matches_any repo [] = false
matches_any repo (item ∷ rest) =
    let pattern = strip item in (fnmatch repo pattern || repo == pattern) || matches_any repo rest

-- The items that are no strings, or blank, are passed over; so is a value that is no list.
unfoldable pub repo_matches : String → Option Json → Bool
unfolding matches_any
repo_matches repo patterns = matches_any repo (string_list patterns)

tenant_fits : String → Option TenantRow → Bool
tenant_fits repo none = false
tenant_fits repo (some row) = repo_matches repo (get "repo_patterns" row.payload)

first_fit : String → TenantStore → List TenantRecord → Option TenantRow
unfolding tenant_fits
first_fit repo store [] = none
first_fit repo store (t ∷ ts) =
    let rest = first_fit repo store ts in
    let found = get_tenant t.tenant_id store in if tenant_fits repo found then found else rest

unfoldable pub resolve_tenant_for_repo : String → TenantStore → Option TenantRow
unfolding first_fit
resolve_tenant_for_repo repo store = first_fit repo store (list_tenants 500 store)

unfoldable pub ensure_tenant_active : TenantRecord → Result (Unit {0})
ensure_tenant_active tenant =
    raise_if (not (is_active tenant.status)) policy_error
      (format ("Tenant '" ∷ tenant.tenant_id ∷ "' is not active." ∷ []))

-- `team is not None and team.strip() and record.team != team`
abbrev pub team_differs : Option String → String → Bool
team_differs none own = false
team_differs (some team) own = has_text team && not (own == team)

abbrev pub given_team : Option String → String
given_team none = ""
given_team (some team) = team

-- `f"Actor '{actor}' is registered to team '{record.team}', not '{team}'."`
abbrev pub wrong_team : String → String → Option String → String
wrong_team actor own team = format (
    "Actor '"
    ∷ actor
    ∷ "' is registered to team '"
    ∷ own
    ∷ "', not '"
    ∷ given_team team
    ∷ "'."
    ∷ [])

abbrev pub no_permission : String → TenantRole → PlatformPermission → String
no_permission actor role permission = format (
    "Actor '"
    ∷ actor
    ∷ "' with role '"
    ∷ role_value role
    ∷ "' does not have '"
    ∷ permission_value permission
    ∷ "' permission."
    ∷ [])

-- The tests on a membership that was found.
unfoldable pub ensure_member :
    TenantMembershipRecord → String → PlatformPermission → Option String → Result (Unit {0})
ensure_member m actor permission team = do
  raise_if (team_differs team m.team) policy_error (wrong_team actor m.team team)
  raise_if (not (role_allows m.role permission)) policy_error
      (no_permission actor m.role permission)

unfoldable pub with_membership :
    Option MembershipRow
    → String
    → String
    → (TenantMembershipRecord → Result (Unit {0}))
    → Result (Unit {0})
with_membership none tenant actor checks =
    raise policy_error
      (format ("Actor '" ∷ actor ∷ "' is not a member of tenant '" ∷ tenant ∷ "'." ∷ []))
with_membership (some row) tenant actor checks = checks row.membership

unfoldable pub ensure_membership :
    TenantStore → String → String → PlatformPermission → Option String → Result (Unit {0})
unfolding with_membership
ensure_membership store tenant actor permission team =
    with_membership (get_tenant_membership tenant actor store) tenant actor
      (λ m. ensure_member m actor permission team)

-- `actor is None or not actor.strip()` raises.
unfoldable pub require_actor : Option String → String → Result String
require_actor none message = raise policy_error message
require_actor (some actor) message = if has_text actor then ok actor else raise policy_error message

authorize :
    TenantStore
    → TenantRow
    → Option String
    → PlatformPermission
    → Option String
    → String
    → Result TenantRow
authorize store row actor permission team message = do
  name ← require_actor actor message
  ensure_tenant_active row.tenant
  ensure_membership store row.tenant.tenant_id name permission team
  ok row

on_repo :
    TenantStore
    → String
    → Option TenantRow
    → Option String
    → PlatformPermission
    → Option String
    → Result (Option TenantRow)
unfolding authorize
on_repo store repo none actor permission team = ok none
on_repo store repo (some row) actor permission team = do
  allowed ←
      authorize store row actor permission team (
        format
          ("Actor is required because repository '" ∷ repo ∷ "' is assigned to a tenant." ∷ []))
  ok (some allowed)

unfoldable pub require_repo_permission :
    TenantStore
    → String
    → Option String
    → PlatformPermission
    → Option String
    → Result (Option TenantRow)
unfolding on_repo
require_repo_permission store repo actor permission team =
    on_repo store repo (resolve_tenant_for_repo repo store) actor permission team

on_tenant :
    TenantStore
    → String
    → Option TenantRow
    → Option String
    → PlatformPermission
    → Option String
    → Result TenantRow
unfolding authorize
on_tenant store tenant none actor permission team =
    raise value_error (format ("Tenant not found: " ∷ tenant ∷ []))
on_tenant store tenant (some row) actor permission team =
    authorize store row actor permission team
      (format ("Actor is required for tenant-scoped permission checks on " ∷ tenant ∷ "." ∷ []))

unfoldable pub require_tenant_permission :
    TenantStore → String → Option String → PlatformPermission → Option String → Result TenantRow
unfolding on_tenant
require_tenant_permission store tenant actor permission team =
    on_tenant store tenant (get_tenant tenant store) actor permission team
