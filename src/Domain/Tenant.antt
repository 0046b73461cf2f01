-- ===== src/Domain/Tenant.antt =====
-- The tenants' part of `domain/entities.py`.
use issue_to_pr_agent.Prelude.{ℕ, String, Option, List, Bool, true, false}
use issue_to_pr_agent.Domain.Queue.{FilePath}

pub data TenantStatus : Type 0 where
  active suspended : TenantStatus

pub data TenantRole : Type 0 where
  admin operator reviewer observer : TenantRole

pub data PlatformPermission : Type 0 where
  manage_tenant manage_policy manage_membership operate_queue view_queue : PlatformPermission
  request_approval review_approval deliver view_dashboard view_notifications : PlatformPermission

pub data AuthSubjectType : Type 0 where
  user service : AuthSubjectType

pub record TenantRecord : Type 0 where
  pub tenant_id : String
  pub created_at : ℕ
  pub updated_at : ℕ
  pub name : String
  pub status : TenantStatus
  pub summary : String
  pub config_path : FilePath

pub record TenantMembershipRecord : Type 0 where
  pub tenant_id : String
  pub actor : String
  pub role : TenantRole
  pub team : String
  pub created_at : ℕ
  pub updated_at : ℕ

pub record AuthenticatedPrincipal : Type 0 where
  pub subject : String
  pub actor : String
  pub subject_type : AuthSubjectType
  pub issuer : Option String
  pub team : Option String
  pub groups : List String
  pub scopes : List String
  pub tenant_ids : List String
  pub issued_at : Option ℕ
  pub expires_at : Option ℕ

-- `PlatformPermission.value`
abbrev pub permission_value : PlatformPermission → String
permission_value manage_tenant = "manage_tenant"
permission_value manage_policy = "manage_policy"
permission_value manage_membership = "manage_membership"
permission_value operate_queue = "operate_queue"
permission_value view_queue = "view_queue"
permission_value request_approval = "request_approval"
permission_value review_approval = "review_approval"
permission_value deliver = "deliver"
permission_value view_dashboard = "view_dashboard"
permission_value view_notifications = "view_notifications"

-- `TenantRole.value`
abbrev pub role_value : TenantRole → String
role_value admin = "admin"
role_value operator = "operator"
role_value reviewer = "reviewer"
role_value observer = "observer"

abbrev pub is_active : TenantStatus → Bool
is_active active = true
is_active suspended = false
