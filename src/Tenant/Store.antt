-- ===== src/Tenant/Store.antt =====
-- The tables `tenants` and `tenant_memberships` of `infrastructure/persistence/run_repository.py`.
use issue_to_pr_agent.Prelude.{
  ℕ, String, Bool, not, ◌&&◌, ◌==◌, Option, List, [], ◌∷◌, ◌++◌, map, leb, if◌then◌else◌, filter,
  count, find, contains, take, is_empty,
}
use issue_to_pr_agent.Domain.Json.{Dict}
use issue_to_pr_agent.Domain.Tenant.{TenantRecord, TenantMembershipRecord}

pub record TenantRow : Type 0 where
  pub tenant : TenantRecord
  pub payload : Dict

pub record MembershipRow : Type 0 where
  pub membership : TenantMembershipRecord
  pub payload : Dict

pub record TenantStore : Type 0 where
  pub tenants : List TenantRow
  pub memberships : List MembershipRow

abbrev pub is_tenant : String → TenantRow → Bool
is_tenant id row = row.tenant.tenant_id == id

abbrev pub is_member : String → String → MembershipRow → Bool
is_member tenant actor row = row.membership.tenant_id == tenant && row.membership.actor == actor

-- `INSERT OR REPLACE`, as all the `save_` methods.
unfoldable pub save_tenant : TenantRecord → Dict → TenantStore → TenantStore
save_tenant tenant payload store = record store {
  tenants =
      filter (λ r. not (is_tenant tenant.tenant_id r)) store.tenants
      ++ record { tenant = tenant; payload = payload } ∷ [];
}

-- ORDER BY updated_at DESC
insert_recent : TenantRow → List TenantRow → List TenantRow
insert_recent r [] = r ∷ []
insert_recent r (x ∷ xs) =
    if leb x.tenant.updated_at r.tenant.updated_at then r ∷ x ∷ xs else x ∷ insert_recent r xs

order_recent : List TenantRow → List TenantRow
unfolding insert_recent
order_recent [] = []
order_recent (r ∷ rs) = insert_recent r (order_recent rs)

unfoldable pub list_tenants : ℕ → TenantStore → List TenantRecord
unfolding order_recent
list_tenants limit store = map (λ r. r.tenant) (take limit (order_recent store.tenants))

unfoldable pub get_tenant : String → TenantStore → Option TenantRow
get_tenant id store = find (is_tenant id) store.tenants

unfoldable pub save_tenant_membership : TenantMembershipRecord → Dict → TenantStore → TenantStore
save_tenant_membership membership payload store = record store {
  memberships =
      filter (λ r. not (is_member membership.tenant_id membership.actor r)) store.memberships
      ++ record { membership = membership; payload = payload } ∷ [];
}

-- Without its ORDER BY actor: the caller builds a dictionary by actor, the primary key with the
-- tenant, so the order does not show.
unfoldable pub list_tenant_memberships : String → TenantStore → List TenantMembershipRecord
list_tenant_memberships tenant store =
    map (λ r. r.membership) (filter (λ r. r.membership.tenant_id == tenant) store.memberships)

unfoldable pub get_tenant_membership : String → String → TenantStore → Option MembershipRow
get_tenant_membership tenant actor store = find (is_member tenant actor) store.memberships

-- Empty names are taken off the list first. With no name left the SQL has no second clause, which is
-- the same: nobody is kept.
abbrev pub is_removed : String → List String → MembershipRow → Bool
is_removed tenant actors r =
    r.membership.tenant_id == tenant
    && not (contains (filter (λ a. not (is_empty a)) actors) r.membership.actor)

-- The store after the DELETE, and its row count.
unfoldable pub delete_tenant_memberships_except :
    String → List String → TenantStore → TenantStore × ℕ
delete_tenant_memberships_except tenant actors store = (
  record store { memberships = filter (λ r. not (is_removed tenant actors r)) store.memberships },
  count (is_removed tenant actors) store.memberships,
)
