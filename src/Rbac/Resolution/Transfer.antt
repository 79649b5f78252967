-- ===== src/Rbac/Resolution/Transfer.antt =====
-- How an authorisation moves from one state of the tables to another.
use zylo_office_backend.Prelude.{ℕ, String, ◌≡◌, ◌⊎◌, inl, inr, true, Option, In}
use zylo_office_backend.Rbac.Tables.{Db, Permission, Role, RolePermission, UserPermissionGrant}
use zylo_office_backend.Rbac.Resolution.{user_has_permission}
use zylo_office_backend.Rbac.Resolution.Refinement.{
  RoleAllows, GrantApplies, user_has_permission_iff,
}

-- Every row of a table of `a` is one of `b`.
abbrev pub SubLinks : Db → Db → Type 0
SubLinks a b = (x : RolePermission) → In x a.role_permissions → In x b.role_permissions

abbrev pub SubPermissions : Db → Db → Type 0
SubPermissions a b = (x : Permission) → In x a.permissions → In x b.permissions

abbrev pub SubRoles : Db → Db → Type 0
SubRoles a b = (x : Role) → In x a.roles → In x b.roles

abbrev pub SubGrants : Db → Db → Type 0
SubGrants a b = (x : UserPermissionGrant) → In x a.grants → In x b.grants

module _ (a b : Db) (u org : ℕ) (code : String) (rt : Option String) (ri : Option ℕ) where
  pub GrantApplies-mono :
      (now : ℕ) (effect : String)
      → SubGrants a b
      → SubPermissions a b
      → GrantApplies a u org code rt ri now effect
      → GrantApplies b u org code rt ri now effect
  GrantApplies-mono now effect grants permissions h = record {
    grant = h.grant;
    granted = grants h.grant h.granted;
    to_user = h.to_user;
    in_organization = h.in_organization;
    permission = h.permission;
    permission_exists = permissions h.permission h.permission_exists;
    permission_granted = h.permission_granted;
    has_this_code = h.has_this_code;
    unrevoked = h.unrevoked;
    started = h.started;
    unexpired = h.unexpired;
    has_effect = h.has_effect;
    covers = h.covers;
  }

  -- The attribution that allows the request is given its place in `b`.
  pub RoleAllows-mono :
      (h : RoleAllows a u org code rt ri)
      → In h.attribution b.user_roles
      → SubRoles a b
      → SubLinks a b
      → SubPermissions a b
      → RoleAllows b u org code rt ri
  RoleAllows-mono h attributed roles links permissions = record {
    attribution = h.attribution;
    attributed = attributed;
    to_user = h.to_user;
    in_organization = h.in_organization;
    role = h.role;
    role_exists = roles h.role h.role_exists;
    role_attributed = h.role_attributed;
    role_of_organization = h.role_of_organization;
    link = h.link;
    linked = links h.link h.linked;
    link_of_role = h.link_of_role;
    permission = h.permission;
    permission_exists = permissions h.permission h.permission_exists;
    permission_linked = h.permission_linked;
    has_this_code = h.has_this_code;
    covers = h.covers;
  }

  -- What is allowed in `a` is allowed in `b` or for the reason `R`, where each way to be allowed
  -- is, and the refusals of `b` are refusals in `a`.
  pub allowed-transfer :
      (now : ℕ) (R : Type 0)
      → (RoleAllows a u org code rt ri → RoleAllows b u org code rt ri ⊎ R)
      → (GrantApplies a u org code rt ri now "allow"
          → GrantApplies b u org code rt ri now "allow" ⊎ R)
      → (GrantApplies b u org code rt ri now "deny" → GrantApplies a u org code rt ri now "deny")
      → user_has_permission a now u org code rt ri ≡ true
      → (user_has_permission b now u org code rt ri ≡ true) ⊎ R
  allowed-transfer now R role grant deny h =
      let (allow, no_deny) = (user_has_permission_iff a u org code rt ri now).0 h in
      let back : (RoleAllows b u org code rt ri ⊎ GrantApplies b u org code rt ri now "allow")
          → (user_has_permission b now u org code rt ri ≡ true) ⊎ R =
        λ w. inl ((user_has_permission_iff b u org code rt ri now).1 (w, λ d. no_deny (deny d))) in
      elim allow [
        | inl r ↦ elim (role r) [ inl w ↦ back (inl w) | inr x ↦ inr x ]
        | inr g ↦ elim (grant g) [ inl w ↦ back (inr w) | inr x ↦ inr x ]
      ]
