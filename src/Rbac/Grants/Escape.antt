-- ===== src/Rbac/Grants/Escape.antt =====
-- `create_grant` on the whole organisation by a user who is refused one resource
-- (app/rbac/service.py).
use zylo_office_backend.Prelude.{
  ℕ, String, ◌≡◌, refl, ap, sym, ◌∙◌, inl, inr, true, false, none, some, [], ◌∷◌, ◌++◌, string_eq,
  in-append, arith, ok, eq_iff,
}
use zylo_office_backend.Rbac.Tables.{Db, Permission, UserPermissionGrant}
use zylo_office_backend.Rbac.Resolution.{user_has_permission}
use zylo_office_backend.Rbac.Resolution.Refinement.{GrantApplies, user_has_permission_iff}
use zylo_office_backend.Rbac.Roles.{add_audit_event, get_permission_or_404}
use zylo_office_backend.Rbac.Roles.Contents.{get_permission_or_404_lem}
use zylo_office_backend.Rbac.Grants.{create_grant, check_delegation}

module _ (db : Db) (now organization_id granter target : ℕ) (code : String) (fresh : ℕ)
    (p : Permission) where
  abbrev org_grant : UserPermissionGrant
  org_grant = record {
    id = fresh;
    organization_id = organization_id;
    user_id = target;
    permission_id = p.id;
    effect = "allow";
    resource_type = none;
    resource_id = none;
    origin = "direct";
    delegated_from_grant_id = none;
    granted_by_user_id = granter;
    valid_from = now;
    valid_until = none;
    revoked_at = none;
    audit_note = none;
  }

  abbrev after_org_grant : Db
  after_org_grant =
      add_audit_event (record db { grants = db.grants ++ org_grant ∷ [] }) organization_id granter
        "rbac.grant.create" "UserPermissionGrant" (some fresh) none none none

  deny_before :
      (t : String) (r : ℕ)
      → GrantApplies after_org_grant target organization_id code (some t) (some r) now "deny"
      → GrantApplies db target organization_id code (some t) (some r) now "deny"
  unfolding add_audit_event
  deny_before t r h = elim ((in-append h.grant db.grants (org_grant ∷ [])).0 h.granted) [
    | inl old ↦ record {
      grant = h.grant;
      granted = old;
      to_user = h.to_user;
      in_organization = h.in_organization;
      permission = h.permission;
      permission_exists = h.permission_exists;
      permission_granted = h.permission_granted;
      has_this_code = h.has_this_code;
      unrevoked = h.unrevoked;
      started = h.started;
      unexpired = h.unexpired;
      has_effect = h.has_effect;
      covers = h.covers;
    }
    | inr new ↦ elim new [
      | inl q ↦ cc (
          (eq_iff "allow" "deny").1
            (sym (ap (λ (x : UserPermissionGrant). x.effect) q) ∙ h.has_effect))
      | inr f ↦ absurd f
    ]
  ]

-- A user who holds a permission on the whole organisation, and is refused it on one resource, can
-- grant it on the whole organisation to a user who is not refused it there; that user then has it
-- on that resource.
pub org_grant_escapes_refusal :
    (db : Db) (now organization_id granter target : ℕ) (code : String) (fresh : ℕ) (p : Permission)
    (t : String) (r : ℕ)
    → get_permission_or_404 db code ≡ ok p
    → user_has_permission db now granter organization_id code none none ≡ true
    → user_has_permission db now granter organization_id code (some t) (some r) ≡ false
    → ¬ GrantApplies db target organization_id code (some t) (some r) now "deny"
    → (g : UserPermissionGrant) × (db' : Db) × (create_grant db now organization_id granter target
          code "allow" none none none none none fresh
        ≡ ok (g, db'))
      × (user_has_permission db' now target organization_id code (some t) (some r) ≡ true)
unfolding create_grant check_delegation add_audit_event
org_grant_escapes_refusal db now org granter target code fresh p t r found wide refused free =
    let (p_row, p_code) = get_permission_or_404_lem db code p found in
    (
      org_grant db now org granter target code fresh p,
      after_org_grant db now org granter target code fresh p,
      rw (found, wide),
      (user_has_permission_iff (after_org_grant db now org granter target code fresh p) target org
            code (some t) (some r) now).1
          (
            inr (record {
              grant = org_grant db now org granter target code fresh p;
              granted = (in-append _ db.grants _).1 (inr (inl refl));
              to_user = refl;
              in_organization = refl;
              permission = p;
              permission_exists = p_row;
              permission_granted = refl;
              has_this_code = p_code;
              unrevoked = refl;
              started = omega arith;
              unexpired = λ u e. cc;
              has_effect = refl;
              covers = inl refl;
            }),
            (λ d. free (deny_before db now org granter target code fresh p t r d)),
          ),
    )
