-- ===== src/Rbac/Grants/Creation.antt =====
-- The effect of `create_grant` on what users may do (app/rbac/service.py).
use zylo_office_backend.Prelude.{
  ℕ, String, ◌≡◌, refl, ap, sym, subst, ◌∙◌, ◌⊎◌, inl, inr, true, Option, none, some, [], ◌∷◌, ◌++◌,
  ◌==◌, string_eq, In, in-append, beq_true, or-true, not-true, ok, >>=-eq-ok, guard->>-eq-ok,
  ok-pair,
}
use zylo_office_backend.Rbac.Tables.{Db, Permission, UserPermissionGrant}
use zylo_office_backend.Rbac.Resolution.{user_has_permission}
use zylo_office_backend.Rbac.Resolution.Refinement.{Covers, GrantApplies}
use zylo_office_backend.Rbac.Resolution.Transfer.{
  GrantApplies-mono, RoleAllows-mono, allowed-transfer,
}
use zylo_office_backend.Rbac.Roles.{add_audit_event, get_permission_or_404}
use zylo_office_backend.Rbac.Roles.Contents.{DistinctIds, get_permission_or_404_lem}
use zylo_office_backend.Rbac.Grants.{create_grant, check_delegation}

module _ (db : Db) (g : UserPermissionGrant) (p : Permission) (distinct : DistinctIds db)
    (p_row : In p db.permissions) (p_id : p.id ≡ g.permission_id) (o a : ℕ) (s t : String)
    (e : Option ℕ) (st : Option String) (si : Option ℕ) where
  abbrev granted_db : Db
  granted_db = add_audit_event (record db { grants = db.grants ++ g ∷ [] }) o a s t e none st si

  -- What the new grant can add, to whom and where.
  abbrev FromGrant : ℕ → ℕ → String → Option String → Option ℕ → Type 0
  FromGrant u org code rt ri =
      (u ≡ g.user_id)
      × (org ≡ g.organization_id)
      × (code ≡ p.code)
      × (g.effect ≡ "allow")
      × Covers g.resource_type g.resource_id rt ri

  module _ (now u org : ℕ) (code : String) (rt : Option String) (ri : Option ℕ) where
    GrantApplies-granted :
        GrantApplies granted_db u org code rt ri now "allow"
        → GrantApplies db u org code rt ri now "allow" ⊎ FromGrant u org code rt ri
    unfolding add_audit_event
    GrantApplies-granted h = elim ((in-append h.grant db.grants (g ∷ [])).0 h.granted) [
      | inl old ↦ inl (record {
        grant = h.grant;
        granted = old;
        to_user = h.to_user;
        in_organization = h.in_organization;
        permission = h.permission;
        permission_exists = h.permission_exists;
        permission_granted = h.permission_granted;
        has_this_code = h.has_this_code;
        unrevoked = h.unrevoked;
        started = h.started;
        unexpired = h.unexpired;
        has_effect = h.has_effect;
        covers = h.covers;
      })
      | inr new ↦ elim new [
        | inl q ↦ inr (
          sym h.to_user ∙ ap (λ (x : UserPermissionGrant). x.user_id) q,
          sym h.in_organization ∙ ap (λ (x : UserPermissionGrant). x.organization_id) q,
          sym h.has_this_code
              ∙ ap (λ (x : Permission). x.code)
                  (distinct h.permission p h.permission_exists p_row (
                    h.permission_granted
                    ∙ ap (λ (x : UserPermissionGrant). x.permission_id) q
                    ∙ sym p_id)),
          sym (ap (λ (x : UserPermissionGrant). x.effect) q) ∙ h.has_effect,
          subst (λ (x : UserPermissionGrant). Covers x.resource_type x.resource_id rt ri) q
              h.covers,
        )
        | inr no_more ↦ absurd no_more
      ]
    ]

    granted_bounded :
        user_has_permission granted_db now u org code rt ri ≡ true
        → (user_has_permission db now u org code rt ri ≡ true) ⊎ FromGrant u org code rt ri
    unfolding add_audit_event
    granted_bounded =
        allowed-transfer granted_db db u org code rt ri now (FromGrant u org code rt ri)
          (λ r. inl (
            RoleAllows-mono granted_db db u org code rt ri r r.attributed (λ x m. m) (λ x m. m)
              (λ x m. m)))
          GrantApplies-granted
          (λ d.
            GrantApplies-mono db granted_db u org code rt ri now "deny"
              (λ x m. (in-append x db.grants (g ∷ [])).1 (inl m)) (λ x m. m) d)

-- After a grant or a refusal is created, whoever has a permission had it before, or is the target
-- of an `allow` in this organisation, on this code, at a scope that the grant covers, and the
-- granter had that permission at the scope of the grant.
pub create_grant_bounded :
    (db : Db) (now organization_id granter target : ℕ) (code effect : String) (rt : Option String)
    (ri valid_until : Option ℕ) (note : Option String) (origin : Option ℕ) (fresh : ℕ)
    (g : UserPermissionGrant) (db' : Db)
    → DistinctIds db
    → create_grant db now organization_id granter target code effect rt ri valid_until note origin
        fresh
      ≡ ok (g, db')
    → (now' u org : ℕ) (code' : String) (rt' : Option String) (ri' : Option ℕ)
    → user_has_permission db' now' u org code' rt' ri' ≡ true
    → (user_has_permission db now' u org code' rt' ri' ≡ true)
      ⊎ ((u ≡ target)
          × (org ≡ organization_id)
          × (code' ≡ code)
          × (effect ≡ "allow")
          × Covers rt ri rt' ri'
          × (user_has_permission db now granter organization_id code rt ri ≡ true))
unfolding create_grant
create_grant_bounded db now org_id granter target code effect rt ri valid_until note origin fresh g
      db' distinct h now' u org code' rt' ri' allowed =
    let (effect_ok, h1) = guard->>-eq-ok _ _ _ h in
    let (p, found, h2) = >>=-eq-ok (get_permission_or_404 db code) _ h1 in
    let (o, delegated, h3) = >>=-eq-ok (check_delegation db granter origin) _ h2 in
    let (held, done) = guard->>-eq-ok _ _ _ h3 in
    let (p_row, p_code) = get_permission_or_404_lem db code p found in
    let new_row : UserPermissionGrant = record {
      id = fresh;
      organization_id = org_id;
      user_id = target;
      permission_id = p.id;
      effect = effect;
      resource_type = rt;
      resource_id = ri;
      origin = o;
      delegated_from_grant_id = origin;
      granted_by_user_id = granter;
      valid_from = now;
      valid_until = valid_until;
      revoked_at = none;
      audit_note = note;
    } in
    let e : Option ℕ = some fresh in
    let (g_eq, db_eq) = ok-pair new_row g _ db' done in
    elim (granted_bounded db new_row p distinct p_row refl org_id granter "rbac.grant.create"
      "UserPermissionGrant" e rt ri now' u org code' rt' ri'
      (subst (λ (d : Db). user_has_permission d now' u org code' rt' ri' ≡ true) (sym db_eq)
        allowed)) [
          | inl before ↦ inl before
          | inr (a, b, c, d, cov) ↦ inr (
            a,
            b,
            c ∙ p_code,
            d,
            cov,
            elim (or-true _ _ held) [
              | inl not_allow ↦
                  cc (not-true (effect == "allow") not_allow, beq_true effect "allow" d)
              | inr k ↦ k
            ],
          )
        ]
