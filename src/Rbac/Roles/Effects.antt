-- ===== src/Rbac/Roles/Effects.antt =====
-- What the steps of `create_role` and `update_role_permissions` leave in each role.
use zylo_office_backend.Prelude.{
  ℕ, String, ◌≡◌, ◌≢◌, refl, ap, sym, subst, ◌∙◌, ◌↔◌, inl, inr, Option, List, ◌++◌, ◌==◌,
  string_eq, nat_eq, option_eq, In, find-in, find-some, in-select, in-append, arith, beq_true,
  beq_sound, ok, guard, or_raise, >>=-eq-ok, guard-eq-ok, or_raise-eq-ok, not-true, ne_test,
  role_not_found,
}
use zylo_office_backend.Rbac.Roles.Contents.{DistinctIds, HoldsCode, Added}
use zylo_office_backend.Rbac.Tables.{Db, Permission, Role, RolePermission}
use zylo_office_backend.Rbac.Roles.{get_role, delete_role_permissions, add_audit_event}

-- A role keeps a code where its links and the permissions are kept.
HoldsCode-mono :
    (a b : Db) (r : ℕ) (code : String)
    → ((rp : RolePermission) → In rp a.role_permissions → rp.role_id ≡ r → In rp b.role_permissions)
    → ((p : Permission) → In p a.permissions → In p b.permissions)
    → HoldsCode a r code
    → HoldsCode b r code
HoldsCode-mono a b r code links permissions h = record {
  link = h.link;
  linked = links h.link h.linked h.link_of_role;
  link_of_role = h.link_of_role;
  permission = h.permission;
  permission_exists = permissions h.permission h.permission_exists;
  permission_linked = h.permission_linked;
  has_this_code = h.has_this_code;
}

-- The loop gives the role the listed codes and no other, if it held none before.
module _ (db : Db) (role_id : ℕ) (codes : List String) (db' : Db)
    (added : Added db role_id codes db') where
  pub Added-contents :
      DistinctIds db
      → ((rp : RolePermission) → In rp db.role_permissions → rp.role_id ≢ role_id)
      → (code : String) → HoldsCode db' role_id code ↔ In code codes
  Added-contents distinct empty code =
      subst (λ (d : Db). HoldsCode d role_id code ↔ In code codes) (sym added.appended)
        (
          (λ h. elim ((in-append h.link db.role_permissions added.links).0 h.linked) [
            | inl old ↦ absurd (empty h.link old h.link_of_role)
            | inr new ↦
                let (q, q_row, q_link, q_code) = added.sound h.link new in
                let same : h.permission ≡ q =
                  distinct h.permission q h.permission_exists q_row
                    (sym h.permission_linked ∙ q_link) in
                subst (λ c. In c codes)
                  (sym (h.has_this_code ∙ ap (λ (p : Permission). p.code) same)) q_code
          ]),
          (λ m.
              let (rp, rp_in, (p, p_row, p_link, p_code)) = added.complete code m in
              record {
                link = rp;
                linked = (in-append rp db.role_permissions added.links).1 (inr rp_in);
                link_of_role = added.of_role rp rp_in;
                permission = p;
                permission_exists = p_row;
                permission_linked = p_link;
                has_this_code = p_code;
              }),
        )

  pub Added-others :
      (r : ℕ) → r ≢ role_id → (code : String) → HoldsCode db' r code ↔ HoldsCode db r code
  Added-others r other code =
      subst (λ (d : Db). HoldsCode d r code ↔ HoldsCode db r code) (sym added.appended)
        (
          HoldsCode-mono (record db { role_permissions = db.role_permissions ++ added.links }) db r
              code
              (λ rp m of_role. elim ((in-append rp db.role_permissions added.links).0 m) [
                | inl old ↦ old
                | inr new ↦ absurd (other (sym of_role ∙ added.of_role rp new))
              ])
              (λ p m. m),
          HoldsCode-mono db (record db { role_permissions = db.role_permissions ++ added.links }) r
              code (λ rp m of_role. (in-append rp db.role_permissions added.links).1 (inl m))
              (λ p m. m),
        )

-- Deleting the links of a role leaves those of the others.
pub delete-others :
    (db : Db) (role_id r : ℕ) (code : String)
    → r ≢ role_id
    → HoldsCode (delete_role_permissions db role_id) r code ↔ HoldsCode db r code
unfolding delete_role_permissions
delete-others db role_id r code other = (
  HoldsCode-mono (delete_role_permissions db role_id) db r code
      (λ rp m of_role. ((in-select _ rp db.role_permissions).0 m).0) (λ p m. m),
  HoldsCode-mono db (delete_role_permissions db role_id) r code
      (λ rp m of_role.
        (in-select _ rp db.role_permissions).1
          (m, ne_test rp.role_id role_id (λ e. other (sym of_role ∙ e))))
      (λ p m. m),
)

pub delete-empty :
    (db : Db) (role_id : ℕ) (rp : RolePermission)
    → In rp (delete_role_permissions db role_id).role_permissions
    → rp.role_id ≢ role_id
unfolding delete_role_permissions
delete-empty db role_id rp m e =
    let test = ((in-select _ rp db.role_permissions).0 m).1 in
    cc (not-true (rp.role_id == role_id) test, beq_true rp.role_id role_id e)

pub permissions-delete :
    (db : Db) (role_id : ℕ) → (delete_role_permissions db role_id).permissions ≡ db.permissions
unfolding delete_role_permissions
permissions-delete db role_id = refl

pub get_role_lem :
    (db : Db) (organization_id role_id : ℕ) (role : Role)
    → get_role db organization_id role_id ≡ ok role
    → In role db.roles × (role.id ≡ role_id) × (role.organization_id ≡ organization_id)
unfolding get_role
get_role_lem db org role_id role h =
    let (r, found, h1) = >>=-eq-ok (or_raise _ role_not_found) _ h in
    let (u, org_ok, done) = >>=-eq-ok (guard _ role_not_found) _ h1 in
    let same : r ≡ role = ground arith in
    let test = find-some _ db.roles r (or_raise-eq-ok _ role_not_found found) in
    subst (λ (x : Role). In x db.roles × (x.id ≡ role_id) × (x.organization_id ≡ org)) same
      (
        find-in _ db.roles (or_raise-eq-ok _ role_not_found found),
        beq_sound r.id role_id test,
        beq_sound r.organization_id org (guard-eq-ok _ role_not_found org_ok),
      )

-- The same links and permissions hold the same codes, whatever the audit trail.
pub HoldsCode-audited :
    (db : Db) (o a : ℕ) (s t : String) (e : Option ℕ) (ch : Option (List String))
    (st : Option String) (si : Option ℕ) (r : ℕ) (code : String)
    → HoldsCode (add_audit_event db o a s t e ch st si) r code ↔ HoldsCode db r code
unfolding add_audit_event
HoldsCode-audited db o a s t e ch st si r code = (
  HoldsCode-mono (add_audit_event db o a s t e ch st si) db r code (λ rp m _. m) (λ p m. m),
  HoldsCode-mono db (add_audit_event db o a s t e ch st si) r code (λ rp m _. m) (λ p m. m),
)

pub HoldsCode-roles :
    (db : Db) (rs : List Role) (r : ℕ) (code : String)
    → HoldsCode (record db { roles = rs }) r code ↔ HoldsCode db r code
HoldsCode-roles db rs r code = (
  HoldsCode-mono (record db { roles = rs }) db r code (λ rp m _. m) (λ p m. m),
  HoldsCode-mono db (record db { roles = rs }) r code (λ rp m _. m) (λ p m. m),
)
