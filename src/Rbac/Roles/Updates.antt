-- ===== src/Rbac/Roles/Updates.antt =====
-- `create_role` and `update_role_permissions` as a whole (app/rbac/service.py).
use zylo_office_backend.Prelude.{
  ℕ, String, ◌≡◌, ◌≢◌, refl, ap, sym, subst, ◌∙◌, ◌↔◌, true, Option, none, some, List, [], ◌∷◌,
  ◌++◌, ◌==◌, string_eq, nat_eq, option_eq, In, All, in-select, beq_true, and_intro, ok,
  scalar_one_or_none, >>=-eq-ok, ok-pair, iff_sym, is_none-eq, scalar_one_or_none-none,
  guard->>-eq-ok, iff_trans, not-true,
}
use zylo_office_backend.Rbac.Roles.Contents.{
  DistinctIds, HoldsCode, role_code_iff, assert_no_privilege_escalation_lem,
  add_role_permissions_lem,
}
use zylo_office_backend.Rbac.Roles.Effects.{
  Added-contents, Added-others, delete-others, delete-empty, permissions-delete, get_role_lem,
  HoldsCode-audited, HoldsCode-roles,
}
use zylo_office_backend.Rbac.Tables.{Db, Permission, Role, RolePermission}
use zylo_office_backend.Rbac.Resolution.{user_has_permission, assert_no_privilege_escalation}
use zylo_office_backend.Rbac.Roles.{
  get_role, get_role_permission_codes, add_role_permissions, create_role, delete_role_permissions,
  update_role_permissions, add_audit_event,
}

-- What the loop over the codes leaves, from the tables `start` in which the role held nothing.
module _ (db start : Db) (role_id : ℕ) (codes : List String) (d : Db) (o a : ℕ) (s t : String)
    (e : Option ℕ) (ch : Option (List String)) (distinct : DistinctIds start)
    (empty : (rp : RolePermission) → In rp start.role_permissions → rp.role_id ≢ role_id)
    (others : (r : ℕ) (code : String) → r ≢ role_id → HoldsCode start r code ↔ HoldsCode db r code)
    (links : add_role_permissions start role_id codes ≡ ok d) where
  abbrev audited : Db
  audited = add_audit_event d o a s t e ch none none

  codes_of_role :
      (code : String) → In code (get_role_permission_codes audited role_id) ↔ In code codes
  codes_of_role code = iff_trans (role_code_iff audited role_id code) (
      iff_trans (HoldsCode-audited d o a s t e ch none none role_id code) (
        Added-contents start role_id codes d (add_role_permissions_lem start role_id codes d links)
          distinct empty code))

  codes_of_others :
      (r : ℕ) (code : String)
      → r ≢ role_id
      → In code (get_role_permission_codes audited r) ↔ In code (get_role_permission_codes db r)
  codes_of_others r code other = iff_trans (role_code_iff audited r code) (
      iff_trans (HoldsCode-audited d o a s t e ch none none r code) (
        iff_trans
          (Added-others start role_id codes d (add_role_permissions_lem start role_id codes d links)
            r other code)
          (iff_trans (others r code other) (iff_sym (role_code_iff db r code)))))

-- An update that succeeds is of a role of this organisation that is not the owner's; the editor
-- held every code of the list; the role then holds exactly the listed codes, and every other role
-- what it held.
pub update_role_permissions_lem :
    (db : Db) (now organization_id editor role_id : ℕ) (codes : List String) (role : Role)
    (db' : Db)
    → DistinctIds db
    → update_role_permissions db now organization_id editor role_id codes ≡ ok (role, db')
    → (role.id ≡ role_id)
      × (role.organization_id ≡ organization_id)
      × (role.code ≢ "owner")
      × All (λ code. user_has_permission db now editor organization_id code none none ≡ true) codes
      × ((code : String) → In code (get_role_permission_codes db' role_id) ↔ In code codes)
      × ((r : ℕ) (code : String)
          → r ≢ role_id
          → In code (get_role_permission_codes db' r) ↔ In code (get_role_permission_codes db r))
unfolding update_role_permissions
update_role_permissions_lem db now org editor role_id codes role db' distinct h =
    let (r, r_found, h1) = >>=-eq-ok (get_role db org role_id) _ h in
    let (not_owner, h2) = guard->>-eq-ok _ _ _ h1 in
    let (v, allowed, h3) =
      >>=-eq-ok (assert_no_privilege_escalation db now org editor codes none none) _ h2 in
    let (d, links, done) =
      >>=-eq-ok (add_role_permissions (delete_role_permissions db role_id) r.id codes) _ h3 in
    let (r_role, d_db') = ok-pair r role _ db' done in
    let (row, r_id, r_org) = get_role_lem db org role_id r r_found in
    let start = delete_role_permissions db role_id in
    let links' : add_role_permissions start role_id codes ≡ ok d = rw r_id at links in
    let e : Option ℕ = some r.id in
    (
      ap (λ (x : Role). x.id) (sym r_role) ∙ r_id,
      ap (λ (x : Role). x.organization_id) (sym r_role) ∙ r_org,
      (λ q. cc (
        not-true (r.code == "owner") not_owner,
        beq_true r.code "owner" (ap (λ (x : Role). x.code) r_role ∙ q),
      )),
      assert_no_privilege_escalation_lem db now org editor codes none none allowed,
      (λ code.
          subst (λ (x : Db). In code (get_role_permission_codes x role_id) ↔ In code codes) d_db'
            (codes_of_role db start role_id codes d org editor "rbac.role.update" "Role" e
              (some codes)
              (subst
                (λ (ps : List Permission).
                  (p q : Permission) → In p ps → In q ps → p.id ≡ q.id → p ≡ q)
                (sym (permissions-delete db role_id)) distinct)
              (delete-empty db role_id) (λ r' c o. delete-others db role_id r' c o) links' code)),
      (λ r' code o.
          subst
            (λ (x : Db).
              In code (get_role_permission_codes x r') ↔ In code (get_role_permission_codes db r'))
            d_db'
            (codes_of_others db start role_id codes d org editor "rbac.role.update" "Role" e
              (some codes)
              (subst
                (λ (ps : List Permission).
                  (p q : Permission) → In p ps → In q ps → p.id ≡ q.id → p ≡ q)
                (sym (permissions-delete db role_id)) distinct)
              (delete-empty db role_id) (λ r' c o. delete-others db role_id r' c o) links' r' code
              o)),
    )

roles_audited :
    (d : Db) (o a : ℕ) (s t : String) (e : Option ℕ) (ch : Option (List String))
    → (add_audit_event d o a s t e ch none none).roles ≡ d.roles
unfolding add_audit_event
roles_audited d o a s t e ch = refl

-- A creation that succeeds appends one role to the table, of this organisation and with a code that
-- none of its roles had; the creator held every code of the list; the new role holds exactly the
-- listed codes, and every other role what it held.
pub create_role_lem :
    (db : Db) (now organization_id creator : ℕ) (code name : String) (codes : List String)
    (fresh : ℕ) (role : Role) (db' : Db)
    → DistinctIds db
    → ((rp : RolePermission) → In rp db.role_permissions → rp.role_id ≢ fresh)
    → create_role db now organization_id creator code name codes fresh ≡ ok (role, db')
    → (role ≡ record { id = fresh; organization_id = organization_id; code = code; name = name })
      × (db'.roles ≡ db.roles ++ role ∷ [])
      × ((r : Role) → In r db.roles → r.organization_id ≡ organization_id → r.code ≢ code)
      × All (λ c. user_has_permission db now creator organization_id c none none ≡ true) codes
      × ((c : String) → In c (get_role_permission_codes db' fresh) ↔ In c codes)
      × ((r : ℕ) (c : String)
          → r ≢ fresh
          → In c (get_role_permission_codes db' r) ↔ In c (get_role_permission_codes db r))
unfolding create_role
create_role_lem db now org creator code name codes fresh role db' distinct unused h =
    let (existing, e_found, h1) = >>=-eq-ok (scalar_one_or_none _) _ h in
    let (is_new, h2) = guard->>-eq-ok _ _ _ h1 in
    let (v, allowed, h3) =
      >>=-eq-ok (assert_no_privilege_escalation db now org creator codes none none) _ h2 in
    let r : Role = record { id = fresh; organization_id = org; code = code; name = name } in
    let start = record db { roles = db.roles ++ r ∷ [] } in
    let (d, links, done) = >>=-eq-ok (add_role_permissions start fresh codes) _ h3 in
    let (r_role, d_db') = ok-pair r role _ db' done in
    let no_rows = scalar_one_or_none-none _ (e_found ∙ ap ok (is_none-eq existing is_new)) in
    let e : Option ℕ = some fresh in
    let same =
      λ (r' : ℕ) (c : String) (o : r' ≢ fresh). HoldsCode-roles db (db.roles ++ r ∷ []) r' c in
    (
      sym r_role,
      ap (λ (x : Db). x.roles) (sym d_db')
          ∙ roles_audited d org creator "rbac.role.create" "Role" e none
          ∙ ap (λ (x : Db). x.roles) (add_role_permissions_lem start fresh codes d links).appended
          ∙ ap (λ (x : Role). db.roles ++ x ∷ []) r_role,
      (λ x row q k.
          subst (λ (l : List Role). In x l) no_rows
            ((in-select _ x db.roles).1 (row, and_intro _ _ (beq_true _ _ q) (beq_true _ _ k)))),
      assert_no_privilege_escalation_lem db now org creator codes none none allowed,
      (λ c.
          subst (λ (x : Db). In c (get_role_permission_codes x fresh) ↔ In c codes) d_db'
            (codes_of_role db start fresh codes d org creator "rbac.role.create" "Role" e none
              distinct unused same links c)),
      (λ r' c o.
          subst
            (λ (x : Db).
              In c (get_role_permission_codes x r') ↔ In c (get_role_permission_codes db r'))
            d_db'
            (codes_of_others db start fresh codes d org creator "rbac.role.create" "Role" e none
              distinct unused same links r' c o)),
    )
