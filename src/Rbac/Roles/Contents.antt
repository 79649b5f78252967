-- ===== src/Rbac/Roles/Contents.antt =====
-- What a role holds after `create_role` and `update_role_permissions`.
use mathlib.Core.List.{append_assoc, append-nil}
use zylo_office_backend.Prelude.{
  ℕ, String, ◌≡◌, refl, ap, sym, subst, ◌∙◌, ◌↔◌, inl, inr, true, Option, some, List, [], ◌∷◌, ◌++◌,
  string_eq, nat_eq, option_eq, In, All, in-select, in-map, in-flat_map, arith, beq_true, beq_sound,
  ok, scalar_one_or_none, >>=-eq-ok, permission_not_found, scalar_one_or_none-in, guard-eq-ok,
  or_raise-eq-ok,
}
use zylo_office_backend.Rbac.Tables.{Db, Permission, RolePermission}
use zylo_office_backend.Rbac.Resolution.{user_has_permission, assert_no_privilege_escalation}
use zylo_office_backend.Rbac.Roles.{
  get_role_permission_codes, get_permission_or_404, insert_role_permission, add_role_permissions,
}

-- Ids are primary keys.
abbrev pub DistinctIds : Db → Type 0
DistinctIds db =
    (p q : Permission) → In p db.permissions → In q db.permissions → p.id ≡ q.id → p ≡ q

-- The role holds the code, said over the tables.
pub record HoldsCode (db : Db) (role_id : ℕ) (code : String) : Type 0 where
  pub link : RolePermission
  pub linked : In link db.role_permissions
  pub link_of_role : link.role_id ≡ role_id
  pub permission : Permission
  pub permission_exists : In permission db.permissions
  pub permission_linked : link.permission_id ≡ permission.id
  pub has_this_code : code ≡ permission.code

pub role_code_iff :
    (db : Db) (role_id : ℕ) (code : String)
    → In code (get_role_permission_codes db role_id) ↔ HoldsCode db role_id code
unfolding get_role_permission_codes
role_code_iff db role_id code = (
  (λ m.
      let (rp, rp_in, in_codes) = (in-flat_map _ code _).0 m in
      let (rp_row, rp_test) = (in-select _ rp db.role_permissions).0 rp_in in
      let (p, p_in, p_code) = (in-map _ code _).0 in_codes in
      let (p_row, p_test) = (in-select _ p db.permissions).0 p_in in
      record {
        link = rp;
        linked = rp_row;
        link_of_role = beq_sound rp.role_id role_id rp_test;
        permission = p;
        permission_exists = p_row;
        permission_linked = beq_sound rp.permission_id p.id p_test;
        has_this_code = p_code;
      }),
  (λ h. (in-flat_map _ code _).1 (
    h.link,
    (in-select _ h.link db.role_permissions).1 (h.linked, beq_true _ _ h.link_of_role),
    (in-map _ code _).1 (
      h.permission,
      (in-select _ h.permission db.permissions).1
          (h.permission_exists, beq_true _ _ h.permission_linked),
      h.has_this_code,
    ),
  )),
)

-- An actor who passes the check holds every code of the list at that scope.
pub assert_no_privilege_escalation_lem :
    (db : Db) (now organization_id actor : ℕ) (codes : List String) (rt : Option String)
    (ri : Option ℕ) {u : Unit {0}}
    → assert_no_privilege_escalation db now organization_id actor codes rt ri ≡ ok u
    → All (λ code. user_has_permission db now actor organization_id code rt ri ≡ true) codes
unfolding assert_no_privilege_escalation
assert_no_privilege_escalation_lem db now org actor [] rt ri h = tt
assert_no_privilege_escalation_lem db now org actor (code ∷ codes) rt ri h =
    let (a, e, rest) = >>=-eq-ok _ _ h in
    (guard-eq-ok _ _ e, assert_no_privilege_escalation_lem db now org actor codes rt ri rest)

-- The links that the loop over the codes has added.
pub record Added (db : Db) (role_id : ℕ) (codes : List String) (db' : Db) : Type 0 where
  pub links : List RolePermission
  pub appended : db' ≡ record db { role_permissions = db.role_permissions ++ links }
  pub of_role : (rp : RolePermission) → In rp links → rp.role_id ≡ role_id
  pub sound :
      (rp : RolePermission)
      → In rp links
      → (p : Permission) × In p db.permissions × (rp.permission_id ≡ p.id) × In p.code codes
  pub complete :
      (code : String)
      → In code codes
      → (rp : RolePermission) × In rp links
        × ((p : Permission) × In p db.permissions × (rp.permission_id ≡ p.id) × (code ≡ p.code))

pub get_permission_or_404_lem :
    (db : Db) (code : String) (p : Permission)
    → get_permission_or_404 db code ≡ ok p
    → In p db.permissions × (p.code ≡ code)
unfolding get_permission_or_404
get_permission_or_404_lem db code p h =
    let (found, e, k) = >>=-eq-ok (scalar_one_or_none _) _ h in
    let is_p : found ≡ some p = or_raise-eq-ok found permission_not_found k in
    let (row, test) =
      (in-select _ p db.permissions).0 (scalar_one_or_none-in _ p (e ∙ ap ok is_p)) in
    (row, beq_sound p.code code test)

abbrev link_added : Db → ℕ → ℕ → Db
link_added db role_id permission_id = record db {
  role_permissions =
      db.role_permissions ++ record { role_id = role_id; permission_id = permission_id } ∷ [];
}

insert_role_permission_lem :
    (db : Db) (role_id permission_id : ℕ) (db' : Db)
    → insert_role_permission db role_id permission_id ≡ ok db'
    → db' ≡ link_added db role_id permission_id
unfolding insert_role_permission
insert_role_permission_lem db role_id permission_id db' h = ground arith

-- One more link in front of those that the rest of the loop adds.
Added-cons :
    (db : Db) (role_id : ℕ) (p : Permission) (code : String) (codes : List String) (db' : Db)
    → In p db.permissions
    → p.code ≡ code
    → Added (link_added db role_id p.id) role_id codes db'
    → Added db role_id (code ∷ codes) db'
Added-cons db role_id p code codes db' p_row p_code rest =
    let x : RolePermission = record { role_id = role_id; permission_id = p.id } in
    record {
      links = x ∷ rest.links;
      appended =
          rest.appended
          ∙ ap (λ (rps : List RolePermission). record db { role_permissions = rps })
              (append_assoc db.role_permissions (x ∷ []) rest.links);
      of_role = λ rp m. elim m [
        | inl e ↦ ap (λ (r : RolePermission). r.role_id) e
        | inr k ↦ rest.of_role rp k
      ];
      sound = λ rp m. elim m [
        | inl e ↦ (p, p_row, ap (λ (r : RolePermission). r.permission_id) e, inl p_code)
        | inr k ↦ let (q, q_row, q_link, q_code) = rest.sound rp k in (q, q_row, q_link, inr q_code)
      ];
      complete = λ c m. elim m [
        | inl e ↦ (x, inl refl, (p, p_row, refl, e ∙ sym p_code))
        | inr k ↦ let (rp, rp_in, held) = rest.complete c k in (rp, inr rp_in, held)
      ];
    }

pub add_role_permissions_lem :
    (db : Db) (role_id : ℕ) (codes : List String) (db' : Db)
    → add_role_permissions db role_id codes ≡ ok db'
    → Added db role_id codes db'
unfolding add_role_permissions
add_role_permissions_lem db role_id [] db' h = record {
  links = [];
  appended = rw append-nil (ground arith);
  of_role = λ rp m. absurd m;
  sound = λ rp m. absurd m;
  complete = λ c m. absurd m;
}
add_role_permissions_lem db role_id (code ∷ codes) db' h =
    let (p, p_found, h1) = >>=-eq-ok (get_permission_or_404 db code) _ h in
    let (db1, inserted, h2) = >>=-eq-ok (insert_role_permission db role_id p.id) _ h1 in
    let (p_row, p_code) = get_permission_or_404_lem db code p p_found in
    Added-cons db role_id p code codes db' p_row p_code (
      subst (λ (d : Db). Added d role_id codes db')
        (insert_role_permission_lem db role_id p.id db1 inserted)
        (add_role_permissions_lem db1 role_id codes db' h2))
