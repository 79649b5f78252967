-- ===== src/Modules/Backfill.antt =====
-- The reach of `backfill_active_module_permissions_for_owners`
-- (app/modules_registry/service.py).
use zylo_office_backend.Prelude.{
  ℕ, ◌+◌, ◌≡◌, refl, sym, subst, inl, inr, true, Option, none, some, List, [], ◌∷◌, ◌==◌, string_eq,
  nat_eq, In, in-select, any_iff, length, ok, >>=-eq-ok, ok-pair, and-true, beq_true, beq_sound,
  arith,
}
use mathlib.Core.List.{append-nil}
use zylo_office_backend.Rbac.Tables.{Db, Permission, Role}
use zylo_office_backend.Rbac.Roles.{get_role_permission_codes}
use zylo_office_backend.Rbac.Roles.Contents.{role_code_iff}
use zylo_office_backend.Modules.{
  OrganizationModule, owner_role, is_linked, missing_permissions, add_links, grant_missing,
  grant_all_missing, backfill_active_module_permissions_for_owners,
}
use zylo_office_backend.Modules.Links.{
  Extends, Extends-refl, Extends-trans, IsServed, missing-linked, linked-missing, IsServed-append,
  added-linked, add_links-Extends,
}

granted :
    (db : Db) (m : OrganizationModule) (owner : Option Role) (d : Db) (n : ℕ)
    → owner_role db m.organization_id ≡ ok owner
    → grant_missing db m.organization_id m.module_code ≡ ok (d, n)
    → Extends db d n × IsServed d m
unfolding grant_missing owner_role
granted db m none d n found h =
    let (e, k) = ok-pair db d 0 n (rw found at h) in
    subst (λ (x : Db). Extends db x n × IsServed x m) e
      (subst (λ (j : ℕ). Extends db db j) k (Extends-refl db), inl found)
granted db m (some r) d n found h =
    let missing = missing_permissions db r.id m.module_code in
    let (e, k) = ok-pair (add_links db r.id missing) d (length missing) n (rw found at h) in
    subst (λ (x : Db). Extends db x n × IsServed x m) e
      (
        subst (λ (j : ℕ). Extends db (add_links db r.id missing) j) k
            (add_links-Extends db m.organization_id r missing found),
        inr (
          r,
          found,
          linked-missing (add_links db r.id missing) r.id m.module_code
              (added-linked db r.id m.module_code),
        ),
      )

grant_missing_lem :
    (db : Db) (m : OrganizationModule) (d : Db) (n : ℕ)
    → grant_missing db m.organization_id m.module_code ≡ ok (d, n)
    → Extends db d n × IsServed d m
unfolding grant_missing
grant_missing_lem db m d n h =
    let (owner, found, done) = >>=-eq-ok (owner_role db m.organization_id) _ h in
    granted db m owner d n found h

grant_all_missing_lem :
    (db : Db) (ms : List OrganizationModule) (d : Db) (n : ℕ)
    → grant_all_missing db ms ≡ ok (d, n)
    → Extends db d n × ((m : OrganizationModule) → In m ms → IsServed d m)
unfolding grant_all_missing
grant_all_missing_lem db [] d n h =
    let (e, k) = ok-pair db d 0 n h in
    (
      subst (λ (x : Db). Extends db x n) e (subst (λ (j : ℕ). Extends db db j) k (Extends-refl db)),
      λ m f. absurd f,
    )
grant_all_missing_lem db (m ∷ ms) d n h =
    let (first, g1, h1) = >>=-eq-ok (grant_missing db m.organization_id m.module_code) _ h in
    let (rest, g2, done) = >>=-eq-ok (grant_all_missing first.0 ms) _ h1 in
    let (e, k) = ok-pair rest.0 d (first.1 + rest.1) n done in
    let (ext1, served1) = grant_missing_lem db m first.0 first.1 g1 in
    let (ext2, served2) = grant_all_missing_lem first.0 ms rest.0 rest.1 g2 in
    (
      subst (λ (x : Db). Extends db x n) e
          (subst (λ (j : ℕ). Extends db rest.0 j) k
            (Extends-trans db first.0 rest.0 first.1 rest.1 ext1 ext2)),
      λ x x_in.
          subst (λ (y : Db). IsServed y x) e
            (elim x_in [
              | inl is_m ↦
                  subst (λ (y : OrganizationModule). IsServed rest.0 y) (sym is_m)
                    (subst (λ (y : Db). IsServed y m) (sym ext2.same)
                      (IsServed-append first.0 ext2.links m served1))
              | inr later ↦ served2 x later
            ]),
    )

-- Where all is served, one more run changes nothing.
served_again :
    (d : Db) (m : OrganizationModule)
    → IsServed d m
    → grant_missing d m.organization_id m.module_code ≡ ok (d, 0)
unfolding grant_missing
served_again d m served = elim served [
  | inl nobody ↦ rw nobody refl
  | inr (r, is_owner, none_left) ↦ rw is_owner (rw none_left (rw append-nil refl))
]

all_served_again :
    (d : Db) (ms : List OrganizationModule)
    → ((m : OrganizationModule) → In m ms → IsServed d m)
    → grant_all_missing d ms ≡ ok (d, 0)
unfolding grant_all_missing
all_served_again d [] served = refl
all_served_again d (m ∷ ms) served =
    rw (served_again d m (served m (inl refl)), all_served_again d ms (λ x k. served x (inr k)))
      refl

linked_code :
    (d : Db) (r : ℕ) (p : Permission)
    → In p d.permissions
    → is_linked d r p.id ≡ true
    → In p.code (get_role_permission_codes d r)
unfolding is_linked
linked_code d r p row h =
    let (rp, rp_row, test) = (any_iff _ d.role_permissions).0 h in
    let (of_role, to_p) = and-true (rp.role_id == r) _ test in
    (role_code_iff d r p.code).1 (record {
      link = rp;
      linked = rp_row;
      link_of_role = beq_sound rp.role_id r of_role;
      permission = p;
      permission_exists = row;
      permission_linked = beq_sound rp.permission_id p.id to_p;
      has_this_code = refl;
    })

served_code :
    (d : Db) (m : OrganizationModule) (r : Role) (p : Permission)
    → IsServed d m
    → owner_role d m.organization_id ≡ ok (some r)
    → In p d.permissions
    → p.module_code ≡ m.module_code
    → In p.code (get_role_permission_codes d r.id)
served_code d m r p served is_owner row of_module = elim served [
  | inl nobody ↦ cc
  | inr (x, x_owner, none_left) ↦
      let same : x ≡ r = ground (arith, x_owner, is_owner) in
      linked_code d r.id p row (
        missing-linked d r.id m.module_code p
          (subst (λ (y : Role). missing_permissions d y.id m.module_code ≡ []) same none_left) row
          of_module)
]

-- After the backfill the owner of an organisation holds every permission of a module that is
-- active there. Only links of owners' roles are added, as many as the result says; none is
-- removed, and one more run adds none.
pub backfill_active_module_permissions_for_owners_lem :
    (db : Db) (rows : List OrganizationModule) (d : Db) (n : ℕ)
    → backfill_active_module_permissions_for_owners db rows ≡ ok (d, n)
    → ((m : OrganizationModule) (r : Role) (p : Permission)
        → In m rows
        → m.status ≡ "active"
        → owner_role d m.organization_id ≡ ok (some r)
        → In p d.permissions
        → p.module_code ≡ m.module_code
        → In p.code (get_role_permission_codes d r.id))
      × Extends db d n
      × (backfill_active_module_permissions_for_owners d rows ≡ ok (d, 0))
unfolding backfill_active_module_permissions_for_owners
backfill_active_module_permissions_for_owners_lem db rows d n h =
    let (ext, served) = grant_all_missing_lem db _ d n h in
    (
      (λ m r p row active is_owner p_row of_module.
          served_code d m r p
            (served m ((in-select _ m rows).1 (row, beq_true m.status "active" active))) is_owner
            p_row of_module),
      ext,
      all_served_again d _ served,
    )
