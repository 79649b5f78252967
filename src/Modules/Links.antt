-- ===== src/Modules/Links.antt =====
-- Links of roles to the permissions of a module: adding those that are missing.
use zylo_office_backend.Prelude.{
  ℕ, ◌+◌, String, ◌≡◌, refl, ap, subst, ◌∙◌, ◌⊎◌, inl, inr, Bool, Bool-cases, true, false, not,
  none, some, List, [], ◌∷◌, ◌++◌, map, ◌==◌, string_eq, nat_eq, In, in-append, in-map, in-select,
  select, any_iff, length, ok, scalar_one_or_none-in, and-true, and_intro, beq_true, beq_sound,
  arith,
}
use mathlib.Core.List.{append-nil, append_assoc}
use zylo_office_backend.Rbac.Tables.{Db, Permission, Role, RolePermission}
use zylo_office_backend.Modules.{
  OrganizationModule, owner_role, is_linked, missing_permissions, add_links,
}

-- The tables with more links.
abbrev pub with_links : Db → List RolePermission → Db
with_links db links = record db { role_permissions = db.role_permissions ++ links }

pub record Extends (db d : Db) (n : ℕ) : Type 0 where
  pub links : List RolePermission
  pub same : d ≡ with_links db links
  pub count : length links ≡ n
  -- Each link is of a role named owner.
  pub of_owner :
      (rp : RolePermission)
      → In rp links
      → (r : Role) × In r db.roles × (r.code ≡ "owner") × (rp.role_id ≡ r.id)

length-append-links : (xs ys : List RolePermission) → length (xs ++ ys) ≡ length xs + length ys
length-append-links [] ys = omega arith
length-append-links (x ∷ xs) ys = omega (arith, length-append-links xs ys)

length-map-links :
    (f : Permission → RolePermission) (ps : List Permission) → length (map f ps) ≡ length ps
length-map-links f [] = refl
length-map-links f (p ∷ ps) = omega (arith, length-map-links f ps)

pub Extends-refl : (db : Db) → Extends db db 0
Extends-refl db = record {
  links = [];
  same = rw append-nil refl;
  count = refl;
  of_owner = λ rp m. absurd m;
}

pub Extends-trans : (a b c : Db) (n k : ℕ) → Extends a b n → Extends b c k → Extends a c (n + k)
Extends-trans a b c n k f g = record {
  links = f.links ++ g.links;
  same =
      g.same
      ∙ ap (λ (d : Db). with_links d g.links) f.same
      ∙ ap (λ (rps : List RolePermission). record a { role_permissions = rps })
          (append_assoc a.role_permissions f.links g.links);
  count = omega (arith, length-append-links f.links g.links, f.count, g.count);
  of_owner = λ rp m. elim ((in-append rp f.links g.links).0 m) [
    | inl k ↦ f.of_owner rp k
    | inr k ↦
        let (r, row, is_owner, link) = g.of_owner rp k in
        (r, subst (λ (d : Db). In r d.roles) f.same row, is_owner, link)
  ];
}

-- The owner of the organisation, if there is one, lacks no permission of the module.
abbrev pub IsServed : Db → OrganizationModule → Type 0
IsServed d m =
    (owner_role d m.organization_id ≡ ok none)
    ⊎ ((r : Role) × (owner_role d m.organization_id ≡ ok (some r))
        × (missing_permissions d r.id m.module_code ≡ []))

select-none :
    (p : Permission → Bool) (xs : List Permission)
    → ((x : Permission) → In x xs → p x ≡ false)
    → select p xs ≡ []
unfolding select
select-none p [] h = refl
select-none p (x ∷ xs) h = rw (h x (inl refl)) (select-none p xs (λ y m. h y (inr m)))

is_linked-append :
    (db : Db) (links : List RolePermission) (r i : ℕ)
    → is_linked db r i ≡ true
    → is_linked (with_links db links) r i ≡ true
unfolding is_linked
is_linked-append db links r i h =
    let (rp, row, test) = (any_iff _ db.role_permissions).0 h in
    (any_iff _ (db.role_permissions ++ links)).1 (rp, (in-append rp _ _).1 (inl row), test)

-- A role that lacks nothing of a module has every one of its permissions.
pub missing-linked :
    (db : Db) (r : ℕ) (code : String) (p : Permission)
    → missing_permissions db r code ≡ []
    → In p db.permissions
    → p.module_code ≡ code
    → is_linked db r p.id ≡ true
unfolding missing_permissions
missing-linked db r code p none_left row of_module = elim (Bool-cases (is_linked db r p.id)) [
  | inl held ↦ held
  | inr lacking ↦ absurd (
      subst (In p) none_left (
        (in-select _ p db.permissions).1
          (row, and_intro _ _ (beq_true p.module_code code of_module) (ap not lacking))))
]

pub linked-missing :
    (db : Db) (r : ℕ) (code : String)
    → ((p : Permission) → In p db.permissions → p.module_code ≡ code → is_linked db r p.id ≡ true)
    → missing_permissions db r code ≡ []
unfolding missing_permissions
linked-missing db r code all = select-none _ db.permissions (λ p row.
    elim (Bool-cases (p.module_code == code)) [
      | inl mine ↦ ground (arith, all p row (beq_sound p.module_code code mine))
      | inr other ↦ ground (arith, other)
    ])

pub IsServed-append :
    (db : Db) (links : List RolePermission) (m : OrganizationModule)
    → IsServed db m
    → IsServed (with_links db links) m
unfolding owner_role
IsServed-append db links m served = elim served [
  | inl nobody ↦ inl nobody
  | inr (r, is_owner, none_left) ↦ inr (
    r,
    is_owner,
    linked-missing (with_links db links) r.id m.module_code (λ p row of_module.
        is_linked-append db links r.id p.id
          (missing-linked db r.id m.module_code p none_left row of_module)),
  )
]

pub added-linked :
    (db : Db) (r : ℕ) (code : String) (p : Permission)
    → In p db.permissions
    → p.module_code ≡ code
    → is_linked (add_links db r (missing_permissions db r code)) r p.id ≡ true
unfolding missing_permissions is_linked
added-linked db r code p row of_module = elim (Bool-cases (is_linked db r p.id)) [
  | inl old ↦ is_linked-append db _ r p.id old
  | inr lacking ↦ (any_iff _ _).1 (
    record { role_id = r; permission_id = p.id },
    (in-append _ db.role_permissions _).1 (
        inr (
          (in-map _ _ (missing_permissions db r code)).1 (
            p,
            (in-select _ p db.permissions).1
                (row, and_intro _ _ (beq_true p.module_code code of_module) (ap not lacking)),
            refl,
          ))),
    and_intro _ _ (beq_true r r refl) (beq_true p.id p.id refl),
  )
]

owner_role-in :
    (db : Db) (org : ℕ) (r : Role)
    → owner_role db org ≡ ok (some r)
    → In r db.roles × (r.code ≡ "owner")
unfolding owner_role
owner_role-in db org r found =
    let (row, test) = (in-select _ r db.roles).0 (scalar_one_or_none-in _ r found) in
    (row, beq_sound r.code "owner" (and-true (r.organization_id == org) _ test).1)

pub add_links-Extends :
    (db : Db) (org : ℕ) (r : Role) (ps : List Permission)
    → owner_role db org ≡ ok (some r)
    → Extends db (add_links db r.id ps) (length ps)
add_links-Extends db org r ps found = record {
  links = map (λ (p : Permission). record { role_id = r.id; permission_id = p.id }) ps;
  same = refl;
  count = length-map-links _ ps;
  of_owner = λ rp m.
      let (p, p_in, e) = (in-map _ rp ps).0 m in
      let (row, is_owner) = owner_role-in db org r found in
      (r, row, is_owner, ap (λ (x : RolePermission). x.role_id) e);
}
