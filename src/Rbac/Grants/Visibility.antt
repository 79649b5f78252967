-- ===== src/Rbac/Grants/Visibility.antt =====
-- `list_visible_resource_ids` and `list_effective_permission_codes` against the check of one
-- resource (app/rbac/service.py).
use zylo_office_backend.Prelude.{
  ℕ, String, ◌≡◌, refl, ap, sym, subst, ◌↔◌, ◌⊎◌, inl, inr, true, false, not, ◌&&◌, Bool,
  Bool-cases, Option, none, some, List, [], ◌∷◌, map, ◌==◌, string_eq, nat_eq, option_eq, In,
  in-append, in-map, in-select, any, any_iff, arith, beq_true, beq_sound, is_none, and-true,
  and_intro, or-true,
}
use zylo_office_backend.Rbac.Tables.{Db}
use zylo_office_backend.Rbac.Resolution.{
  scope_covers, user_has_permission, RoleGrant, role_permission_grants, applicable_grants,
  grant_covers, role_grant_covers,
}
use zylo_office_backend.Rbac.Resolution.Refinement.{GrantApplies-sound, GrantApplies}
use zylo_office_backend.Rbac.Grants.{
  some_ids, candidate_of_role, candidate_of_grant, candidate_ids, list_visible_resource_ids,
  list_effective_permission_codes, codes_of_allow_grants,
}

in-some_ids : (i : ℕ) (xs : List (Option ℕ)) → In (some i) xs → In i (some_ids xs)
unfolding some_ids
in-some_ids i [] m = absurd m
in-some_ids i (none ∷ xs) m = elim m [ inl e ↦ cc | inr k ↦ in-some_ids i xs k ]
in-some_ids i (some j ∷ xs) m = elim m [
  | inl e ↦ inl (ground arith)
  | inr k ↦ inr (in-some_ids i xs k)
]

-- What covers the whole organisation covers a resource.
org_covers :
    (gt : Option String) (gi : Option ℕ) (rt : Option String) (ri : Option ℕ)
    → scope_covers gt gi none none ≡ true
    → scope_covers gt gi rt ri ≡ true
unfolding scope_covers
org_covers none gi rt ri h = refl
org_covers (some t) gi rt ri h = cc

-- What covers a resource covers the organisation, or is that resource.
pub covers_cases :
    (gt : Option String) (gi : Option ℕ) (t : String) (r : ℕ)
    → scope_covers gt gi (some t) (some r) ≡ true
    → (scope_covers gt gi none none ≡ true) ⊎ ((gt ≡ some t) × (gi ≡ some r))
unfolding scope_covers
covers_cases none gi t r h = inl refl
covers_cases (some g) gi t r h =
    let (a, b) = and-true (some g == some t) (gi == some r) h in
    inr (beq_sound (some g) (some t) a, beq_sound gi (some r) b)

module _ (db : Db) (now u org : ℕ) (code t : String) (r : ℕ) where
  -- The two checks, on the whole organisation and on the resource.
  abbrev pub RoleAt : Option String → Option ℕ → Type 0
  RoleAt rt ri = any (role_grant_covers code rt ri) (role_permission_grants db u org) ≡ true

  abbrev pub GrantAt : String → Option String → Option ℕ → Type 0
  GrantAt effect rt ri =
      any (grant_covers effect rt ri) (applicable_grants db now u org code) ≡ true

  role_candidate :
      RoleAt (some t) (some r) → RoleAt none none ⊎ In r (candidate_ids db now u org code t)
  unfolding role_grant_covers candidate_ids candidate_of_role
  role_candidate h =
      let (g, m, e) = (any_iff _ _).0 h in
      let (g_code, cov) = and-true (g.code == code) _ e in
      elim (covers_cases g.resource_type g.resource_id t r cov) [
        | inl wide ↦ inl ((any_iff _ _).1 (g, m, and_intro _ _ g_code wide))
        | inr (g_type, g_id) ↦ inr (
            (in-append r _ _).1 (
              inl (
                in-some_ids r _ (
                  (in-map _ (some r) _).1 (
                    g,
                    (in-select _ g _).1 (
                      m,
                      and_intro (g.code == code)
                          (g.resource_type == some t && not (is_none g.resource_id)) g_code
                          (and_intro _ _ (beq_true g.resource_type (some t) g_type)
                            (ap (λ (o : Option ℕ). not (is_none o)) g_id)),
                    ),
                    sym g_id,
                  )))))
      ]

  grant_candidate :
      GrantAt "allow" (some t) (some r)
      → GrantAt "allow" none none ⊎ In r (candidate_ids db now u org code t)
  unfolding grant_covers candidate_ids candidate_of_grant
  grant_candidate h =
      let (g, m, e) = (any_iff _ _).0 h in
      let (g_effect, cov) = and-true (g.effect == "allow") _ e in
      elim (covers_cases g.resource_type g.resource_id t r cov) [
        | inl wide ↦ inl ((any_iff _ _).1 (g, m, and_intro _ _ g_effect wide))
        | inr (g_type, g_id) ↦ inr (
            (in-append r _ _).1 (
              inr (
                in-some_ids r _ (
                  (in-map _ (some r) _).1 (
                    g,
                    (in-select _ g _).1 (
                      m,
                      and_intro (g.effect == "allow")
                          (g.resource_type == some t && not (is_none g.resource_id)) g_effect
                          (and_intro _ _ (beq_true g.resource_type (some t) g_type)
                            (ap (λ (o : Option ℕ). not (is_none o)) g_id)),
                    ),
                    sym g_id,
                  )))))
      ]

  pub wide_refusal : GrantAt "deny" none none → GrantAt "deny" (some t) (some r)
  unfolding grant_covers
  wide_refusal h =
      let (g, m, e) = (any_iff _ _).0 h in
      let (g_effect, cov) = and-true (g.effect == "deny") _ e in
      (any_iff _ _).1 (
        g,
        m,
        and_intro _ _ g_effect (org_covers g.resource_type g.resource_id (some t) (some r) cov),
      )

  pub decision :
      (rt : Option String) (ri : Option ℕ)
      → user_has_permission db now u org code rt ri ≡ true
      → (¬ GrantAt "deny" rt ri) × (RoleAt rt ri ⊎ GrantAt "allow" rt ri)
  unfolding user_has_permission
  decision rt ri h =
      elim (Bool-cases (any (grant_covers "deny" rt ri) (applicable_grants db now u org code))) [
        | inl d ↦ cc (rw d at h)
        | inr d ↦ ((λ q. cc), or-true _ _ (rw d at h))
      ]

  pub decide_wide :
      (¬ GrantAt "deny" none none)
      → RoleAt none none ⊎ GrantAt "allow" none none
      → user_has_permission db now u org code none none ≡ true
  unfolding user_has_permission
  decide_wide no_deny allow =
      elim (Bool-cases
        (any (grant_covers "deny" none none) (applicable_grants db now u org code))) [
          | inl d ↦ absurd (no_deny d)
          | inr d ↦ rw d (elim allow [ inl a ↦ ground arith | inr a ↦ ground arith ])
        ]

  candidate_complete :
      user_has_permission db now u org code none none ≡ false
      → user_has_permission db now u org code (some t) (some r) ≡ true
      → In r (candidate_ids db now u org code t)
  candidate_complete narrow h =
      let (no_deny, allow) = decision (some t) (some r) h in
      let wide : (RoleAt none none ⊎ GrantAt "allow" none none)
          → In r (candidate_ids db now u org code t) =
        λ a. cc (narrow, decide_wide (λ d. no_deny (wide_refusal d)) a) in
      elim allow [
        | inl a ↦ elim (role_candidate a) [ inl w ↦ wide (inl w) | inr m ↦ m ]
        | inr a ↦ elim (grant_candidate a) [ inl w ↦ wide (inr w) | inr m ↦ m ]
      ]

-- A restricted list shows a resource exactly if a check of that resource would allow it: none that
-- is visible is missed by the collection of candidates, and none that is refused is kept.
pub list_visible_resource_ids_iff :
    (db : Db) (now user_id organization_id : ℕ) (code resource_type : String) (visible : List ℕ)
    → list_visible_resource_ids db now user_id organization_id code resource_type ≡ (false, visible)
    → (rid : ℕ)
    → In rid visible ↔ (
        user_has_permission db now user_id organization_id code (some resource_type) (some rid)
        ≡ true)
unfolding list_visible_resource_ids
list_visible_resource_ids_iff db now u org code t visible h rid =
    elim (Bool-cases (user_has_permission db now u org code none none)) [
      | inl wide ↦ cc (ap (λ (x : Bool × List ℕ). x.0) (rw wide at h))
      | inr narrow ↦
          subst
            (λ (l : List ℕ).
              In rid l ↔ (user_has_permission db now u org code (some t) (some rid) ≡ true))
            (ap (λ (x : Bool × List ℕ). x.1) (rw narrow at h))
            (
              (λ m. ((in-select _ rid _).0 m).1),
              (λ a. (in-select _ rid _).1 (candidate_complete db now u org code t rid narrow a, a)),
            )
    ]

role_code :
    (db : Db) (u org : ℕ) (code : String) (rt : Option String) (ri : Option ℕ)
    → any (role_grant_covers code rt ri) (role_permission_grants db u org) ≡ true
    → In code (map (λ (g : RoleGrant). g.code) (role_permission_grants db u org))
unfolding role_grant_covers
role_code db u org code rt ri h =
    let (g, m, e) = (any_iff _ _).0 h in
    (in-map _ code _).1 (g, m, sym (beq_sound g.code code (and-true (g.code == code) _ e).0))

grant_code :
    (db : Db) (now u org : ℕ) (code : String) (rt : Option String) (ri : Option ℕ)
    → GrantApplies db u org code rt ri now "allow"
    → In code (codes_of_allow_grants db org u)
unfolding codes_of_allow_grants
grant_code db now u org code rt ri a = (in-map _ code _).1 (
  a.permission,
  (in-select _ a.permission db.permissions).1 (
    a.permission_exists,
    (any_iff _ _).1 (
      a.grant,
      a.granted,
      and_intro (a.grant.permission_id == a.permission.id) _
          (beq_true _ _ (sym a.permission_granted))
          (and_intro (a.grant.user_id == u) _ (beq_true _ _ a.to_user) (
            and_intro (a.grant.organization_id == org) _ (beq_true _ _ a.in_organization) (
              and_intro (a.grant.effect == "allow") _ (beq_true _ _ a.has_effect)
                (ap is_none a.unrevoked)))),
    ),
  ),
  sym a.has_this_code,
)

-- A code that any check would accept, at any scope, is among the codes shown to the user.
pub list_effective_permission_codes_complete :
    (db : Db) (now user_id organization_id : ℕ) (code : String) (rt : Option String) (ri : Option ℕ)
    → user_has_permission db now user_id organization_id code rt ri ≡ true
    → In code (list_effective_permission_codes db organization_id user_id)
unfolding list_effective_permission_codes
list_effective_permission_codes_complete db now u org code rt ri h =
    elim (decision db now u org code "" 0 rt ri h).1 [
      | inl a ↦ (in-append code _ _).1 (inl (role_code db u org code rt ri a))
      | inr a ↦ (in-append code _ _).1 (
          inr (
            grant_code db now u org code rt ri
              (GrantApplies-sound db u org code rt ri now "allow" a)))
    ]
