-- ===== src/History/Scopes.antt =====
-- The entries that `list_audit_logs` shows, against the resolution of permissions
-- (app/audit/service.py).
use zylo_office_backend.Prelude.{
  ℕ, ◌≤◌, String, ◌≡◌, refl, ap, sym, subst, ◌⊎◌, inl, inr, Bool, Bool-cases, true, false, not,
  ◌||◌, Option, none, some, List, [], ◌∷◌, ◌==◌, string_eq, nat_eq, option_eq, is_none, In,
  in-append, in-flat_map, in-select, select, any_iff, length, ok, guard->>-eq-ok, ok-pair, and-true,
  and_intro, beq_true, beq_sound, arith,
}
use zylo_office_backend.Audit.{AuditLog}
use zylo_office_backend.Rbac.Tables.{Db}
use zylo_office_backend.Rbac.Resolution.{
  user_has_permission, applicable_grants, has_code, grant_covers, role_grant_covers,
}
use zylo_office_backend.Rbac.Grants.Visibility.{
  RoleAt, GrantAt, covers_cases, decision, decide_wide, wide_refusal,
}
use zylo_office_backend.History.{
  audit_log_view, AuditScope, is_candidate_grant, candidate_scopes, audit_visibility, Filters,
  no_filters, passes_filters, in_scopes, matches, is_empty, take, drop, last_first, list_audit_logs,
}
use zylo_office_backend.History.Pages.{
  in-take, in-drop, in-last_first, length-last_first, take_all, length-select-le,
}

module _ (db : Db) (now u org : ℕ) (t : String) (r : ℕ) where
  role_candidate :
      RoleAt db now u org audit_log_view t r (some t) (some r)
      → RoleAt db now u org audit_log_view t r none none
        ⊎ In (t, some r) (candidate_scopes db org u)
  unfolding role_grant_covers candidate_scopes
  role_candidate h =
      let (g, m, e) = (any_iff _ _).0 h in
      let (g_code, cov) = and-true (g.code == audit_log_view) _ e in
      elim (covers_cases g.resource_type g.resource_id t r cov) [
        | inl wide ↦ inl ((any_iff _ _).1 (g, m, and_intro _ _ g_code wide))
        | inr (g_type, g_id) ↦ inr (
            (in-append (t, some r) _ _).1 (
              inl (
                (in-flat_map _ (t, some r) _).1
                  (g, (in-select _ g _).1 (m, g_code), rw (g_type, g_id) (inl refl)))))
      ]

  grant_candidate :
      GrantAt db now u org audit_log_view t r "allow" (some t) (some r)
      → GrantAt db now u org audit_log_view t r "allow" none none
        ⊎ In (t, some r) (candidate_scopes db org u)
  unfolding grant_covers candidate_scopes is_candidate_grant applicable_grants
  grant_candidate h =
      let (g, m, e) = (any_iff _ _).0 h in
      let (g_effect, cov) = and-true (g.effect == "allow") _ e in
      elim (covers_cases g.resource_type g.resource_id t r cov) [
        | inl wide ↦ inl ((any_iff _ _).1 (g, m, and_intro _ _ g_effect wide))
        | inr (g_type, g_id) ↦
            let (row, test) = (in-select _ g db.grants).0 m in
            let (g_user, t1) = and-true (g.user_id == u) _ test in
            let (g_org, t2) = and-true (g.organization_id == org) _ t1 in
            let (g_code, live) = and-true (has_code db g.permission_id audit_log_view) _ t2 in
            inr (
              (in-append (t, some r) _ _).1 (
                inr (
                  (in-flat_map _ (t, some r) _).1 (
                    g,
                    (in-select _ g db.grants).1 (
                      row,
                      and_intro _ _ g_user (
                          and_intro _ _ g_org (
                            and_intro _ _ g_code (
                              and_intro _ _ g_effect
                                (ap (λ (o : Option String). not (is_none o)) g_type)))),
                    ),
                    rw (g_type, g_id) (inl refl),
                  ))))
      ]

  candidate_complete :
      user_has_permission db now u org audit_log_view none none ≡ false
      → user_has_permission db now u org audit_log_view (some t) (some r) ≡ true
      → In (t, some r) (candidate_scopes db org u)
  candidate_complete narrow h =
      let (no_deny, allow) = decision db now u org audit_log_view t r (some t) (some r) h in
      let wide : (RoleAt db now u org audit_log_view t r none none
            ⊎ GrantAt db now u org audit_log_view t r "allow" none none)
          → In (t, some r) (candidate_scopes db org u) =
        λ a. cc (
          narrow,
          decide_wide db now u org audit_log_view t r
              (λ d. no_deny (wide_refusal db now u org audit_log_view t r d)) a,
        ) in
      elim allow [
        | inl a ↦ elim (role_candidate a) [ inl w ↦ wide (inl w) | inr m ↦ m ]
        | inr a ↦ elim (grant_candidate a) [ inl w ↦ wide (inr w) | inr m ↦ m ]
      ]

-- A permission on the whole organisation, or at the scope of the entry.
abbrev pub MaySee : Db → ℕ → ℕ → ℕ → AuditLog → Type 0
MaySee db now organization_id user_id log =
    (user_has_permission db now user_id organization_id audit_log_view none none ≡ true)
    ⊎ ((t : String) × (log.scope_resource_type ≡ some t)
        × (user_has_permission db now user_id organization_id audit_log_view (some t)
              log.scope_resource_id
            ≡ true))

-- The entry's scope is one that the user may see, when the user does not see all.
in_scopes_sound :
    (db : Db) (now org u : ℕ) (scopes : List AuditScope) (log : AuditLog)
    → in_scopes
        (select
          (λ (s : AuditScope). user_has_permission db now u org audit_log_view (some s.0) s.1)
          scopes)
        log
      ≡ true
    → MaySee db now org u log
unfolding in_scopes
in_scopes_sound db now org u scopes log h =
    let (s, s_in, test) = (any_iff _ _).0 h in
    let (of_type, of_id) = and-true (log.scope_resource_type == some s.0) _ test in
    let (row, allowed) = (in-select _ s scopes).0 s_in in
    inr (
      s.0,
      beq_sound log.scope_resource_type (some s.0) of_type,
      subst (λ (i : Option ℕ). user_has_permission db now u org audit_log_view (some s.0) i ≡ true)
          (sym (beq_sound log.scope_resource_id s.1 of_id)) allowed,
    )

matches_sound :
    (like : String → String → Bool) (db : Db) (now org u : ℕ) (f : Filters) (log : AuditLog)
    → matches like org f (audit_visibility db now org u) log ≡ true
    → (log.organization_id ≡ org) × MaySee db now org u log
unfolding matches audit_visibility
matches_sound like db now org u f log h =
    let (of_org, h1) = and-true (log.organization_id == org) _ h in
    let (filtered, h2) = and-true (passes_filters like f log) _ h1 in
    (
      beq_sound log.organization_id org of_org,
      elim (Bool-cases (user_has_permission db now u org audit_log_view none none)) [
        | inl wide ↦ inl wide
        | inr narrow ↦
            in_scopes_sound db now org u (candidate_scopes db org u) log (rw narrow at h2)
      ],
    )

-- Whatever the filters and the page, an entry that is shown is of the organisation, and the user
-- has the permission on the whole organisation or at the scope of the entry.
pub list_audit_logs_sound :
    (like : String → String → Bool) (db : Db) (now organization_id user_id : ℕ) (f : Filters)
    (limit offset : ℕ) (page : List AuditLog) (total : ℕ)
    → list_audit_logs like db now organization_id user_id f limit offset ≡ ok (page, total)
    → (log : AuditLog) → In log page
    → In log db.audit_logs
      × (log.organization_id ≡ organization_id)
      × MaySee db now organization_id user_id log
unfolding list_audit_logs
list_audit_logs_sound like db now org u f limit offset page total h log m =
    let v = audit_visibility db now org u in
    let rows = select (matches like org f v) db.audit_logs in
    let (allowed, done) = guard->>-eq-ok _ _ _ h in
    let (is_page, is_total) =
      ok-pair (take limit (drop offset (last_first rows))) page (length rows) total done in
    let shown : In log rows = (in-last_first log rows).0 (
      in-drop log offset (last_first rows)
        (in-take log limit (drop offset (last_first rows)) (subst (In log) (sym is_page) m))) in
    let (row, test) = (in-select _ log db.audit_logs).0 shown in
    let (of_org, sees) = matches_sound like db now org u f log test in (row, of_org, sees)

nonempty_in :
    (s : AuditScope) (scopes : List AuditScope) → In s scopes → not (is_empty scopes) ≡ true
nonempty_in s [] m = absurd m
nonempty_in s (x ∷ scopes) m = refl

-- Who may see an entry that has a resource passes the guard, and the entry matches.
matches_complete :
    (like : String → String → Bool) (db : Db) (now org u : ℕ) (log : AuditLog) (t : String) (r : ℕ)
    → log.organization_id ≡ org
    → log.scope_resource_type ≡ some t
    → log.scope_resource_id ≡ some r
    → user_has_permission db now u org audit_log_view (some t) (some r) ≡ true
    → (((audit_visibility db now org u).0 || not (is_empty (audit_visibility db now org u).1))
        ≡ true)
      × (matches like org no_filters (audit_visibility db now org u) log ≡ true)
unfolding matches audit_visibility passes_filters
matches_complete like db now org u log t r of_org of_type of_id h =
    elim (Bool-cases (user_has_permission db now u org audit_log_view none none)) [
      | inl wide ↦ rw wide (refl, and_intro _ _ (beq_true log.organization_id org of_org) refl)
      | inr narrow ↦
          let s_in =
            (in-select
                (λ (s : AuditScope). user_has_permission db now u org audit_log_view (some s.0) s.1)
                (t, some r) (candidate_scopes db org u)).1
              (candidate_complete db now u org t r narrow h, h) in
          rw narrow (
            nonempty_in (t, some r) _ s_in,
            and_intro _ _ (beq_true log.organization_id org of_org) (
                (any_iff _ _).1 (
                  (t, some r),
                  s_in,
                  and_intro _ _ (beq_true log.scope_resource_type (some t) of_type)
                      (beq_true log.scope_resource_id (some r) of_id),
                )),
          )
    ]

-- A user who has the permission at the resource of an entry is not refused, and the unfiltered
-- first page, if it is long enough, shows the entry.
pub list_audit_logs_complete :
    (like : String → String → Bool) (db : Db) (now organization_id user_id limit : ℕ)
    (log : AuditLog) (t : String) (r : ℕ)
    → length db.audit_logs ≤ limit
    → In log db.audit_logs
    → log.organization_id ≡ organization_id
    → log.scope_resource_type ≡ some t
    → log.scope_resource_id ≡ some r
    → user_has_permission db now user_id organization_id audit_log_view (some t) (some r) ≡ true
    → (page : List AuditLog) × (total : ℕ) × (list_audit_logs like db now organization_id user_id
          no_filters limit 0
        ≡ ok (page, total))
      × In log page
unfolding list_audit_logs drop
list_audit_logs_complete like db now org u limit log t r long row of_org of_type of_id h =
    let v = audit_visibility db now org u in
    let rows = select (matches like org no_filters v) db.audit_logs in
    let (allowed, test) = matches_complete like db now org u log t r of_org of_type of_id h in
    let all_taken = take_all limit (last_first rows) (
      omega (
        arith,
        length-last_first rows,
        length-select-le (matches like org no_filters v) db.audit_logs,
        long,
      )) in
    (
      take limit (last_first rows),
      length rows,
      rw allowed refl,
      subst (In log) (sym all_taken)
          ((in-last_first log rows).1 ((in-select _ log db.audit_logs).1 (row, test))),
    )
