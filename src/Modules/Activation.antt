-- ===== src/Modules/Activation.antt =====
-- The effect of `deactivate_module` (app/modules_registry/service.py).
use zylo_office_backend.Prelude.{
  In, in-select, ok-pair, subst, ne_sound, not, none, ℕ, String, ◌≡◌, ◌≢◌, refl, ap, sym, ◌∙◌, ◌⊎◌,
  inl, inr, Bool, Bool-cases, true, false, some, List, [], ◌∷◌, map, ◌==◌, string_eq, nat_eq,
  select, ok, err, scalar_one_or_none, module_inactive, module_not_activated, or_raise,
  or_raise-eq-ok, >>=-eq-ok, and-true, beq_sound, ne_false, arith,
}
use zylo_office_backend.Modules.{
  OrganizationModule, is_row_of, is_module_active, deactivated, update_rows, deactivate_module,
  require_module_active, require_module_active_any,
}
use zylo_office_backend.Rbac.Tables.{Db}
use zylo_office_backend.Rbac.Roles.{add_audit_event}

one_row :
    (xs : List OrganizationModule) (x : OrganizationModule)
    → scalar_one_or_none xs ≡ ok (some x)
    → xs ≡ x ∷ []
unfolding scalar_one_or_none
one_row [] x h = cc
one_row (y ∷ []) x h = ground arith
one_row (y ∷ z ∷ rest) x h = cc

module _ (p : OrganizationModule → Bool) (f : OrganizationModule → OrganizationModule) where
  select-update_rows :
      ((m : OrganizationModule) → p (f m) ≡ p m)
      → (rows : List OrganizationModule) → select p (update_rows p f rows) ≡ map f (select p rows)
  unfolding select
  select-update_rows keeps [] = refl
  select-update_rows keeps (m ∷ ms) = elim (Bool-cases (p m)) [
    | inl hit ↦ rw hit (rw (keeps m, hit, select-update_rows keeps ms) refl)
    | inr miss ↦ rw miss (rw miss (select-update_rows keeps ms))
  ]

  select-update_rows_other :
      (q : OrganizationModule → Bool)
      → ((m : OrganizationModule) → p m ≡ true → (q m ≡ false) × (q (f m) ≡ false))
      → (rows : List OrganizationModule) → select q (update_rows p f rows) ≡ select q rows
  unfolding select
  select-update_rows_other q apart [] = refl
  select-update_rows_other q apart (m ∷ ms) = elim (Bool-cases (p m)) [
    | inl hit ↦
        let (before, after) = apart m hit in
        rw (hit, before) (rw after (select-update_rows_other q apart ms))
    | inr miss ↦ elim (Bool-cases (q m)) [
      | inl taken ↦ rw miss (rw (taken, select-update_rows_other q apart ms) refl)
      | inr left ↦ rw miss (rw (left, select-update_rows_other q apart ms) refl)
    ]
  ]

-- A row of one organisation and module is of no other.
row_apart :
    (o o' : ℕ) (c c' : String) (m : OrganizationModule)
    → (o' ≢ o) ⊎ (c' ≢ c)
    → is_row_of o c m ≡ true
    → is_row_of o' c' m ≡ false
unfolding is_row_of
row_apart o o' c c' m apart hit =
    let (same_o, same_c) = and-true (m.organization_id == o) _ hit in
    elim apart [
      | inl ne ↦ ground (
        arith,
        ne_false m.organization_id o' (λ e. ne (sym e ∙ beq_sound m.organization_id o same_o)),
      )
      | inr ne ↦
          ground
            (arith, ne_false m.module_code c' (λ e. ne (sym e ∙ beq_sound m.module_code c same_c)))
    ]

deactivated_same_row :
    (now o : ℕ) (c : String) (m : OrganizationModule)
    → is_row_of o c (deactivated now m) ≡ is_row_of o c m
unfolding is_row_of
deactivated_same_row now o c m = refl

row_parts :
    (o : ℕ) (c : String) (m : OrganizationModule)
    → is_row_of o c m ≡ true
    → (m.organization_id ≡ o) × (m.module_code ≡ c)
unfolding is_row_of
row_parts o c m hit =
    let (same_o, same_c) = and-true (m.organization_id == o) _ hit in
    (beq_sound m.organization_id o same_o, beq_sound m.module_code c same_c)

-- The rows after the change: the module is off, and every other row has the state it had.
deactivated_rows :
    (rows : List OrganizationModule) (now org : ℕ) (code : String) (row : OrganizationModule)
    (rows' : List OrganizationModule)
    → select (is_row_of org code) rows ≡ row ∷ []
    → update_rows (is_row_of org code) (deactivated now) rows ≡ rows'
    → (is_module_active rows' org code ≡ ok false)
      × ((o : ℕ) (c : String)
          → (o ≢ org) ⊎ (c ≢ code)
          → is_module_active rows' o c ≡ is_module_active rows o c)
unfolding is_module_active scalar_one_or_none
deactivated_rows rows now org code row rows' one is_after =
    let selected : select (is_row_of org code) rows' ≡ deactivated now row ∷ [] =
      ap (select (is_row_of org code)) (sym is_after)
      ∙ select-update_rows (is_row_of org code) (deactivated now)
          (λ m. deactivated_same_row now org code m) rows
      ∙ ap (map (deactivated now)) one in
    (
      rw selected refl,
      λ o c apart.
          ap (λ (l : List OrganizationModule). is_module_active l o c) (sym is_after)
          ∙ rw
              (select-update_rows_other (is_row_of org code) (deactivated now) (is_row_of o c)
                (λ m hit. (
                  row_apart org o code c m apart hit,
                  row_apart org o code c (deactivated now m) apart
                      (deactivated_same_row now org code m ∙ hit),
                ))
                rows)
              refl,
    )

-- The guard of shared routes, when one module is no longer active and the others are as they were.
any_without :
    (rows rows' : List OrganizationModule) (o : ℕ) (code : String)
    → is_module_active rows' o code ≡ ok false
    → ((c : String) → c ≢ code → is_module_active rows' o c ≡ is_module_active rows o c)
    → (codes : List String)
    → require_module_active_any rows' o codes
      ≡ require_module_active_any rows o (select (λ (c : String). not (c == code)) codes)
unfolding require_module_active_any select
any_without rows rows' o code off others [] = refl
any_without rows rows' o code off others (c ∷ cs) =
    let rest = any_without rows rows' o code off others cs in
    elim (Bool-cases (c == code)) [
      | inl e ↦
          let off_c : is_module_active rows' o c ≡ ok false =
            subst (λ (x : String). is_module_active rows' o x ≡ ok false) (sym (beq_sound c code e))
              off in
          rw (e, off_c) rest
      | inr e ↦ rw (e, others c (ne_sound c code e), rest) refl
    ]

-- After a deactivation that succeeds the module is not active for the organisation and every route
-- that requires this module alone is refused; a route that several modules share is open as it was
-- for the others of them; any other module, and any other organisation, is as it was; and the audit
-- trail has an entry on the row of the module.
pub deactivate_module_lem :
    (db : Db) (rows : List OrganizationModule) (now organization_id actor_user_id : ℕ)
    (module_code : String) (rows' : List OrganizationModule) (db' : Db)
    → deactivate_module db rows now organization_id actor_user_id module_code ≡ ok (rows', db')
    → (is_module_active rows' organization_id module_code ≡ ok false)
      × (require_module_active rows' organization_id module_code ≡ err module_inactive)
      × ((codes : List String)
          → require_module_active_any rows' organization_id codes
            ≡ require_module_active_any rows organization_id
                (select (λ (c : String). not (c == module_code)) codes))
      × ((o : ℕ) (c : String)
          → (o ≢ organization_id) ⊎ (c ≢ module_code)
          → is_module_active rows' o c ≡ is_module_active rows o c)
      × ((row : OrganizationModule) × In row rows
          × (row.organization_id ≡ organization_id)
          × (row.module_code ≡ module_code)
          × (db'
              ≡ add_audit_event db organization_id actor_user_id "modulesRegistry.module.deactivate"
                  "OrganizationModule"
                  (some row.id)
                  none
                  none
                  none))
unfolding deactivate_module require_module_active
deactivate_module_lem db rows now org actor code rows' db' h =
    let (found, query, h1) =
      >>=-eq-ok (scalar_one_or_none (select (is_row_of org code) rows)) _ h in
    let (row, given, done) = >>=-eq-ok (or_raise found module_not_activated) _ h1 in
    let is_some = or_raise-eq-ok found module_not_activated given in
    let one = one_row (select (is_row_of org code) rows) row (query ∙ ap ok is_some) in
    let (is_after, is_db) = ok-pair _ rows' _ db' done in
    let (off, others) = deactivated_rows rows now org code row rows' one is_after in
    let (row_in, row_of_both) =
      (in-select (is_row_of org code) row rows).0
        (subst (λ (l : List OrganizationModule). In row l) (sym one) (inl refl)) in
    let (row_org, row_code) = row_parts org code row row_of_both in
    (
      off,
      rw off refl,
      any_without rows rows' org code off (λ c ne. others org c (inr ne)),
      others,
      (row, row_in, row_org, row_code, sym is_db),
    )
