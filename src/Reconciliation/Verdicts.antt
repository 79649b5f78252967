-- ===== src/Reconciliation/Verdicts.antt =====
-- The status that the comparison of volumes gives (`_evaluate_delivery_declaration_line_reconciliation_core`).
use zylo_office_backend.Prelude.{
  ℕ, ◌*◌, ◌≤◌, ◌<◌, String, Bool, true, false, ◌≡◌, ◌↔◌, refl, sym, ◌∙◌, inl, inr, Option-cases,
  Option, none, some, leb, arith, ne_sound, string_eq, leb→le, le→leb, iff_trans, if◌then◌else◌,
}
use zylo_office_backend.Reconciliation.Tables.{
  StationReconciliationSettings, DeliveryDeclarationLine, DeliveryDetected,
}
use zylo_office_backend.Reconciliation.Matching.{
  gap, tolerance_applied_to, Verdict, compare_volumes,
}

leb_iff : (a b : ℕ) → (leb a b ≡ true) ↔ (a ≤ b)
leb_iff a b = (leb→le a b, le→leb a b)

leb_not : (a b : ℕ) → (leb a b ≡ false) ↔ (b < a)
leb_not a b = ground arith

-- What a line is compared with, and the status that it gets: pending with no detection, not
-- enough data with a detection of no volume, and otherwise a match up to the tolerance.
abbrev pub IsVerdict :
    Option StationReconciliationSettings
    → DeliveryDeclarationLine
    → Option DeliveryDetected
    → Verdict
    → Type 0
IsVerdict settings line none v = (v.counterpart_id ≡ none) × (v.status ≡ "pending")
IsVerdict settings line (some d) v =
    (v.counterpart_id ≡ some d.id)
    × ((d.volume_liters ≡ none → v.status ≡ "insufficient_data")
        × ((volume : ℕ)
            → d.volume_liters ≡ some volume
            → (v.status ≡ "matched"
                ↔ (gap line.volume_liters volume * 10_000 ≤ tolerance_applied_to settings line))
              × (v.status ≡ "discrepancy"
                  ↔ (tolerance_applied_to settings line < gap line.volume_liters volume * 10_000))))

none-some : (n : ℕ) → ¬ (◌≡◌ {A = Option ℕ} none (some n))
none-some n h = cc

abbrev chosen_status : Bool → String
chosen_status b = if b then "matched" else "discrepancy"

matched_or : (b : Bool) → (chosen_status b ≡ "matched") ↔ (b ≡ true)
matched_or true = ((λ _. refl), (λ _. refl))
matched_or false = ((λ e. absurd (ne_sound "discrepancy" "matched" refl e)), (λ e. cc))

discrepancy_or : (b : Bool) → (chosen_status b ≡ "discrepancy") ↔ (b ≡ false)
discrepancy_or true = ((λ e. absurd (ne_sound "matched" "discrepancy" refl e)), (λ e. cc))
discrepancy_or false = ((λ _. refl), (λ _. refl))

status_of :
    (settings : Option StationReconciliationSettings) (line : DeliveryDeclarationLine)
    (d : DeliveryDetected) (volume : ℕ)
    → d.volume_liters ≡ some volume
    → (compare_volumes settings line d).status
      ≡ chosen_status
          (leb (gap line.volume_liters volume * 10_000) (tolerance_applied_to settings line))
unfolding compare_volumes
status_of settings line d volume e = rw e refl

pub compare_volumes-IsVerdict :
    (settings : Option StationReconciliationSettings) (line : DeliveryDeclarationLine)
    (d : DeliveryDetected)
    → IsVerdict settings line (some d) (compare_volumes settings line d)
unfolding compare_volumes
compare_volumes-IsVerdict settings line d = elim (Option-cases d.volume_liters) [
  | inl e ↦ (rw e refl, ((λ _. rw e refl), (λ v h. absurd (none-some v (sym e ∙ h)))))
  | inr (volume, e) ↦ (
    rw e refl,
    (
      (λ h. absurd (none-some volume (sym h ∙ e))),
      (λ v h.
          rw (status_of settings line d v h)
            (iff_trans (matched_or _) (leb_iff _ _), iff_trans (discrepancy_or _) (leb_not _ _))),
    ),
  )
]
