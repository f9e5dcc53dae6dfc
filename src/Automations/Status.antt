-- ===== src/Automations/Status.antt =====
-- The life of an automation.
use whats_app_poke.Prelude.{
  ℕ, String, ◌≡◌, refl, ap, ◌∙◌, inl, inr, Bool, true, ◌&&◌, Option, some, List, [], ◌∷◌, arith,
  ◌==◌,
}
use whats_app_poke.Table.{get, get-append_old, step-update_by_id}
use whats_app_poke.Automations.{
  Automation, AutomationStatus, AutomationLastRunStatus, cancelled, create_automation_row,
  is_allowed, is_active, with_status, set_automation_status, with_run, record_automation_run,
}

pub data Op : Type 0 where
  create :
      (new_id now contact_id : ℕ) (name goal rrule timezone_name : String)
      → List String
      → Option ℕ
      → Op
  set : (automation_id contact_id : ℕ) → AutomationStatus → Option ℕ → (now : ℕ) → Op
  record_run :
      (automation_id contact_id occurrence_at : ℕ)
      → Option ℕ
      → AutomationLastRunStatus
      → Option ℕ
      → Bool
      → (now : ℕ) → Op

unfoldable pub apply : Op → List Automation → List Automation
apply (Op.create new_id now contact_id name goal rrule timezone_name required_toolkits next_run_at)
      automations =
    create_automation_row new_id now contact_id name goal rrule timezone_name required_toolkits
      next_run_at automations
apply (Op.set i contact_id status next_run_at now) automations =
    (set_automation_status i contact_id status next_run_at now automations).0
apply
      (Op.record_run i contact_id occurrence_at next_run_at last_run_status execution_run_id
        was_catch_up now)
      automations =
    (record_automation_run i contact_id occurrence_at next_run_at last_run_status execution_run_id
      was_catch_up now automations).0

unfoldable pub run : List Op → List Automation → List Automation
run [] automations = automations
run (op ∷ ops) automations = run ops (apply op automations)

-- `s` is what may become of `r`: the contact and the schedule are the same, a cancelled row is
-- untouched.
pub record Later (r s : Automation) : Type 0 where
  pub contact : s.contact_id ≡ r.contact_id
  pub goal : s.goal ≡ r.goal
  pub rrule : s.rrule ≡ r.rrule
  pub timezone : s.timezone ≡ r.timezone
  pub final : r.status ≡ cancelled → s ≡ r

Later-same : (r s : Automation) → s ≡ r → Later r s
Later-same r s e = record {
  contact = ap Automation.contact_id e;
  goal = ap Automation.goal e;
  rrule = ap Automation.rrule e;
  timezone = ap Automation.timezone e;
  final = λ f. e;
}

not_allowed :
    (status : AutomationStatus) (b : Bool) {s : AutomationStatus}
    → (b && is_allowed status s) ≡ true
    → s ≡ cancelled
    → ⊥
not_allowed status b e f = ground (arith, e, f)

not_active : (b : Bool) {s : AutomationStatus} → (b && is_active s) ≡ true → s ≡ cancelled → ⊥
not_active b e f = ground (arith, e, f)

apply-Later :
    (op : Op) (i : ℕ) (automations : List Automation) (r : Automation)
    → get Automation.id i automations ≡ some r
    → (s : Automation) × (get Automation.id i (apply op automations) ≡ some s) × Later r s
unfolding apply create_automation_row set_automation_status record_automation_run
apply-Later
      (Op.create new_id now contact_id name goal rrule timezone_name required_toolkits next_run_at)
      i automations r found =
    (r, get-append_old Automation.id i automations _ found, Later-same r r refl)
apply-Later (Op.set j contact_id status next_run_at now) i automations r found =
    let (s, at, how) =
      step-update_by_id Automation.id i automations found j
        (λ r. r.contact_id == contact_id && is_allowed status r.status)
        (with_status status next_run_at now) (λ x. refl) in
    (
      s,
      at,
      elim how [
        | inl stays ↦ Later-same r s stays
        | inr (_, met, e) ↦ record {
          contact = ap Automation.contact_id e;
          goal = ap Automation.goal e;
          rrule = ap Automation.rrule e;
          timezone = ap Automation.timezone e;
          final = λ f. absurd (not_allowed status _ met f);
        }
      ],
    )
apply-Later
      (Op.record_run j contact_id occurrence_at next_run_at last_run_status execution_run_id
        was_catch_up now)
      i automations r found =
    let (s, at, how) =
      step-update_by_id Automation.id i automations found j
        (λ r. r.contact_id == contact_id && is_active r.status)
        (with_run occurrence_at next_run_at last_run_status execution_run_id was_catch_up now)
        (λ x. refl) in
    (
      s,
      at,
      elim how [
        | inl stays ↦ Later-same r s stays
        | inr (_, met, e) ↦ record {
          contact = ap Automation.contact_id e;
          goal = ap Automation.goal e;
          rrule = ap Automation.rrule e;
          timezone = ap Automation.timezone e;
          final = λ f. absurd (not_active _ met f);
        }
      ],
    )

-- Through every sequence of statements an automation keeps its row, its contact, its goal, its rule
-- and its time zone, and one that is cancelled is never resumed, paused or recorded as run again.
pub automation_kept :
    (ops : List Op) (i : ℕ) (automations : List Automation) (r : Automation)
    → get Automation.id i automations ≡ some r
    → (s : Automation) × (get Automation.id i (run ops automations) ≡ some s) × Later r s
unfolding run
automation_kept [] i automations r found = (r, found, Later-same r r refl)
automation_kept (op ∷ ops) i automations r found =
    let (s, at, a) = apply-Later op i automations r found in
    let (t, at', b) = automation_kept ops i (apply op automations) s at in
    (
      t,
      at',
      record {
        contact = b.contact ∙ a.contact;
        goal = b.goal ∙ a.goal;
        rrule = b.rrule ∙ a.rrule;
        timezone = b.timezone ∙ a.timezone;
        final = λ f. b.final (ap Automation.status (a.final f) ∙ f) ∙ a.final f;
      },
    )
