-- ===== src/Execution/Steps.antt =====
-- The statements on runs, as steps of the ledger.
use native.Mathlib.Decide.{ℕ_discrete}
use whats_app_poke.Prelude.{
  ℕ, String, ◌≡◌, ◌≢◌, refl, subst, sym, ap, ◌∙◌, inl, inr, Bool, true, ◌&&◌, Option, none, some,
  List, [], ◌∷◌, ◌++◌, arith, Bool-cases, Option-cases, ◌==◌, leb,
}
use whats_app_poke.Table.{
  get, greatest, update_by_id, get-update_where, get-append_old, get-append_new, get-append,
  step-update_by_id, step-update_where,
}
use whats_app_poke.Runs.{
  ExecutionRun, ExecutionRunStatus, is_active, is_terminal, create_unless, new_run, started,
  reclaimed, cancel_asked, claim_execution_run, reclaim_execution_run_for_retry,
  request_execution_cancellation, abandon_stale_execution_runs, is_expired, gave_up,
  create_or_get_execution_run, count_active_execution_runs, is_active_key,
}
use whats_app_poke.Runs.Rows.{
  both-left, both-right, started-active, pending-active, cancellable-active,
}
use whats_app_poke.Execution.{World}
use whats_app_poke.Execution.Ledger.{
  events_of, Entry, absent, live, told, dropped, Leads, opens, drops, is_abandoned, Shows, Refines,
}

-- how a statement without an event may change a row
pub data RowStep (r s : ExecutionRun) : Type 0 where
  stays : s ≡ r → RowStep r s
  works : is_active r.status ≡ true → is_active s.status ≡ true → RowStep r s
  gives_up : is_active r.status ≡ true → is_abandoned s.status ≡ true → RowStep r s

terminal_not_active : (s : ExecutionRunStatus) → is_terminal s ≡ true → is_active s ≡ true → ⊥
terminal_not_active s a b = ground arith

abandoned_not_active : (s : ExecutionRunStatus) → is_abandoned s ≡ true → is_active s ≡ true → ⊥
abandoned_not_active s a b = ground arith

-- an entry whose row is active is live
pub active-live :
    (e : Entry) (r : ExecutionRun) (n : ℕ)
    → Shows e (some r) n
    → is_active r.status ≡ true
    → (e ≡ live) × (n ≡ 0)
active-live absent r n h a = absurd h
active-live live r n h a = (refl, h.1)
active-live told r n h a = absurd (terminal_not_active r.status h.0 a)
active-live dropped r n h a = absurd (abandoned_not_active r.status h.0 a)

none-absent : (e : Entry) (n : ℕ) → Shows e none n → (e ≡ absent) × (n ≡ 0)
none-absent absent n h = (refl, h)
none-absent live n h = absurd h
none-absent told n h = absurd h
none-absent dropped n h = absurd h

row-Shows :
    (e : Entry) (r s : ExecutionRun) (n : ℕ)
    → RowStep r s
    → Shows e (some r) n
    → (f : Entry) × Leads e f × Shows f (some s) n
row-Shows e r s n (stays same) h = (e, Leads.same, subst (λ x. Shows e (some x) n) (sym same) h)
row-Shows e r s n (works a b) h =
    let (q, z) = active-live e r n h a in
    (live, subst (λ x. Leads x live) (sym q) Leads.same, (b, z))
row-Shows e r s n (gives_up a b) h =
    let (q, z) = active-live e r n h a in
    (dropped, subst (λ x. Leads x dropped) (sym q) drops, (b, z))

module _ (w : World) where
  -- a statement that changes rows and writes no event
  rows-Refines :
      (runs : List ExecutionRun)
      (missing : (i : ℕ) → get ExecutionRun.id i w.runs ≡ none → get ExecutionRun.id i runs ≡ none)
      (moves : (i : ℕ) (r : ExecutionRun)
        → get ExecutionRun.id i w.runs ≡ some r
        → (s : ExecutionRun) × (get ExecutionRun.id i runs ≡ some s) × RowStep r s)
      → Refines w (record w { runs = runs })
  rows-Refines runs missing moves i e h = elim (Option-cases (get ExecutionRun.id i w.runs)) [
    | inl gone ↦
        (e, Leads.same, subst (λ o. Shows e o (events_of i w)) (gone ∙ sym (missing i gone)) h)
    | inr (r, found) ↦
        let (s, at, step) = moves i r found in
        let (f, leads, shows) =
          row-Shows e r s (events_of i w) step (subst (λ o. Shows e o (events_of i w)) found h) in
        (f, leads, subst (λ o. Shows f o (events_of i w)) (sym at) shows)
  ]

  update-Refines :
      (j : ℕ) (c : ExecutionRun → Bool) (f : ExecutionRun → ExecutionRun)
      (keeps : (x : ExecutionRun) → (f x).id ≡ x.id)
      (works_on : (x : ExecutionRun)
        → c x ≡ true
        → (is_active x.status ≡ true) × (is_active (f x).status ≡ true))
      → Refines w (record w { runs = (update_by_id ExecutionRun.id j c f w.runs).0 })
  unfolding update_by_id
  update-Refines j c f keeps works_on =
      rows-Refines (update_by_id ExecutionRun.id j c f w.runs).0
        (λ i gone.
          rw (get-update_where ExecutionRun.id (λ r. r.id == j && c r) f keeps i w.runs, gone) refl)
        (λ i r found.
          let (s, at, how) = step-update_by_id ExecutionRun.id i w.runs found j c f keeps in
          (
            s,
            at,
            elim how [
              | inl same ↦ stays same
              | inr (_, met, e) ↦
                  works (works_on r met).0
                    (ap (λ (x : ExecutionRun). is_active x.status) e ∙ (works_on r met).1)
            ],
          ))

  pub claim-Refines :
      (i contact_id now : ℕ)
      → Refines w (record w { runs = (claim_execution_run i contact_id now w.runs).0 })
  unfolding claim_execution_run
  claim-Refines i contact_id now =
      update-Refines i _ (started now) (λ x. refl)
        (λ x met. (pending-active x.status (both-left _ _ (both-right _ _ met)), refl))

  pub reclaim-Refines :
      (i contact_id now : ℕ)
      → Refines w (record w { runs = (reclaim_execution_run_for_retry i contact_id now w.runs).0 })
  unfolding reclaim_execution_run_for_retry
  reclaim-Refines i contact_id now =
      update-Refines i _ (reclaimed now) (λ x. refl)
        (λ x met. (started-active x.status (both-right _ _ met), refl))

  pub request-Refines :
      (i contact_id now : ℕ)
      → Refines w (record w { runs = (request_execution_cancellation i contact_id now w.runs).0 })
  unfolding request_execution_cancellation
  request-Refines i contact_id now =
      update-Refines i _ (cancel_asked now) (λ x. refl)
        (λ x met. (cancellable-active x.status (both-right _ _ met), refl))

  pub abandon-Refines :
      (older_than now : ℕ)
      → Refines w (record w { runs = (abandon_stale_execution_runs older_than now w.runs).0 })
  unfolding abandon_stale_execution_runs
  abandon-Refines older_than now =
      rows-Refines _
        (λ i gone.
          rw
            (
              get-update_where ExecutionRun.id (is_expired older_than now) (gave_up now) (λ x. refl)
                  i w.runs,
              gone,
            )
            refl)
        (λ i r found.
          let (s, at, how) =
            step-update_where ExecutionRun.id i w.runs found (is_expired older_than now)
              (gave_up now) (λ x. refl) in
          (
            s,
            at,
            elim how [
              | inl same ↦ stays same
              | inr (met, e) ↦
                  gives_up (started-active r.status (both-left _ _ met))
                    (ap (λ (x : ExecutionRun). is_abandoned x.status) e)
            ],
          ))

  -- a run that is added under a new id
  insert-Refines :
      (new : ExecutionRun)
      → is_active new.status ≡ true
      → get ExecutionRun.id new.id w.runs ≡ none
      → Refines w (record w { runs = w.runs ++ new ∷ [] })
  insert-Refines new a fresh i e h = elim (Option-cases (get ExecutionRun.id i w.runs)) [
    | inr (r, found) ↦ (
      e,
      Leads.same,
      subst (λ o. Shows e o (events_of i w))
          (found ∙ sym (get-append_old ExecutionRun.id i w.runs new found)) h,
    )
    | inl gone ↦
        let (q, z) =
          none-absent e (events_of i w) (subst (λ o. Shows e o (events_of i w)) gone h) in
        elim (ℕ_discrete new.id i) [
          | yes own ↦ (
            live,
            subst (λ x. Leads x live) (sym q) opens,
            subst (λ o. Shows live o (events_of i w))
                (sym (get-append_new ExecutionRun.id i w.runs new own gone)) (a, z),
          )
          | no other ↦ (
            e,
            Leads.same,
            subst (λ o. Shows e o (events_of i w)) (gone ∙ sym (still_gone i other gone)) h,
          )
        ]
  ]
    where
      still_gone :
          (i : ℕ)
          → new.id ≢ i
          → get ExecutionRun.id i w.runs ≡ none
          → get ExecutionRun.id i (w.runs ++ new ∷ []) ≡ none
      still_gone i other gone =
          rw (get-append ExecutionRun.id i w.runs new, gone) (ground (arith, other))

  create_unless-Refines :
      (n : ℕ) (new : ExecutionRun) (o : Option ExecutionRun)
      → is_active new.status ≡ true
      → get ExecutionRun.id new.id w.runs ≡ none
      → Refines w (record w { runs = (create_unless n new o w.runs).0 })
  create_unless-Refines n new (some existing) a fresh = λ i e h. (e, Leads.same, h)
  create_unless-Refines n new none a fresh =
      elim (Bool-cases (leb n (count_active_execution_runs new.contact_id w.runs))) [
        | inl full ↦ rw full (λ i e h. (e, Leads.same, h))
        | inr room ↦ rw room (insert-Refines new a fresh)
      ]

  pub create-Refines :
      (new_id now contact_id : ℕ) (goal : String) (scope : List String) (key : String) (n : ℕ)
      → get ExecutionRun.id new_id w.runs ≡ none
      → Refines w (record w {
        runs = (create_or_get_execution_run new_id now contact_id goal scope key n w.runs).0;
      })
  unfolding create_or_get_execution_run
  create-Refines new_id now contact_id goal scope key n fresh =
      create_unless-Refines n (new_run new_id now contact_id goal scope key)
        (greatest ExecutionRun.created_at (is_active_key contact_id key) w.runs) refl fresh
