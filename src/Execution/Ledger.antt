-- ===== src/Execution/Ledger.antt =====
-- The runs, their events and the functions of the service, against an abstract ledger: of every run
-- the interaction is told at most once, and exactly of those that ended other than by a restart.
use whats_app_poke.Prelude.{ℕ, ◌≡◌, subst, sym, Bool, true, false, Option, none, some, ◌==◌}
use whats_app_poke.Table.{get, count}
use whats_app_poke.Runs.{
  ExecutionRun, ExecutionRunStatus, ExecutionEvent, is_active, is_terminal, abandoned,
}
use whats_app_poke.Execution.{World}

abbrev pub events_of : ℕ → World → ℕ
events_of i w = count (λ (e : ExecutionEvent). e.execution_run_id == i) w.events

-- What the interaction can know of a run: there is none, it is live, it has ended and the
-- interaction was told, or it was given up at a restart and nothing was said.
pub data Entry : Type 0 where
  absent live told dropped : Entry

-- The steps of the ledger.
pub data Leads : Entry → Entry → Type 0 where
  same : {e : Entry} → Leads e e
  opens : Leads absent live
  tells : Leads live told
  drops : Leads live dropped
  both : {d e f : Entry} → Leads d e → Leads e f → Leads d f

abbrev pub is_abandoned : ExecutionRunStatus → Bool
is_abandoned abandoned = true
is_abandoned _ = false

-- How the tables show an entry.
abbrev pub Shows : Entry → Option ExecutionRun → ℕ → Type 0
Shows absent none n = n ≡ 0
Shows live (some r) n = (is_active r.status ≡ true) × (n ≡ 0)
Shows told (some r) n = (is_terminal r.status ≡ true) × (n ≡ 1)
Shows dropped (some r) n = (is_abandoned r.status ≡ true) × (n ≡ 0)
Shows _ _ n = ⊥

abbrev pub Tracks : ℕ → World → Entry → Type 0
Tracks i w e = Shows e (get ExecutionRun.id i w.runs) (events_of i w)

-- From `w` to `after` every run makes steps of the ledger.
abbrev pub Refines : World → World → Type 0
Refines w after = (i : ℕ) (e : Entry) → Tracks i w e → (f : Entry) × Leads e f × Tracks i after f

pub Refines-same :
    (w after : World)
    (rows : (i : ℕ) → get ExecutionRun.id i after.runs ≡ get ExecutionRun.id i w.runs)
    (events : (i : ℕ) → events_of i after ≡ events_of i w)
    → Refines w after
Refines-same w after rows events i e h = (
  e,
  Leads.same,
  subst (λ n. Shows e (get ExecutionRun.id i after.runs) n) (sym (events i))
      (subst (λ o. Shows e o (events_of i w)) (sym (rows i)) h),
)

pub Refines-trans : (u v w : World) → Refines u v → Refines v w → Refines u w
Refines-trans u v w a b i e h =
    let (f, p, k) = a i e h in let (g, q, l) = b i f k in (g, both p q, l)

-- A told entry stays told.
pub Leads-told : {e f : Entry} → Leads e f → e ≡ told → f ≡ told
Leads-told Leads.same q = q
Leads-told opens q = cc
Leads-told tells q = cc
Leads-told drops q = cc
Leads-told (both a b) q = Leads-told b (Leads-told a q)
