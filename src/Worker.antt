-- ===== src/Worker.antt =====
-- backend/src/domain/services/business-lifecycle.worker.ts: the sweep of scheduled pauses, with
-- `listDueForResume` of backend/src/domain/repositories/prisma-business.repository.ts. The timer, the
-- log of failures and the sweep of completions are left out.
pub mod Attempts
pub mod Sweeping
pub mod Stuck
use werefa.Errors.{Result, err, ok, p2023_invalid_uuid}
use werefa.Prelude.{
  ℕ, suc, ◌+◌, ◌-◌, ◌≡◌, refl, true, false, List, [], ◌∷◌, map, select, if◌then◌else◌, leb, length,
  Bool, some, or_default,
}
use werefa.Subscriptions.{Ledger, PauseSettings}
use werefa.Subscriptions.Service.{attempt_auto_resume, Resume, is_thrown}
use werefa.Subscriptions.Resuming.{is_due_pause, is_resumed}

-- The order by `reopenAt`; the rows that are listed have one.
abbrev reopens_first : PauseSettings → PauseSettings → Bool
reopens_first a b = leb (or_default a.reopen_at 0) (or_default b.reopen_at 0)

insert_by_reopen : PauseSettings → List PauseSettings → List PauseSettings
insert_by_reopen s [] = s ∷ []
insert_by_reopen s (t ∷ ts) =
    let rest = insert_by_reopen s ts in if reopens_first s t then s ∷ t ∷ ts else t ∷ rest

sort_by_reopen : List PauseSettings → List PauseSettings
unfolding insert_by_reopen
sort_by_reopen [] = []
sort_by_reopen (s ∷ ss) = insert_by_reopen s (sort_by_reopen ss)

-- `listDueForResume`
unfoldable pub list_due_for_resume : Ledger → ℕ → List ℕ
unfolding sort_by_reopen
list_due_for_resume db now =
    map (λ (s : PauseSettings). s.business_id)
      (sort_by_reopen (select (λ (s : PauseSettings). is_due_pause now (some s)) db.settings))

pub record Sweep : Type 0 where
  pub attempted : ℕ
  pub resumed : ℕ
  pub refused : ℕ

abbrev pub one_more : Resume → Result ℕ → Result ℕ
one_more r (err e) = err e
one_more r (ok k) = ok ((if is_resumed r then 1 else 0) + k)

-- The loop of `sweep`: the number of businesses that were resumed. An error ends the loop. The clock
-- shows `now` throughout.
unfoldable pub sweep_each : Ledger → ℕ → List ℕ → Result ℕ × Ledger
sweep_each db now [] = (ok 0, db)
sweep_each db now (m ∷ ms) =
    let r = attempt_auto_resume db now m in
    let rest = sweep_each r.1 now ms in
    if is_thrown r.0 then (err p2023_invalid_uuid, r.1) else (one_more r.0 rest.0, rest.1)

abbrev pub sweep_result : ℕ → Result ℕ → Result Sweep
sweep_result due (err e) = err e
sweep_result due (ok k) = ok (record { attempted = due; resumed = k; refused = due - k })

-- `sweep`
unfoldable pub sweep : Ledger → ℕ → Result Sweep × Ledger
unfolding list_due_for_resume sweep_each
sweep db now =
    let due = list_due_for_resume db now in
    let r = sweep_each db now due in (sweep_result (length due) r.0, r.1)
