-- ===== src/Tests/TaskRuns.antt =====
-- The retries, the scheduler and the paths of the tasks on concrete inputs.
use jenezis.Prelude.{ℕ, ◌≡◌, ◌≤◌, refl, [], ℕ_eq, raise, drop, length, runtime_error}
use jenezis.Tests.AppRuns.{setup, tables, learner}
use jenezis.App.Tasks.Process.{Setup}
use jenezis.App.Tasks.Enrich.Pending.{pending_ids}
use jenezis.App.Tasks.Enrich.Drain.{ticks, ticks-drop}

-- No attempt can read the file.
abbrev unreadable : ℕ → Setup ℕ ℕ ℕ
unreadable k = record setup { parse = λ d. raise runtime_error }

ticks-drop_example :
    (pending_ids (ticks 2 (λ n id. learner) tables).queue ≡ drop 200 (pending_ids tables.queue))
    × (length (pending_ids tables.queue) ≤ 200
        → pending_ids (ticks 2 (λ n id. learner) tables).queue ≡ [])
ticks-drop_example = ticks-drop 2 (λ n id. learner) tables (refl, tt)
