-- ===== src/TaskService/Tasks.antt =====
-- The table of tasks under an update of one task.
use mathlib.Core.Path.{subst}
use mathews.TaskService.{Task, find_task}
use mathews.TaskService.Apply.{update_task}
use mathews.Common.{ℕ, ◌≡◌, sym, some, List, [], ◌∷◌, arith, ◌==◌, if◌then◌else◌}

pub find_task-id : (id : ℕ) (ts : List Task) {t : Task} → find_task id ts ≡ some t → t.id ≡ id
unfolding find_task
find_task-id id [] h = cc
find_task-id id (u ∷ us) {t} h = ground (arith, find_task-id id us {t = t})

pub find_task_self :
    (id : ℕ) (ts : List Task) (t : Task) → find_task id ts ≡ some t → find_task t.id ts ≡ some t
find_task_self id ts t h =
    subst (λ i. find_task i ts ≡ some t) (sym (find_task-id id ts {t = t} h)) h

-- Looking a task up after an update of a task that is there.
pub find_task-update :
    (id : ℕ) (ts : List Task) (t u : Task)
    → find_task t.id ts ≡ some u
    → find_task id (update_task t ts) ≡ (if t.id == id then some t else find_task id ts)
unfolding find_task update_task
find_task-update id [] t u h = cc
find_task-update id (v ∷ vs) t u h = ground (arith, find_task-update id vs t u)
