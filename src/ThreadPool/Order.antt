-- ===== src/ThreadPool/Order.antt =====
-- Tasks start in the order in which they were enqueued, and none is lost when the pool is destroyed.
use bashpp.Prelude.{◌⊎◌, ℕ, List, [], ◌∷◌, some, ◌≡◌, get_elem?, set}
use bashpp.ThreadPool.{Worker, waiting, exited, running, Pool, enqueue, worker_step, destroy}

-- A run of the pool: the tasks that were enqueued during it, those that workers were seen to run after
-- they had waited, and the pool afterwards. `cleanup` is no part of a run.
pub data Run : Pool → List ℕ → List ℕ → Pool → Type 0 where
  stay : {p : Pool} → Run p [] [] p
  enqueues :
      {p r : Pool} {task : ℕ} {es ss : List ℕ}
      → Run (enqueue task p) es ss r
      → Run p (task ∷ es) ss r
  destroys : {p r : Pool} {es ss : List ℕ} → Run (destroy p) es ss r → Run p es ss r
  takes :
      {p q r : Pool} {task : ℕ} {es ss : List ℕ} (i : ℕ)
      → get_elem? p.workers i ≡ some waiting
      → worker_step i p ≡ some q
      → get_elem? q.workers i ≡ some (running task)
      → Run q es ss r
      → Run p es (task ∷ ss) r
  ends :
      {p q r : Pool} {task : ℕ} {es ss : List ℕ} (i : ℕ)
      → get_elem? p.workers i ≡ some (running task)
      → worker_step i p ≡ some q
      → Run q es ss r
      → Run p es ss r
  leaves :
      {p q r : Pool} {es ss : List ℕ} (i : ℕ)
      → get_elem? p.workers i ≡ some waiting
      → worker_step i p ≡ some q
      → get_elem? q.workers i ≡ some exited
      → Run q es ss r
      → Run p es ss r

-- What a waiting worker was seen to do tells what the queue was: it was empty and the worker left, or the
-- worker runs its first task.
abbrev Did : ℕ → Pool → Pool → Worker → Type 0
Did i p q w =
    ((w ≡ exited) × (p.tasks ≡ []) × (q.tasks ≡ []))
    ⊎ ((task : ℕ) × (w ≡ running task)
        × (p.tasks ≡ task ∷ q.tasks)
        × (q.workers ≡ set p.workers i (running task)))

abbrev Quiet : Pool → Type 0
Quiet p = (j : ℕ) → get_elem? p.workers j ≡ some exited → p.tasks ≡ []
