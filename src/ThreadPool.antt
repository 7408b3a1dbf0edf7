-- ===== src/ThreadPool.antt =====
-- src/lsp/ThreadPool.cpp: workers that take tasks from a queue in the order in which they came. A task
-- is a number. Each step is one passage through the lock, or the end of a task.
pub mod Order
use bashpp.Prelude.{
  ℕ, Bool, true, false, List, [], ◌∷◌, ◌++◌, Option, none, some, length, get_elem?, set,
  if◌then◌else◌,
}

pub data Worker : Type 0 where
  waiting exited : Worker
  running : ℕ → Worker

pub record Pool : Type 0 where
  pub tasks : List ℕ
  pub stop : Bool
  pub active : Bool
  pub workers : List Worker

unfoldable pub enqueue : ℕ → Pool → Pool
enqueue task p = record p { tasks = p.tasks ++ task ∷ []; active = true }

abbrev pub write_worker : ℕ → Worker → Pool → Pool
write_worker i w p = record p { workers = set p.workers i w }

-- What a worker that holds the lock does: with a task it takes the first one, without one it leaves if
-- the pool stops, and sleeps (`none`) otherwise.
unfoldable pub take_task : ℕ → Pool → Option Pool
take_task i p = elim p.tasks [
  | [] ↦ if p.stop then some (write_worker i exited p) else none
  | task ∷ rest ↦ some (write_worker i (running task) (record p { tasks = rest }))
]

-- One step of the loop of worker `i`; `none` if it can make none.
unfoldable pub worker_step : ℕ → Pool → Option Pool
unfolding take_task
worker_step i p = elim (get_elem? p.workers i) [
  | none ↦ none
  | some exited ↦ none
  | some (running task) ↦ some (write_worker i waiting p)
  | some waiting ↦ take_task i p
]

-- The destructor, before it joins the workers.
unfoldable pub destroy : Pool → Pool
destroy p = record p { stop = true }

unfoldable pub cleanup : Pool → Pool
cleanup p = record p { tasks = []; stop = true }

unfoldable pub get_thread_count : Pool → ℕ
get_thread_count p = length p.workers

unfoldable pub is_active : Pool → Bool
is_active p = p.active
