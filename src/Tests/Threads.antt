-- ===== src/Tests/Threads.antt =====
-- A pool of one worker.
use bashpp.Prelude.{ℕ, List, [], ◌∷◌, true, false}
use bashpp.ThreadPool.{waiting, exited, Pool}

abbrev pool : List ℕ → Pool
pool tasks = record { tasks = tasks; stop = false; active = false; workers = waiting ∷ [] }

abbrev finished : Pool
finished = record { tasks = []; stop = false; active = true; workers = waiting ∷ [] }

abbrev seven : List ℕ
seven = 7 ∷ []

abbrev joined : Pool
joined = record { tasks = []; stop = true; active = false; workers = exited ∷ [] }
