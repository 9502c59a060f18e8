-- ===== src/Oom.antt =====
-- `check_oom_status` of `WorkerPoolServer` (src/pyqgisserver/qgspool.py): which workers are killed when
-- memory runs short. Shares of memory are counted in a small unit, so that sums are exact.
pub mod Order
pub mod Relief
mod Examples
use py_qgis_server.Prelude.{ℕ, ◌+◌, ◌-◌, List, [], ◌∷◌, ltb, leb, if◌then◌else◌}

-- A child process with the memory of itself and of its own children.
pub record Child : Type 0 where
  pub pid : ℕ
  pub mem : ℕ

-- `sum(t[1] for t in childs)`
unfoldable pub total : List Child → ℕ
total [] = 0
total (c ∷ cs) = c.mem + total cs

-- `childs.sort(key=…, reverse=True)`: biggest first, equals in the order that they had
unfoldable pub insert : Child → List Child → List Child
insert c [] = c ∷ []
insert c (d ∷ ds) = if leb d.mem c.mem then c ∷ d ∷ ds else d ∷ insert c ds

unfoldable pub sorted : List Child → List Child
unfolding insert
sorted [] = []
sorted (c ∷ cs) = insert c (sorted cs)

-- The loop over the sorted children: those that are killed, with the memory that is in use before.
unfoldable pub kill_loop : ℕ → ℕ → List Child → List Child
kill_loop mark used [] = []
kill_loop mark used (c ∷ cs) =
    let later = kill_loop mark (used - c.mem) cs in
    c ∷ (if ltb (used - c.mem) mark then [] else later)

unfoldable pub check_oom_status : ℕ → List Child → List Child
unfolding total sorted kill_loop
check_oom_status mark childs =
    if ltb mark (total childs) then kill_loop mark (total childs) (sorted childs) else []
