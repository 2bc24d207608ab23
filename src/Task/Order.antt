-- ===== src/Task/Order.antt =====
-- The order in which `kira_task_pop_next` hands out tasks, against an abstract queue: the pending
-- handles with their wake deadlines. The abstract view forgets the head index, the settled entries
-- and the capacity.
pub mod Scan
pub mod Refine
pub mod Wait
use kira_zig.Common.{
  ℕ, zero, suc, ◌+◌, ◌≤◌, ◌<◌, ◌≡◌, refl, Bool, true, false, Option, none, some, List, [], ◌∷◌,
  ◌++◌, leb, if◌then◌else◌, length, get_elem?, drop,
}
use kira_zig.Task.{Task, Executor, is_pending}

abbrev pub Entry : Type 0
Entry = ℕ × ℕ

-- The entry of a handle, if its task is pending.
abbrev pub entry_of : ℕ → Option Task → List Entry
entry_of h none = []
entry_of h (some t) = if is_pending t.state then (h, t.wake_at_ns) ∷ [] else []

unfoldable pub waiting : List Task → List ℕ → List Entry
waiting ts [] = []
waiting ts (h ∷ q) = entry_of h (get_elem? ts h) ++ waiting ts q

-- What waits in the executor, in order.
abbrev pub in_queue : Executor → List Entry
in_queue e = waiting e.tasks (drop e.queue_head e.queue)

-- The first entry that is due at `now` leaves; the others keep their order.
unfoldable pub pop_due : ℕ → List Entry → Option ℕ × List Entry
pop_due now [] = (none, [])
pop_due now ((h, w) ∷ r) =
    let (o, r') = pop_due now r in if leb w now then (some h, r) else (o, (h, w) ∷ r')
