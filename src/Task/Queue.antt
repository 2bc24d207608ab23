-- ===== src/Task/Queue.antt =====
-- The clock, the registry and the ready-queue of runtime_helpers_tasks.inc.
use kira_zig.Common.{
  ℕ, zero, suc, ◌+◌, ◌-◌, ◌*◌, true, false, Option, none, some, List, [], ◌∷◌, ◌++◌, ◌==◌, ltb, leb,
  if◌then◌else◌, length, get_elem?, take, drop,
}
use kira_zig.Task.{
  Task, out_of_memory, M, pure, ◌>>=◌, ◌>>◌, get, modify, abort, starve, or_fault, Env, is_pending,
}

-- `cap == 0 ? 16 : cap * 2`.
abbrev pub next_cap : ℕ → ℕ
next_cap cap = if cap == 0 then 16 else cap * 2

-- One call of `kira_task_pop_next` looks at the entries from `index` on: `rest` is what is left of
-- the queue there. The result is the new head and the entry that is due, with its index.
unfoldable pub scan_due :
    List Task → (now head index : ℕ) → (rest : List ℕ) → Option (ℕ × Option (ℕ × ℕ))
scan_due ts now head index [] = some (head, none)
scan_due ts now head index (h ∷ rest) = elim (get_elem? ts h) [
  | none ↦ none
  | some t ↦ elim (is_pending t.state) [
    | false ↦ scan_due ts now (if index == head then head + 1 else head) (index + 1) rest
    | true ↦ elim (leb t.wake_at_ns now) [
      | true ↦ some (head, some (index, h))
      | false ↦ scan_due ts now head (index + 1) rest
    ]
  ]
]

abbrev pub sooner : Option ℕ → ℕ → Option ℕ
sooner none w = some w
sooner (some b) w = if ltb w b then some w else some b

-- The earliest deadline among the pending entries; `best` is `none` while `found` is 0.
unfoldable pub earliest : List Task → Option ℕ → List ℕ → Option (Option ℕ)
earliest ts best [] = some best
earliest ts best (h ∷ rest) = elim (get_elem? ts h) [
  | none ↦ none
  | some t ↦ earliest ts (if is_pending t.state then sooner best t.wake_at_ns else best) rest
]

unfoldable pub remove_at : ℕ → List ℕ → List ℕ
remove_at index q = take index q ++ drop (index + 1) q

-- What `kira_task_pop_next` writes back.
unfoldable pub take_out : ℕ × Option (ℕ × ℕ) → M (Option ℕ)
unfolding remove_at
take_out (head, none) = do modify (λ e. record e { queue_head = head }); pure none
take_out (head, some (index, h)) = do
  modify (λ e. record e { queue = remove_at index e.queue; queue_head = head })
  pure (some h)

module _ (env : Env) where
  unfoldable pub now_ns : M ℕ
  now_ns = do e ← get; let t = env.tick e.clock; modify (λ e. record e { clock = t }); pure t

  unfoldable pub sleep_ns : ℕ → M (Unit {0})
  sleep_ns ns = modify (λ e. record e { clock = env.after e.clock ns })

  unfoldable pub registry_add : ℕ → M (Unit {0})
  registry_add h e =
      if length e.registry == e.registry_cap
      then (if env.grow (next_cap e.registry_cap)
          then modify
              (λ e. record e {
                registry = e.registry ++ h ∷ [];
                registry_cap = next_cap e.registry_cap;
              })
              e
          else pure tt e)
      else modify (λ e. record e { registry = e.registry ++ h ∷ [] }) e

  unfoldable pub enqueue : ℕ → M (Unit {0})
  enqueue h e =
      if length e.queue == e.queue_cap
      then (if env.grow (next_cap e.queue_cap)
          then modify
              (λ e. record e { queue = e.queue ++ h ∷ []; queue_cap = next_cap e.queue_cap }) e
          else abort out_of_memory e)
      else modify (λ e. record e { queue = e.queue ++ h ∷ [] }) e

  unfoldable pub pop_next : M (Option ℕ)
  unfolding now_ns scan_due take_out
  pop_next = do
    now ← now_ns
    e ← get
    found ← or_fault (scan_due e.tasks now e.queue_head e.queue_head (drop e.queue_head e.queue))
    take_out found

  unfoldable pub wait_until : ℕ → M (Unit {0})
  unfolding now_ns sleep_ns
  wait_until deadline = do
    now ← now_ns
    if ltb now deadline then sleep_ns (deadline - now) else pure tt

  -- The next round, `again`, if a task is parked.
  unfoldable pub retry : M (Option ℕ) → Option ℕ → M (Option ℕ)
  unfolding wait_until
  retry again none = pure none
  retry again (some deadline) = do wait_until deadline; again

  -- What follows a pop in the loop.
  unfoldable pub or_wait : M (Option ℕ) → Option ℕ → M (Option ℕ)
  unfolding retry earliest
  or_wait again (some h) = pure (some h)
  or_wait again none = do
    e ← get
    best ← or_fault (earliest e.tasks none (drop e.queue_head e.queue))
    retry again best

  -- The loop of `kira_task_pop_next_or_wait`, on fuel.
  unfoldable pub pop_next_or_wait : ℕ → M (Option ℕ)
  unfolding pop_next or_wait
  pop_next_or_wait zero = starve
  pop_next_or_wait (suc f) = do popped ← pop_next; or_wait (pop_next_or_wait f) popped
