-- ===== src/Task/Safety/Steps.antt =====
-- About the steps of a drive in runtime_helpers_tasks.inc: the records that it writes, and the queue.
use kira_zig.Common.{
  ℕ, ◌≤◌, ◌<◌, ◌≡◌, ◌≢◌, refl, sym, true, false, Option, none, some, List, [], ◌∷◌, ◌++◌, arith,
  ◌==◌, length, length-append, get_elem?, get_elem?-some, Bool-cases, inl, inr, ◌⊎◌, not,
  Option-cases,
}
use kira_zig.BridgeValue.{BridgeValue}
use kira_zig.Task.{Task, Executor, is_pending, Env}
use kira_zig.Task.Queue.{next_cap, enqueue}
use kira_zig.Task.Run.{dropped, body_dropped, body_done, work_done, write_frame}
use kira_zig.Task.Safety.{
  IsTask, IsValid, Held, GoodBut, Safe, safe, trapped, Lacks, Distinct, is_none, has_slots,
}
use kira_zig.Task.Safety.Store.{All-get, All-concat}

module _ (t : Task) (is : IsTask t) where
  pub dropped-IsTask : is_pending t.state ≡ true → IsTask (dropped t)
  dropped-IsTask p = ground arith

  pub work_done-IsTask :
      is_pending t.state ≡ true → is_none t.body ≡ true → (v : BridgeValue) → IsTask (work_done t v)
  work_done-IsTask p b v = ground arith

  pub body_dropped-IsTask :
      is_pending t.state ≡ true → is_none t.body ≡ false → IsTask (body_dropped t)
  body_dropped-IsTask p b = ground arith

  pub body_done-IsTask :
      is_pending t.state ≡ true
      → is_none t.body ≡ false
      → t.detached ≡ false
      → (v : BridgeValue) → IsTask (body_done t v)
  body_done-IsTask p b nd v = ground arith

  pub write_frame-IsTask :
      is_pending t.state ≡ true
      → is_none t.body ≡ false
      → (slots : List BridgeValue) → 2 ≤ length slots
      → IsTask (write_frame t slots)
  write_frame-IsTask p b slots le = ground arith

  pub awake-IsTask : IsTask (record t { wake_at_ns = 0 })
  awake-IsTask = ground arith

pub Distinct-concat : (q : List ℕ) (h : ℕ) → Distinct q → Lacks h q → Distinct (q ++ h ∷ [])
Distinct-concat [] h d l = (tt, tt)
Distinct-concat (x ∷ q) h d l =
    (All-concat (λ k. k ≢ x) q d.0 (λ same. l.0 (sym same)), Distinct-concat q h d.1 l.1)

module _ {e : Executor} (v : IsValid e) (h : ℕ) (lt : h < length e.tasks)
    (apart : Lacks h e.queue) where
  pushed-GoodBut :
      (cap : ℕ)
      → length e.queue < cap
      → GoodBut h e (record e { queue = e.queue ++ h ∷ []; queue_cap = cap })
  pushed-GoodBut cap room = record {
    valid = record {
      tasks = v.tasks;
      current = v.current;
      queued = All-concat (λ k. k < length e.tasks) e.queue v.queued lt;
      distinct = Distinct-concat e.queue h v.distinct apart;
      queue_fits = omega (arith, length-append e.queue (h ∷ []));
      head_fits = omega (arith, length-append e.queue (h ∷ []), v.head_fits);
      registered = v.registered;
      registered_once = v.registered_once;
      registry_fits = v.registry_fits;
    };
    grows = omega arith;
    held = λ k b f ne held. record {
      task = held.task;
      found = held.found;
      pending = held.pending;
      same_body = held.same_body;
      same_frame = held.same_frame;
      apart = All-concat (λ j. j ≢ k) e.queue held.apart (λ same. ne (sym same));
    };
  }

  pub enqueue-Safe : (env : Env) → Safe (λ _ e'. GoodBut h e e') (enqueue env h e)
  unfolding enqueue
  enqueue-Safe env = elim (Bool-cases (length e.queue == e.queue_cap)) [
    | inl full ↦ elim (Bool-cases (env.grow (next_cap e.queue_cap))) [
      | inl granted ↦ rw (full, enqueue, granted) (safe (pushed-GoodBut _ (ground arith)))
      | inr refused ↦ rw (full, enqueue, refused) trapped
    ]
    | inr room ↦
        rw (room, enqueue) (safe (pushed-GoodBut e.queue_cap (ground (arith, v.queue_fits))))
  ]

-- The task that a held handle shows, as a record of `IsTask`.
pub Held-IsTask :
    {e : Executor} {h : ℕ} {b : Option ℕ} {f : Option (List BridgeValue)}
    → IsValid e
    → (held : Held e h b f) → IsTask held.task
Held-IsTask {e} {h} v held = All-get IsTask e.tasks h v.tasks held.found

has_slots-some :
    (f : Option (List BridgeValue))
    → has_slots f ≡ true
    → (slots : List BridgeValue) × (f ≡ some slots) × (2 ≤ length slots)
has_slots-some none e = cc
has_slots-some (some slots) e = (slots, refl, ground arith)

pub slots_of :
    {t : Task} {b : ℕ}
    → IsTask t
    → is_pending t.state ≡ true
    → t.body ≡ some b
    → (slots : List BridgeValue) × (t.frame ≡ some slots) × (2 ≤ length slots)
slots_of {t} is p body = has_slots-some t.frame (ground arith)

some_block : (c : Option ℕ) → not (is_none c) ≡ true → (b : ℕ) × (c ≡ some b)
some_block none e = cc
some_block (some b) e = (b, refl)

-- A pending thunk has its argument block.
pub block_of :
    {t : Task}
    → IsTask t
    → is_pending t.state ≡ true
    → (t.work ≡ none) ⊎ ((c : ℕ) × (t.ctx ≡ some c))
block_of {t} is p = elim (Option-cases t.work) [
  | inl e ↦ inl e
  | inr (w, e) ↦ inr (some_block t.ctx (ground (arith, is.argued, e)))
]

pub slot_1-some :
    (slots : List BridgeValue) → 2 ≤ length slots → (v : BridgeValue) × (get_elem? slots 1 ≡ some v)
slot_1-some slots le = get_elem?-some slots 1 le
