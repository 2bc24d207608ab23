-- ===== src/Task/Safety/Pop.antt =====
-- About `kira_task_pop_next` and its waiting variant in runtime_helpers_tasks.inc, and the invariant.
use kira_zig.Task.Safety.Scan.{
  Scanned, nothing, due, scan_due-Scanned, All-remove_at, Distinct-remove_at, Lacks-remove_at,
  length-remove_at,
}
use kira_zig.Common.{
  ℕ, zero, suc, ◌≤◌, ◌<◌, ◌≡◌, ◌≢◌, refl, true, Option, none, some, List, [], ◌∷◌, arith, ltb,
  if◌then◌else◌, length, get_elem?, get_elem?-some, Bool-cases, inl, inr, drop, All,
}
use kira_zig.BridgeValue.{BridgeValue}
use kira_zig.Task.{Task, Executor, is_pending, M, ◌>>=◌, Env, or_fault}
use kira_zig.Task.Queue.{
  scan_due, earliest, sooner, remove_at, now_ns, take_out, pop_next, wait_until, retry, or_wait,
  pop_next_or_wait,
}
use kira_zig.Task.Safety
use kira_zig.Task.Safety.{
  IsTask, IsValid, Held, Good, Safe, safe, trapped, starved, Lacks, Distinct, Below, Good-refl,
  Good-trans,
}
use kira_zig.Task.Safety.Store.{All-get, get_elem?-lt, clock-Good, statics-Good}

module _ {e : Executor} (v : IsValid e) where
  head-Good : (head : ℕ) → head ≤ length e.queue → Good e (record e { queue_head = head })
  head-Good head le = statics-Good v e.clock e.current head v.current le

  take-Good :
      (head i : ℕ) {h : ℕ}
      → head ≤ i
      → get_elem? e.queue i ≡ some h
      → Good e (record e { queue = remove_at i e.queue; queue_head = head })
  take-Good head i le entry =
      let lt = get_elem?-lt e.queue i entry in
      let len = length-remove_at i e.queue lt in
      record {
        valid = record {
          tasks = v.tasks;
          current = v.current;
          queued = All-remove_at (λ k. k < length e.tasks) i e.queue v.queued;
          distinct = Distinct-remove_at i e.queue v.distinct;
          queue_fits = omega (arith, len, v.queue_fits);
          head_fits = omega (arith, len, lt);
          registered = v.registered;
          registered_once = v.registered_once;
          registry_fits = v.registry_fits;
        };
        grows = omega arith;
        held = λ k b f held. record {
          task = held.task;
          found = held.found;
          pending = held.pending;
          same_body = held.same_body;
          same_frame = held.same_frame;
          apart = All-remove_at (λ j. j ≢ k) i e.queue held.apart;
        };
      }

-- The task that a pop hands out: pending, and no longer queued, so that the queue has room for it.
pub record Driven (e' : Executor) (h : ℕ) : Type 0 where
  pub task : Task
  pub found : get_elem? e'.tasks h ≡ some task
  pub pending : is_pending task.state ≡ true
  pub apart : Lacks h e'.queue
  pub room : length e'.queue < e'.queue_cap

-- A queued task is not held.
Lacks-get : (q : List ℕ) (i : ℕ) {h : ℕ} → get_elem? q i ≡ some h → ¬ Lacks h q
Lacks-get q i {h} e lacks = All-get (λ k. k ≢ h) q i lacks e refl

abbrev pub Popped : Executor → Option ℕ → Executor → Type 0
Popped e none e' = Good e e'
Popped e (some h) e' =
    Good e e'
    × Driven e' h
    × ((body : Option ℕ) (frame : Option (List BridgeValue)) → ¬ Held e h body frame)

take_out-Safe :
    {e : Executor} (v : IsValid e) (r : Option (ℕ × Option (ℕ × ℕ)))
    → Scanned e.tasks e.queue r
    → Safe (Popped e) ((or_fault r >>= take_out) e)
unfolding take_out
take_out-Safe v _ (nothing le) = safe (head-Good v _ le)
take_out-Safe {e} v _ (due {head} {index} {h} {t} le entry found p) = safe (
  take-Good v head index le entry,
  record {
    task = t;
    found = found;
    pending = p;
    apart = Lacks-remove_at index e.queue v.distinct entry;
    room = omega (
      arith,
      length-remove_at index e.queue (get_elem?-lt e.queue index entry),
      v.queue_fits,
      get_elem?-lt e.queue index entry,
    );
  },
  λ b f held. Lacks-get e.queue index entry held.apart,
)

Popped-trans :
    {e e' : Executor}
    → Good e e'
    → (o : Option ℕ) (e'' : Executor) → Popped e' o e''
    → Popped e o e''
Popped-trans g none e'' p = Good-trans g p
Popped-trans g (some h) e'' (g', d, free) =
    (Good-trans g g', d, λ b f held. free b f (g.held h b f held))

module _ (env : Env) where
  pub pop_next-Safe : {e : Executor} → IsValid e → Safe (Popped e) (pop_next env e)
  unfolding pop_next now_ns
  pop_next-Safe {e} v =
      let g = clock-Good v (env.tick e.clock) in
      Safety.mono
        (take_out-Safe g.valid
          (scan_due e.tasks (env.tick e.clock) e.queue_head e.queue_head
            (drop e.queue_head e.queue))
          (scan_due-Scanned e.tasks e.queue (env.tick e.clock) e.queue_head e.queue_head
            (drop e.queue_head e.queue) (omega arith) refl v.head_fits v.queued))
        (Popped-trans g)

pub earliest-some :
    (ts : List Task) (best : Option ℕ) (rest : List ℕ)
    → Below (length ts) rest
    → (r : Option ℕ) × (earliest ts best rest ≡ some r)
unfolding earliest
earliest-some ts best [] below = (best, refl)
earliest-some ts best (h ∷ rest) below =
    let (t, found) = get_elem?-some ts h below.0 in
    let (r, e) =
      earliest-some ts (if is_pending t.state then sooner best t.wake_at_ns else best) rest
        below.1 in
    (r, rw (found, earliest) e)

module _ {ℓ κ} {A : Type ℓ} (P : A → Type κ) where
  pub All-drop : (n : ℕ) (q : List A) → All P q → All P (drop n q)
  All-drop zero q all = all
  All-drop (suc n) [] all = tt
  All-drop (suc n) (x ∷ q) all = All-drop n q all.1

module _ (env : Env) where
  wait_until-Safe :
      {e : Executor}
      → IsValid e
      → (deadline : ℕ) → Safe (λ _ e'. Good e e') (wait_until env deadline e)
  unfolding wait_until
  wait_until-Safe {e} v deadline =
      let g = clock-Good v (env.tick e.clock) in
      elim (Bool-cases (ltb (env.tick e.clock) deadline)) [
        | inl b ↦ rw (b, wait_until) (safe (Good-trans g (clock-Good g.valid _)))
        | inr b ↦ rw (b, wait_until) (safe g)
      ]

  module _ {again : M (Option ℕ)}
      (next : (e : Executor) → IsValid e → Safe (Popped e) (again e)) where
    retry-Safe :
        {e : Executor} → IsValid e → (best : Option ℕ) → Safe (Popped e) (retry env again best e)
    unfolding retry
    retry-Safe v none = safe (Good-refl v)
    retry-Safe {e} v (some deadline) =
        Safety.bind (wait_until-Safe v deadline)
          λ _ e' g. Safety.mono (next e' g.valid) (Popped-trans g)

    or_wait-Safe :
        {e : Executor} (e' : Executor) (o : Option ℕ)
        → Popped e o e'
        → Safe (Popped e) (or_wait env again o e')
    unfolding or_wait
    or_wait-Safe e' (some h) p = safe p
    or_wait-Safe e' none g =
        let (best, found) =
          earliest-some e'.tasks none (drop e'.queue_head e'.queue)
            (All-drop (λ k. k < length e'.tasks) e'.queue_head e'.queue g.valid.queued) in
        rw found (Safety.mono (retry-Safe g.valid best) (Popped-trans g))

  pub pop_next_or_wait-Safe :
      (fuel : ℕ) {e : Executor} → IsValid e → Safe (Popped e) (pop_next_or_wait env fuel e)
  unfolding pop_next_or_wait
  pop_next_or_wait-Safe zero v = starved
  pop_next_or_wait-Safe (suc f) v =
      Safety.bind (pop_next-Safe env v)
        λ o e' p. or_wait-Safe (λ e v. pop_next_or_wait-Safe f v) e' o p
