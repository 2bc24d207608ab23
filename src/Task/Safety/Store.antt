-- ===== src/Task/Safety/Store.antt =====
-- Writes to a task, and to the fields that the invariant does not tie to the tasks.
use mathlib.Core.Path.{subst}
use mathlib.Core.Option.{some-injective}
use native.Mathlib.Decide.{ℕ_discrete}
pub use kira_zig.Common.{get_elem?-lt, All-get, All-set, All-concat, All-map}
use kira_zig.Common.{
  ℕ, ◌≤◌, ◌≡◌, ◌≢◌, sym, ◌∙◌, true, Option, none, some, List, arith, length, length-set, get_elem?,
  get_elem?-set_self, get_elem?-set_ne, set,
}
use kira_zig.BridgeValue.{BridgeValue}
use kira_zig.Task.{Task, Executor, is_pending}
use kira_zig.Task.Safety.{IsTask, IsValid, Held, Good, GoodBut, Below, InRange}

pub Below-mono : (q : List ℕ) (m n : ℕ) → m ≤ n → Below m q → Below n q
Below-mono q m n le = All-map q (λ h lt. omega arith)

pub InRange-mono : (o : Option ℕ) (m n : ℕ) → m ≤ n → InRange m o → InRange n o
InRange-mono none m n le r = tt
InRange-mono (some h) m n le r = omega arith

module _ {e : Executor} (v : IsValid e) (h : ℕ) (t : Task) where
  pub store-IsValid : IsTask t → IsValid (record e { tasks = set e.tasks h t })
  store-IsValid is = record {
    tasks = All-set IsTask e.tasks h v.tasks is;
    current = rw length-set v.current;
    queued = rw length-set v.queued;
    distinct = v.distinct;
    queue_fits = v.queue_fits;
    head_fits = v.head_fits;
    registered = rw length-set v.registered;
    registered_once = v.registered_once;
    registry_fits = v.registry_fits;
  }

  Held-store_ne :
      (k : ℕ) (b : Option ℕ) (f : Option (List BridgeValue))
      → k ≢ h
      → Held e k b f
      → Held (record e { tasks = set e.tasks h t }) k b f
  Held-store_ne k b f ne held = record {
    task = held.task;
    found = get_elem?-set_ne e.tasks t (λ q. ne (sym q)) ∙ held.found;
    pending = held.pending;
    same_body = held.same_body;
    same_frame = held.same_frame;
    apart = held.apart;
  }

  -- A drive may do anything to its own task.
  pub store-GoodBut : IsTask t → GoodBut h e (record e { tasks = set e.tasks h t })
  store-GoodBut is = record {
    valid = store-IsValid is;
    grows = omega (arith, length-set e.tasks h t);
    held = Held-store_ne;
  }

  module _ (t₀ : Task) (found : get_elem? e.tasks h ≡ some t₀) where
    -- What another operation may do to a task that is being driven.
    abbrev pub Spares : Type 0
    Spares =
        is_pending t₀.state ≡ true
        → (is_pending t.state ≡ true) × (t.body ≡ t₀.body) × (t.frame ≡ t₀.frame)

    Held-store_self :
        (b : Option ℕ) (f : Option (List BridgeValue))
        → Spares
        → Held e h b f
        → Held (record e { tasks = set e.tasks h t }) h b f
    Held-store_self b f spares held =
        let same : held.task ≡ t₀ = some-injective _ _ (sym held.found ∙ found) in
        let kept = spares (subst (λ x. is_pending x.state ≡ true) same held.pending) in
        record {
          task = t;
          found = get_elem?-set_self e.tasks h t (get_elem?-lt e.tasks h found);
          pending = kept.0;
          same_body = kept.1 ∙ subst (λ x. x.body ≡ b) same held.same_body;
          same_frame = kept.2 ∙ subst (λ x. x.frame ≡ f) same held.same_frame;
          apart = held.apart;
        }

    pub store-Good : IsTask t → Spares → Good e (record e { tasks = set e.tasks h t })
    store-Good is spares = record {
      valid = store-IsValid is;
      grows = omega (arith, length-set e.tasks h t);
      held = λ k b f held. elim (ℕ_discrete k h) [
        | yes same ↦
            subst (λ i. Held (record e { tasks = set e.tasks h t }) i b f) (sym same)
              (Held-store_self b f spares (subst (λ i. Held e i b f) same held))
        | no ne ↦ Held-store_ne k b f ne held
      ];
    }

module _ {e : Executor} (v : IsValid e) where
  -- Writes of the clock, the current task and the head of the queue.
  pub statics-Good :
      (t : ℕ) (c : Option ℕ) (head : ℕ)
      → InRange (length e.tasks) c
      → head ≤ length e.queue
      → Good e (record e { clock = t; current = c; queue_head = head })
  statics-Good t c head in_range le = record {
    valid = record {
      tasks = v.tasks;
      current = in_range;
      queued = v.queued;
      distinct = v.distinct;
      queue_fits = v.queue_fits;
      head_fits = le;
      registered = v.registered;
      registered_once = v.registered_once;
      registry_fits = v.registry_fits;
    };
    grows = omega arith;
    held = λ k b f held. record {
      task = held.task;
      found = held.found;
      pending = held.pending;
      same_body = held.same_body;
      same_frame = held.same_frame;
      apart = held.apart;
    };
  }

  pub clock-Good : (t : ℕ) → Good e (record e { clock = t })
  clock-Good t = statics-Good t e.current e.queue_head v.current v.head_fits

  pub current-Good : (c : Option ℕ) → InRange (length e.tasks) c → Good e (record e { current = c })
  current-Good c in_range = statics-Good e.clock c e.queue_head in_range v.head_fits
