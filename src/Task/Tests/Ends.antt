-- ===== src/Task/Tests/Ends.antt =====
-- A join in runtime_helpers_tasks.inc that waits for a body which is suspended twice, behind a parked
-- task, and the theorem at it.
use kira_zig.Common.{
  ℕ, zero, suc, ◌<◌, ◌≡◌, refl, ℤ, pos, negsuc, true, none, some, List, [], ◌∷◌, arith, length, inl,
  inr,
}
use kira_zig.BridgeValue.{BridgeValue, void, integer, float, string, boolean, raw_ptr}
use kira_zig.Task.{Task, Executor, ok, Env, pure}
use kira_zig.Task.Run.{is_suspended}
use kira_zig.Task.Api.{blank, join_error, await}
use kira_zig.Task.Order.{waiting}
use kira_zig.Task.Order.Refine.{IsClock}
use kira_zig.Task.Safety.{IsValid}
use kira_zig.Task.Ends.{IsQuiet, total}
use kira_zig.Task.Ends.Queue.{Among}
use kira_zig.Task.Ends.Loop.{await-returns}
use kira_zig.Task.Tests.{simple_env, queued, parked, plain-IsTask}

-- A body that counts its first slot down to 0.
abbrev count_down : BridgeValue → ℤ × BridgeValue
count_down void = (pos 0, void)
count_down (integer (pos zero)) = (pos 0, integer (pos 0))
count_down (integer (pos (suc n))) = (pos 1, integer (pos n))
count_down (integer (negsuc n)) = (pos 0, integer (negsuc n))
count_down (float d) = (pos 0, float d)
count_down (string p n) = (pos 0, string p n)
count_down (boolean b) = (pos 0, boolean b)
count_down (raw_ptr p) = (pos 0, raw_ptr p)

abbrev count_slots : List BridgeValue → ℤ × List BridgeValue
count_slots [] = (pos 0, [])
count_slots (v ∷ slots) = ((count_down v).0, (count_down v).1 ∷ slots)

abbrev count_of : BridgeValue → ℕ
count_of (integer (pos n)) = n
count_of _ = 0

abbrev counts : ℕ → List BridgeValue → ℕ
counts b [] = 0
counts b (v ∷ slots) = count_of v

abbrev counting_env : Env
counting_env = record simple_env {
  run_body = λ b frame. pure (elim frame [ none ↦ (pos 0, []) | some slots ↦ count_slots slots ]);
}

counts_down :
    (v : BridgeValue)
    → is_suspended (count_down v).0 ≡ true
    → count_of (count_down v).1 < count_of v
counts_down void p = cc
counts_down (integer (pos zero)) p = cc
counts_down (integer (pos (suc n))) p = omega arith
counts_down (integer (negsuc n)) p = cc
counts_down (float d) p = cc
counts_down (string q n) p = cc
counts_down (boolean b) p = cc
counts_down (raw_ptr q) p = cc

counting_env-IsQuiet : IsQuiet counting_env counts
counting_env-IsQuiet = record { work = λ w ctx e. (integer (pos w), refl); body = body }
  where
    body :
        (b : ℕ) (slots : List BridgeValue) (e : Executor)
        → (status : ℤ) × (left : List BridgeValue) × (counting_env.run_body b (some slots) e
            ≡ ok (status, left) e)
          × (length left ≡ length slots)
          × (is_suspended status ≡ true → counts b left < counts b slots)
    body b [] e = (pos 0, [], refl, refl, λ p. cc)
    body b (v ∷ slots) e = ((count_down v).0, (count_down v).1 ∷ slots, refl, refl, counts_down v)

counting_env-IsClock : IsClock counting_env
counting_env-IsClock = record { forward = λ t. omega arith; full_sleep = λ t ns. omega arith }

abbrev counter : Task
counter = record blank { body = some 0; frame = some (integer (pos 2) ∷ void ∷ []) }

abbrev counter_waits : Executor
counter_waits = queued (parked 1 ∷ counter ∷ []) (0 ∷ 1 ∷ [])

counter_waits-IsValid : IsValid counter_waits
counter_waits-IsValid = record {
  tasks = (
    plain-IsTask 1 9,
    (
      record {
        freed = refl;
        framed = refl;
        bare = refl;
        joinable = refl;
        blank = refl;
        argued = refl;
      },
      tt,
    ),
  );
  current = tt;
  queued = (omega arith, (omega arith, tt));
  distinct = ((omega arith, tt), (tt, tt));
  queue_fits = omega arith;
  head_fits = omega arith;
  registered = (omega arith, (omega arith, tt));
  registered_once = ((omega arith, tt), (tt, tt));
  registry_fits = omega arith;
}

counter_joinable : join_error counter ≡ none
unfolding join_error
counter_joinable = refl

counter_turns :
    total counts counter_waits.tasks (waiting counter_waits.tasks counter_waits.queue) < 5
unfolding total waiting
counter_turns = omega arith

counter-Among : Among 1 (waiting counter_waits.tasks counter_waits.queue)
unfolding Among waiting
counter-Among = inr (inl refl)

await-returns_example :
    (v : BridgeValue) × (e' : Executor) × (await counting_env 5 (some 1) counter_waits ≡ ok v e')
await-returns_example =
    await-returns counting_env counts 5 1 counter_waits counter counting_env-IsQuiet
      counting_env-IsClock counter_waits-IsValid refl counter_joinable (λ _. counter-Among)
      counter_turns
