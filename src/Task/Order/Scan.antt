-- ===== src/Task/Order/Scan.antt =====
-- About the loop of `kira_task_pop_next` of runtime_helpers_tasks.inc.
use mathlib.Core.Path.{subst}
use native.Mathlib.Decide.{dec_le, ℕ_discrete}
use kira_zig.Common.{
  ℕ, zero, suc, ◌+◌, ◌≤◌, ◌<◌, ◌≡◌, refl, sym, ap, ◌∙◌, true, false, Option, none, some, List, [],
  ◌∷◌, ◌++◌, append_assoc, arith, length, length-append, get_elem?, get_elem?-some, drop, All,
  Bool-cases, inl, inr,
}
use kira_zig.Task.{Task, is_pending}
use kira_zig.Task.Queue.{scan_due, remove_at}
use kira_zig.Task.Order.{Entry, entry_of, waiting, pop_due}
use kira_zig.Task.Safety.{Below}
use kira_zig.Task.Safety.Scan.{
  scan_due-settled-front, scan_due-settled-behind, scan_due-ready, scan_due-parked, remove_at-suc,
}

-- No entry of `w` is due.
abbrev pub Parked : ℕ → List Entry → Type 0
Parked now = All (λ x. now < x.1)

pop_due-Parked :
    (now : ℕ) (a b : List Entry)
    → Parked now a
    → pop_due now (a ++ b) ≡ ((pop_due now b).0, a ++ (pop_due now b).1)
unfolding pop_due
pop_due-Parked now [] b p = refl
pop_due-Parked now ((h, w) ∷ a) b (lt, p) = ground (arith, pop_due-Parked now a b p)

pop_due-due : (now h w : ℕ) (r : List Entry) → w ≤ now → pop_due now ((h, w) ∷ r) ≡ (some h, r)
unfolding pop_due
pop_due-due now h w r le = ground arith

pub waiting-append :
    (ts : List Task) (a b : List ℕ) → waiting ts (a ++ b) ≡ waiting ts a ++ waiting ts b
unfolding waiting
waiting-append ts [] b = refl
waiting-append ts (h ∷ a) b =
    rw (waiting-append ts a b) (sym (append_assoc _ (waiting ts a) (waiting ts b)))

remove_at-here :
    (h : ℕ) (pre rest : List ℕ) → remove_at (length pre) (pre ++ h ∷ rest) ≡ pre ++ rest
remove_at-here h [] rest = unfold remove_at in refl
remove_at-here h (x ∷ pre) rest =
    remove_at-suc (length pre) x (pre ++ h ∷ rest) ∙ ap (λ q. x ∷ q) (remove_at-here h pre rest)

remove_at-drop :
    (head h : ℕ) (q pre rest : List ℕ)
    → drop head q ≡ pre ++ h ∷ rest
    → drop head (remove_at (head + length pre) q) ≡ pre ++ rest
remove_at-drop zero h q pre rest e =
    let n : 0 + length pre ≡ length pre = omega arith in rw (n, e) (remove_at-here h pre rest)
remove_at-drop (suc head) h [] [] rest e = cc
remove_at-drop (suc head) h [] (x ∷ pre) rest e = cc
remove_at-drop (suc head) h (x ∷ q) pre rest e =
    let n : suc head + length pre ≡ suc (head + length pre) = omega arith in
    rw (n, remove_at-suc) (remove_at-drop head h q pre rest e)

drop-suc : (head h : ℕ) (q rest : List ℕ) → drop head q ≡ h ∷ rest → drop (head + 1) q ≡ rest
drop-suc zero h [] rest e = cc
drop-suc zero h (x ∷ q) rest e = cc
drop-suc (suc head) h [] rest e = cc
drop-suc (suc head) h (x ∷ q) rest e =
    let n : suc head + 1 ≡ suc (head + 1) = omega arith in rw n (drop-suc head h q rest e)

-- What a scan has to find: the abstract pop of the entries `w`, in terms of the new queue.
abbrev pub Finds : List Task → List ℕ → ℕ → List Entry → Option (ℕ × Option (ℕ × ℕ)) → Type 0
Finds ts q now w none = ⊥
Finds ts q now w (some (head, none)) = pop_due now w ≡ (none, waiting ts (drop head q))
Finds ts q now w (some (head, some (index, h))) =
    pop_due now w ≡ (some h, waiting ts (drop head (remove_at index q)))

Parked-append : (now : ℕ) (a b : List Entry) → Parked now a → Parked now b → Parked now (a ++ b)
Parked-append now [] b pa pb = pb
Parked-append now (x ∷ a) b (px, pa) pb = (px, Parked-append now a b pa pb)

module _ (ts : List Task) (h : ℕ) {t : Task} (found : get_elem? ts h ≡ some t) where
  pub waiting-settled :
      (q : List ℕ) → is_pending t.state ≡ false → waiting ts (h ∷ q) ≡ waiting ts q
  unfolding waiting
  waiting-settled q p = ap (λ o. entry_of h o ++ waiting ts q) found ∙ (rw p)

  pub waiting-pending :
      (q : List ℕ)
      → is_pending t.state ≡ true
      → waiting ts (h ∷ q) ≡ (h, t.wake_at_ns) ∷ waiting ts q
  unfolding waiting
  waiting-pending q p = ap (λ o. entry_of h o ++ waiting ts q) found ∙ (rw p)

module _ (ts : List Task) (q : List ℕ) (now : ℕ) where
  scan-nil :
      (head : ℕ) (pre : List ℕ)
      → drop head q ≡ pre ++ []
      → Parked now (waiting ts pre)
      → pop_due now (waiting ts (pre ++ [])) ≡ (none, waiting ts (drop head q))
  unfolding pop_due waiting
  scan-nil head pre e parked =
      rw (e, waiting-append ts pre []) (pop_due-Parked now (waiting ts pre) [] parked)

  scan-ready :
      (head h : ℕ) (pre rest : List ℕ) {t : Task}
      → drop head q ≡ pre ++ h ∷ rest
      → Parked now (waiting ts pre)
      → get_elem? ts h ≡ some t
      → is_pending t.state ≡ true
      → t.wake_at_ns ≤ now
      → pop_due now (waiting ts (pre ++ h ∷ rest))
        ≡ (some h, waiting ts (drop head (remove_at (head + length pre) q)))
  scan-ready head h pre rest {t} e parked found p le = rw (
    remove_at-drop head h q pre rest e,
    waiting-append ts pre (h ∷ rest),
    waiting-append ts pre rest,
    waiting-pending ts h found rest p,
    pop_due-Parked now (waiting ts pre) _ parked,
    pop_due-due now h t.wake_at_ns (waiting ts rest) le,
  )

  -- The entry `h` joins those that the scan has passed.
  passed-Finds :
      (h : ℕ) (rest pre : List ℕ) (r : Option (ℕ × Option (ℕ × ℕ)))
      → Finds ts q now (waiting ts ((pre ++ h ∷ []) ++ rest)) r
      → Finds ts q now (waiting ts (pre ++ h ∷ rest)) r
  passed-Finds h rest pre r =
      subst (λ l. Finds ts q now (waiting ts l) r) (append_assoc pre (h ∷ []) rest)

  passed-Parked :
      (h : ℕ) (pre : List ℕ)
      → Parked now (waiting ts pre)
      → Parked now (waiting ts (h ∷ []))
      → Parked now (waiting ts (pre ++ h ∷ []))
  passed-Parked h pre p p' =
      rw (waiting-append ts pre (h ∷ [])) (Parked-append now (waiting ts pre) _ p p')

  Parked-one :
      (h : ℕ) {t : Task}
      → get_elem? ts h ≡ some t
      → now < t.wake_at_ns
      → Parked now (waiting ts (h ∷ []))
  Parked-one h {t} found lt = elim (Bool-cases (is_pending t.state)) [
    | inl p ↦ rw (waiting-pending ts h found [] p) (lt, unfold waiting in tt)
    | inr p ↦ rw (waiting-settled ts h found [] p) (unfold waiting in tt)
  ]

  settled_one :
      (h : ℕ) {t : Task}
      → get_elem? ts h ≡ some t
      → is_pending t.state ≡ false
      → Parked now (waiting ts (h ∷ []))
  settled_one h found p = rw (waiting-settled ts h found [] p) (unfold waiting in tt)

  skipped-Finds :
      (h : ℕ) (rest pre : List ℕ) {t : Task} (r : Option (ℕ × Option (ℕ × ℕ)))
      → length pre ≡ 0
      → get_elem? ts h ≡ some t
      → is_pending t.state ≡ false
      → Finds ts q now (waiting ts rest) r
      → Finds ts q now (waiting ts (pre ++ h ∷ rest)) r
  skipped-Finds h rest [] r n found p f = rw (waiting-settled ts h found rest p) f
  skipped-Finds h rest (x ∷ pre) r n found p f = absurd (omega arith)

  skipped-drop :
      (head h : ℕ) (rest pre : List ℕ)
      → length pre ≡ 0
      → drop head q ≡ pre ++ h ∷ rest
      → drop (head + 1) q ≡ rest
  skipped-drop head h rest [] n e = drop-suc head h q rest e
  skipped-drop head h rest (x ∷ pre) n e = absurd (omega arith)

  pub scan_due-Finds :
      (rest pre : List ℕ) (head index : ℕ)
      → drop head q ≡ pre ++ rest
      → index ≡ head + length pre
      → Parked now (waiting ts pre)
      → Below (length ts) rest
      → Finds ts q now (waiting ts (pre ++ rest)) (scan_due ts now head index rest)
  scan_due-Finds [] pre head index e i parked below = unfold scan_due in scan-nil head pre e parked
  scan_due-Finds (h ∷ rest) pre head index e i parked below =
      let (t, found) = get_elem?-some ts h below.0 in
      let behind : drop head q ≡ (pre ++ h ∷ []) ++ rest =
        e ∙ sym (append_assoc pre (h ∷ []) rest) in
      let moved : index + 1 ≡ head + length (pre ++ h ∷ []) =
        omega (arith, i, length-append pre (h ∷ [])) in
      elim (Bool-cases (is_pending t.state)) [
        | inl p ↦ elim (dec_le t.wake_at_ns now) [
          | yes d ↦
              rw (scan_due-ready ts now head index h rest found p d, i)
                (scan-ready head h pre rest e parked found p d)
          | no nd ↦ rw (scan_due-parked ts now head index h rest found p (omega arith)) (
              passed-Finds h rest pre _ (
                scan_due-Finds rest (pre ++ h ∷ []) head (index + 1) behind moved
                  (passed-Parked h pre parked (Parked-one h found (omega arith))) below.1))
        ]
        | inr p ↦ elim (ℕ_discrete index head) [
          | yes front ↦
              let n : length pre ≡ 0 = omega (arith, i) in
              rw (scan_due-settled-front ts now head index h rest found p front) (
                skipped-Finds h rest pre _ n found p (
                  scan_due-Finds rest [] (head + 1) (index + 1) (skipped-drop head h rest pre n e)
                    (omega arith) (unfold waiting in tt) below.1))
          | no behind_front ↦
              rw (scan_due-settled-behind ts now head index h rest found p behind_front) (
                passed-Finds h rest pre _ (
                  scan_due-Finds rest (pre ++ h ∷ []) head (index + 1) behind moved
                    (passed-Parked h pre parked (settled_one h found p)) below.1))
        ]
      ]
