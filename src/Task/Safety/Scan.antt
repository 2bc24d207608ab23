-- ===== src/Task/Safety/Scan.antt =====
-- About the loop of `kira_task_pop_next` of runtime_helpers_tasks.inc: the entry that it finds, and the
-- queue without it.
use kira_zig.Common.{
  ℕ, zero, suc, ◌+◌, ◌≤◌, ◌<◌, ◌≡◌, ◌≢◌, refl, sym, ap, ◌∙◌, true, false, Option, none, some, List,
  [], ◌∷◌, arith, ◌==◌, if◌then◌else◌, length, length-append, length-take, length-drop, get_elem?,
  get_elem?-some, Bool-cases, inl, inr, take, drop, All,
}
use mathlib.Core.Path.{subst}
use mathlib.Core.Option.{some-injective}
use native.Mathlib.Decide.{dec_le}
use kira_zig.Task.{Task, is_pending}
use kira_zig.Task.Queue.{scan_due, remove_at}
use kira_zig.Task.Safety.{Lacks, Distinct, Below}
use kira_zig.Task.Safety.Store.{All-get}

-- What the scan finds from `index` on in the queue `q`.
pub data Scanned (ts : List Task) (q : List ℕ) : Option (ℕ × Option (ℕ × ℕ)) → Type 0 where
  nothing : {head : ℕ} → head ≤ length q → Scanned ts q (some (head, none))
  due :
      {head index h : ℕ} {t : Task}
      → head ≤ index
      → get_elem? q index ≡ some h
      → get_elem? ts h ≡ some t
      → is_pending t.state ≡ true
      → Scanned ts q (some (head, some (index, h)))

module _ {ℓ} {A : Type ℓ} where
  pub drop-cons :
      (q : List A) (i : ℕ) {x : A} {rest : List A}
      → drop i q ≡ x ∷ rest
      → (drop (i + 1) q ≡ rest) × (get_elem? q i ≡ some x) × (i < length q)
  drop-cons [] zero e = cc
  drop-cons [] (suc i) e = cc
  drop-cons (y ∷ q) zero e = (cc, cc, omega arith)
  drop-cons (y ∷ q) (suc i) e =
      let n : suc i + 1 ≡ suc (i + 1) = omega arith in
      let ih = drop-cons q i e in (rw n ih.0, ih.1, omega (arith, ih.2))

module _ (ts : List Task) (now head index h : ℕ) (rest : List ℕ) {t : Task}
    (found : get_elem? ts h ≡ some t) where
  pub scan_due-settled :
      is_pending t.state ≡ false
      → scan_due ts now head index (h ∷ rest)
        ≡ scan_due ts now (if index == head then head + 1 else head) (index + 1) rest
  unfolding scan_due
  scan_due-settled e = rw (found, scan_due, e)

  pub scan_due-settled-front :
      is_pending t.state ≡ false
      → index ≡ head
      → scan_due ts now head index (h ∷ rest) ≡ scan_due ts now (head + 1) (index + 1) rest
  scan_due-settled-front p e =
      scan_due-settled p
      ∙ ap (λ n. scan_due ts now n (index + 1) rest)
          (let b : (index == head) ≡ true = ground arith in rw b)

  pub scan_due-settled-behind :
      is_pending t.state ≡ false
      → index ≢ head
      → scan_due ts now head index (h ∷ rest) ≡ scan_due ts now head (index + 1) rest
  scan_due-settled-behind p ne =
      scan_due-settled p
      ∙ ap (λ n. scan_due ts now n (index + 1) rest)
          (let b : (index == head) ≡ false = ground arith in rw b)

  pub scan_due-ready :
      is_pending t.state ≡ true
      → t.wake_at_ns ≤ now
      → scan_due ts now head index (h ∷ rest) ≡ some (head, some (index, h))
  unfolding scan_due
  scan_due-ready e le = ground arith

  pub scan_due-parked :
      is_pending t.state ≡ true
      → now < t.wake_at_ns
      → scan_due ts now head index (h ∷ rest) ≡ scan_due ts now head (index + 1) rest
  unfolding scan_due
  scan_due-parked e later = ground arith

pub scan_due-Scanned :
    (ts : List Task) (q : List ℕ) (now head index : ℕ) (rest : List ℕ)
    → head ≤ index
    → drop index q ≡ rest
    → index ≤ length q
    → Below (length ts) q
    → Scanned ts q (scan_due ts now head index rest)
unfolding scan_due
scan_due-Scanned ts q now head index [] le e inside below = nothing (omega arith)
scan_due-Scanned ts q now head index (h ∷ rest) le e inside below =
    let (next, entry, lt) = drop-cons q index e in
    let (t, found) = get_elem?-some ts h (All-get (λ k. k < length ts) q index below entry) in
    elim (Bool-cases (is_pending t.state)) [
      | inl p ↦ elim (dec_le t.wake_at_ns now) [
        | yes d ↦ rw (scan_due-ready ts now head index h rest found p d) (due le entry found p)
        | no nd ↦
            rw (scan_due-parked ts now head index h rest found p (omega arith)) (
              scan_due-Scanned ts q now head (index + 1) rest (omega arith) next (omega arith)
                below)
      ]
      | inr p ↦ rw (scan_due-settled ts now head index h rest found p) (
          scan_due-Scanned ts q now (if index == head then head + 1 else head) (index + 1) rest
            (ground arith) next (omega arith) below)
    ]

pub remove_at-suc : (i x : ℕ) (q : List ℕ) → remove_at (suc i) (x ∷ q) ≡ x ∷ remove_at i q
unfolding remove_at
remove_at-suc i x q = let n : suc i + 1 ≡ suc (i + 1) = omega arith in rw n

pub remove_at-nil : (i : ℕ) → remove_at i [] ≡ []
unfolding remove_at
remove_at-nil zero = refl
remove_at-nil (suc i) = let n : suc i + 1 ≡ suc (i + 1) = omega arith in rw n

module _ (P : ℕ → Type 0) where
  pub All-remove_at : (i : ℕ) (q : List ℕ) → All P q → All P (remove_at i q)
  All-remove_at zero [] all = unfold remove_at in tt
  All-remove_at zero (x ∷ q) all = unfold remove_at in all.1
  All-remove_at (suc i) [] all = rw (remove_at-nil (suc i)) tt
  All-remove_at (suc i) (x ∷ q) all = rw (remove_at-suc i x q) (all.0, All-remove_at i q all.1)

pub Distinct-remove_at : (i : ℕ) (q : List ℕ) → Distinct q → Distinct (remove_at i q)
Distinct-remove_at zero [] all = unfold remove_at in tt
Distinct-remove_at zero (x ∷ q) all = unfold remove_at in all.1
Distinct-remove_at (suc i) [] all = rw (remove_at-nil (suc i)) tt
Distinct-remove_at (suc i) (x ∷ q) all =
    rw (remove_at-suc i x q) (All-remove_at (λ k. k ≢ x) i q all.0, Distinct-remove_at i q all.1)

-- A distinct queue lacks an entry once it is taken out.
pub Lacks-remove_at :
    (i : ℕ) (q : List ℕ) {h : ℕ} → Distinct q → get_elem? q i ≡ some h → Lacks h (remove_at i q)
Lacks-remove_at i [] d e = cc
Lacks-remove_at zero (x ∷ q) d e =
    unfold remove_at in subst (λ k. Lacks k q) (some-injective _ _ e) d.0
Lacks-remove_at (suc i) (x ∷ q) d e =
    rw (remove_at-suc i x q)
      ((λ same. All-get (λ k. k ≢ x) q i d.0 e (sym same)), Lacks-remove_at i q d.1 e)

pub length-remove_at : (i : ℕ) (q : List ℕ) → i < length q → length (remove_at i q) + 1 ≡ length q
unfolding remove_at
length-remove_at i q lt =
    omega (arith, length-append (take i q) (drop (i + 1) q), length-take i q, length-drop (i + 1) q)
