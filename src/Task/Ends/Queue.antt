-- ===== src/Task/Ends/Queue.antt =====
-- About the abstract queue of the executor in runtime_helpers_tasks.inc: what a pop and a drive leave
-- of a waiting task and of the turns.
use kira_zig.Common.{
  ℕ, zero, suc, ◌+◌, ◌≤◌, ◌≡◌, ◌≢◌, ◌⊎◌, inl, inr, refl, sym, ap, ◌∙◌, Option, none, some, List, [],
  ◌∷◌, ◌++◌, arith, leb, if◌then◌else◌, length, get_elem?, drop, Bool-cases,
}
use mathlib.Core.Path.{subst}
use mathlib.Core.Option.{some-injective}
use kira_zig.BridgeValue.{BridgeValue}
use kira_zig.Task.{Task, is_pending}
use kira_zig.Task.Order.{Entry, entry_of, waiting, pop_due}
use kira_zig.Task.Safety.{Lacks}
use kira_zig.Task.Ends.{turns_of, total}

none_some : {k : ℕ} → ◌≢◌ {A = Option ℕ} none (some k)
none_some e = cc

nothing_due : (now : ℕ) {h : ℕ} {w' : List Entry} → ¬ (pop_due now [] ≡ (some h, w'))
unfolding pop_due
nothing_due now e = none_some (ap (λ p. p.0) e)

-- The handle has an entry.
unfoldable pub Among : ℕ → List Entry → Type 0
Among k [] = ⊥
Among k ((h, w) ∷ r) = (h ≡ k) ⊎ Among k r

pub Among-nil : (k : ℕ) → ¬ Among k []
unfolding Among
Among-nil k q = q

pub Among-append_left : (k : ℕ) (r s : List Entry) → Among k r → Among k (r ++ s)
unfolding Among
Among-append_left k [] s q = absurd q
Among-append_left k (x ∷ r) s (inl same) = inl same
Among-append_left k (x ∷ r) s (inr q) = inr (Among-append_left k r s q)

pub Among-append_last : (k w : ℕ) (r : List Entry) → Among k (r ++ (k, w) ∷ [])
unfolding Among
Among-append_last k w [] = inl refl
Among-append_last k w (x ∷ r) = inr (Among-append_last k w r)

-- The first entry is due, or stays in front of what a pop leaves of the others.
pop_due-cons :
    (now h w : ℕ) (r : List Entry) {k : ℕ} {w' : List Entry}
    → pop_due now ((h, w) ∷ r) ≡ (some k, w')
    → ((h ≡ k) × (r ≡ w'))
      ⊎ ((r' : List Entry) × (pop_due now r ≡ (some k, r')) × (w' ≡ (h, w) ∷ r'))
unfolding pop_due
pop_due-cons now h w r {k} {w'} e = elim (Bool-cases (leb w now)) [
  | inl due ↦
      let taken : ◌≡◌ {A = Option ℕ × List Entry} (some h, r) (some k, w') =
        sym
          (ap (λ b. if b then (some h, r) else ((pop_due now r).0, (h, w) ∷ (pop_due now r).1)) due)
        ∙ e in
      inl (some-injective _ _ (ap (λ p. p.0) taken), ap (λ p. p.1) taken)
  | inr later ↦
      let left : ◌≡◌ {A = Option ℕ × List Entry} ((pop_due now r).0, (h, w) ∷ (pop_due now r).1)
          (some k, w') =
        sym (
          ap (λ b. if b then (some h, r) else ((pop_due now r).0, (h, w) ∷ (pop_due now r).1))
            later)
        ∙ e in
      inr (
        (pop_due now r).1,
        (λ i. (ap (λ p. p.0) left i, (pop_due now r).1)),
        sym (ap (λ p. p.1) left),
      )
]

-- A waiting task is popped or waits on.
pub Among-pop_due :
    (k now : ℕ) (w : List Entry) {h : ℕ} {w' : List Entry}
    → pop_due now w ≡ (some h, w')
    → Among k w
    → (h ≡ k) ⊎ Among k w'
unfolding Among
Among-pop_due k now [] e q = absurd q
Among-pop_due k now ((h, w) ∷ r) {h = h'} {w' = w'} e q = elim (pop_due-cons now h w r e) [
  | inl (same, rest) ↦ elim q [
    | inl at_h ↦ inl (sym same ∙ at_h)
    | inr below ↦ inr (subst (Among k) rest below)
  ]
  | inr (r', below, shape) ↦
      subst (λ w. (h' ≡ k) ⊎ Among k w) (sym shape)
        (elim q [
          | inl at_h ↦ inr (inl at_h)
          | inr among ↦ elim (Among-pop_due k now r below among) [
            | inl popped ↦ inl popped
            | inr stays ↦ inr (inr stays)
          ]
        ])
]

module _ (steps : ℕ → List BridgeValue → ℕ) where
  -- The turns of the popped task leave the queue with it.
  pub total-pop_due :
      (ts : List Task) (now : ℕ) (w : List Entry) {h : ℕ} {w' : List Entry}
      → pop_due now w ≡ (some h, w')
      → total steps ts w ≡ turns_of steps (get_elem? ts h) + total steps ts w'
  unfolding total
  total-pop_due ts now [] e = absurd (nothing_due now e)
  total-pop_due ts now ((h, w) ∷ r) {h = h'} e = elim (pop_due-cons now h w r e) [
    | inl (same, rest) ↦
        ap (λ k. turns_of steps (get_elem? ts k) + total steps ts r) same
        ∙ ap (λ w. turns_of steps (get_elem? ts h') + total steps ts w) rest
    | inr (r', below, shape) ↦
        omega (arith, total-pop_due ts now r below, ap (total steps ts) shape)
  ]

  pub total-append :
      (ts : List Task) (r s : List Entry)
      → total steps ts (r ++ s) ≡ total steps ts r + total steps ts s
  unfolding total
  total-append ts [] s = omega arith
  total-append ts ((h, w) ∷ r) s = omega (arith, total-append ts r s)

-- The tasks agree but for `h`.
abbrev pub AgreeBut : ℕ → List Task → List Task → Type 0
AgreeBut h ts ts' = (k : ℕ) → k ≢ h → get_elem? ts' k ≡ get_elem? ts k

module _ (h : ℕ) (ts ts' : List Task) (agree : AgreeBut h ts ts') where
  pub waiting-AgreeBut : (q : List ℕ) → Lacks h q → waiting ts' q ≡ waiting ts q
  unfolding waiting
  waiting-AgreeBut [] l = refl
  waiting-AgreeBut (k ∷ q) (ne, l) =
      ap (λ o. entry_of k o ++ waiting ts' q) (agree k ne)
      ∙ ap (λ r. entry_of k (get_elem? ts k) ++ r) (waiting-AgreeBut q l)

  pub total-AgreeBut :
      (steps : ℕ → List BridgeValue → ℕ) (q : List ℕ)
      → Lacks h q
      → total steps ts' (waiting ts q) ≡ total steps ts (waiting ts q)
  unfolding total waiting
  total-AgreeBut steps [] l = refl
  total-AgreeBut steps (k ∷ q) (ne, l) =
      total-append steps ts' (entry_of k (get_elem? ts k)) (waiting ts q)
      ∙ ap (λ n. n + total steps ts' (waiting ts q)) (first (get_elem? ts k))
      ∙ ap (λ n. total steps ts (entry_of k (get_elem? ts k)) + n) (total-AgreeBut steps q l)
      ∙ sym (total-append steps ts (entry_of k (get_elem? ts k)) (waiting ts q))
    where
      first : (o : Option Task) → total steps ts' (entry_of k o) ≡ total steps ts (entry_of k o)
      first none = refl
      first (some t) = elim (Bool-cases (is_pending t.state)) [
        | inl p ↦ rw p (ap (λ o. turns_of steps o + 0) (agree k ne))
        | inr p ↦ rw p refl
      ]

pub drop-append_short {ℓ} :
    {A : Type ℓ} (n : ℕ) (q r : List A) → n ≤ length q → drop n (q ++ r) ≡ drop n q ++ r
drop-append_short zero q r le = refl
drop-append_short (suc n) [] r le = absurd (omega (arith, le))
drop-append_short (suc n) (x ∷ q) r le = drop-append_short n q r (omega (arith, le))
