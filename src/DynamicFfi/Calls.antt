-- ===== src/DynamicFfi/Calls.antt =====
-- About `kira_dynamic_ffi_call` and the call builder of dynamic_ffi_helpers.c.
use mathlib.Core.Option.{some-injective}
use mathlib.Core.Path.{subst}
use kira_zig.Common.{
  ℕ, suc, ◌≤◌, ◌≡◌, ◌≢◌, ◌⊎◌, inl, inr, refl, sym, ap, ◌∙◌, Bool, true, false, not, ◌||◌, Option,
  none, some, List, [], ◌∷◌, ◌++◌, ◌==◌, ltb, if◌then◌else◌, arith, length, length-append, take,
  take_past, take_short, append_assoc, append-nil, Bool-cases,
}
use kira_zig.DynamicFfi.{
  Status, success, null_symbol, libffi_unavailable, unsupported_type, prep_failed, too_many_args,
  Env, Invocation, World, Arg, words, fail, max_args, is_usable, open_checked, ensure_libffi,
  ffi_type, cons_type, arg_types, prepared, with_types, with_library, ffi_call, Call, call_new,
  call_append, invoke,
}

-- The call that was made; the type of its result is the one of the tag.
abbrev pub Made : Env → Option ℕ → (tag : ℕ) → List Arg → Invocation → Type 0
Made env fn tag args i =
    (fn ≡ some i.function)
    × (i.words ≡ words args)
    × (length i.types ≡ length args)
    × ((lib : ℕ) × (ffi_type env lib tag ≡ some i.result_type))

-- The status is the last error; with success one call was made, with any other status none.
abbrev pub Reports : Env → Option ℕ → (tag : ℕ) → List Arg → World → Status × World → Type 0
Reports env fn tag args w (s, w') =
    (w'.last_error ≡ s)
    × (((s ≡ success) × (i : Invocation) × (w'.calls ≡ w.calls ++ i ∷ []) × Made env fn tag args i)
        ⊎ ((s ≢ success) × (w'.calls ≡ w.calls)))

pub failed :
    (env : Env) (fn : Option ℕ) (tag : ℕ) (args : List Arg) (s : Status) (w w₁ : World)
    → s ≢ success
    → w₁.calls ≡ w.calls
    → Reports env fn tag args w (fail s w₁)
failed env fn tag args s w w₁ ne same = (refl, inr (ne, same))

length-cons_type :
    (o : Option ℕ) (r : Option (List ℕ)) (n : ℕ) (ts : List ℕ)
    → ((rest : List ℕ) → r ≡ some rest → length rest ≡ n)
    → cons_type o r ≡ some ts
    → length ts ≡ suc n
length-cons_type none r n ts long e = cc
length-cons_type (some t) none n ts long e = cc
length-cons_type (some t) (some rest) n ts long e =
    let q : t ∷ rest ≡ ts = cc in ap length (sym q) ∙ ap suc (long rest refl)

module _ (env : Env) where
  length-arg_types :
      (lib : ℕ) (args : List Arg) (ts : List ℕ)
      → arg_types env lib args ≡ some ts
      → length ts ≡ length args
  unfolding arg_types
  length-arg_types lib [] [] e = refl
  length-arg_types lib [] (t ∷ ts) e = cc
  length-arg_types lib ((tag, v) ∷ args) ts e =
      length-cons_type (ffi_type env lib tag) (arg_types env lib args) (length args) ts
        (λ rest all. length-arg_types lib args rest all) e

  prepared-Reports :
      (fn rt tag : ℕ) (args : List Arg) (types : List ℕ) (w w₁ : World)
      → ((lib : ℕ) × (ffi_type env lib tag ≡ some rt))
      → length types ≡ length args
      → w₁.calls ≡ w.calls
      → Reports env (some fn) tag args w (prepared env fn rt types (words args) w₁)
  unfolding prepared
  prepared-Reports fn rt tag args types w w₁ typed long same =
      let i : Invocation = record {
        function = fn;
        result_type = rt;
        types = types;
        words = words args;
      } in
      elim (Bool-cases (env.prepare rt types)) [
        | inl accepted ↦
            rw accepted (refl, inl (refl, i, ap (λ c. c ++ i ∷ []) same, (refl, refl, long, typed)))
        | inr refused ↦ rw refused (failed env (some fn) tag args prep_failed w w₁ (λ e. cc) same)
      ]

  with_types-Reports :
      (fn tag : ℕ) (args : List Arg) (rt : Option ℕ) (types : Option (List ℕ)) (w w₁ : World)
      → ((t : ℕ) → rt ≡ some t → (lib : ℕ) × (ffi_type env lib tag ≡ some t))
      → ((ts : List ℕ) → types ≡ some ts → length ts ≡ length args)
      → w₁.calls ≡ w.calls
      → Reports env (some fn) tag args w (with_types env fn args rt types w₁)
  with_types-Reports fn tag args none types w w₁ typed long same =
      failed env (some fn) tag args unsupported_type w w₁ (λ e. cc) same
  with_types-Reports fn tag args (some rt) none w w₁ typed long same =
      failed env (some fn) tag args unsupported_type w w₁ (λ e. cc) same
  with_types-Reports fn tag args (some rt) (some types) w w₁ typed long same =
      prepared-Reports fn rt tag args types w w₁ (typed rt refl) (long types refl) same

  -- What `ensure_libffi` leaves.
  abbrev Ensured : World → Option ℕ × World → Type 0
  Ensured w (none, w₁) = (w₁.last_error ≡ libffi_unavailable) × (w₁.calls ≡ w.calls)
  Ensured w (some _, w₁) = w₁.calls ≡ w.calls

  open_checked-Ensured : (o : Option ℕ) (w : World) → Ensured w (open_checked env o w)
  unfolding open_checked
  open_checked-Ensured none w = (refl, refl)
  open_checked-Ensured (some lib) w =
      (elim (is_usable env lib)
        as (λ b. Ensured w (
          if b
          then (some lib, record w { library = some lib })
          else (none, record w { last_error = libffi_unavailable }))) [
            | true ↦ refl
            | false ↦ (refl, refl)
          ])

  ensure_libffi-Ensured : (w : World) → Ensured w (ensure_libffi env w)
  unfolding ensure_libffi
  ensure_libffi-Ensured w =
      (elim w.library
        as (λ o.
          Ensured w (elim o [ some lib ↦ (some lib, w) | none ↦ open_checked env env.managed w ])) [
            | some lib ↦ refl
            | none ↦ open_checked-Ensured env.managed w
          ])

  with_library-Reports :
      (fn tag : ℕ) (args : List Arg) (w : World) (r : Option ℕ × World)
      → Ensured w r
      → Reports env (some fn) tag args w (with_library env fn tag args r)
  unfolding with_library
  with_library-Reports fn tag args w (none, w₁) (err, same) = (refl, inr ((λ e. cc (e, err)), same))
  with_library-Reports fn tag args w (some lib, w₁) same =
      with_types-Reports fn tag args (ffi_type env lib tag) (arg_types env lib args) w w₁
        (λ t e. (lib, e)) (length-arg_types lib args) same

  -- On every path the returned status is the last error. With success exactly one call was made: of
  -- the given function, with the words of all arguments in their order, a type for each, and a result
  -- type that libffi has for the tag. With
  -- any other status no call was made.
  pub ffi_call-Reports :
      (fn : Option ℕ) (tag : ℕ) (args : List Arg) (w : World)
      → Reports env fn tag args w (ffi_call env fn tag args w)
  unfolding ffi_call
  ffi_call-Reports none tag args w = failed env none tag args null_symbol w w (λ e. cc) refl
  ffi_call-Reports (some fn) tag args w =
      (elim (ltb max_args (length args))
        as (λ b. Reports env (some fn) tag args w (
          if b then fail too_many_args w else with_library env fn tag args (ensure_libffi env w))) [
            | true ↦ failed env (some fn) tag args too_many_args w w (λ e. cc) refl
            | false ↦
                with_library-Reports fn tag args w (ensure_libffi env w) (ensure_libffi-Ensured w)
          ])

-- Arguments appended one after another.
pub append_all : Call → List Arg → Call
append_all c [] = c
append_all c (a ∷ args) = append_all (call_append c a) args

append_all-take :
    (c : Call) (args : List Arg)
    → length c.args ≤ c.capacity
    → (Call.args (append_all c args) ≡ take c.capacity (c.args ++ args))
      × (Call.capacity (append_all c args) ≡ c.capacity)
unfolding append_all call_append
append_all-take c [] le =
    (sym (ap (take c.capacity) (append-nil c.args) ∙ take_short c.capacity c.args le), refl)
append_all-take c (a ∷ args) le = elim (Bool-cases (ltb (length c.args) c.capacity)) [
  | inl room ↦
      let c' = record c { args = c.args ++ a ∷ [] } in
      let (built, same) = append_all-take c' args (ground (arith, length-append c.args (a ∷ []))) in
      rw room (built ∙ ap (take c.capacity) (append_assoc c.args (a ∷ []) args), same)
  | inr full ↦
      let e : length c.args ≡ c.capacity = ground arith in
      let (built, same) = append_all-take c args le in
      rw full (
        built ∙ take_past c.capacity c.args args e ∙ sym (take_past c.capacity c.args (a ∷ args) e),
        same,
      )
]

new-call :
    (spare : Bool) (n : ℕ) (c : Call)
    → call_new spare n ≡ some c
    → (c.args ≡ []) × (c.capacity ≤ max_args)
unfolding call_new
new-call spare n c e = elim (Bool-cases (ltb max_args n || not spare)) [
  | inl refused ↦ cc
  | inr granted ↦ made (ltb max_args n) (not spare) n c granted e (λ small. ground arith)
]
  where
    made :
        (b b' : Bool) (n : ℕ) (c : Call)
        → (b || b') ≡ false
        → (if b || b'
            then none
            else some (record { capacity = if n == 0 then max_args else n; args = [] }))
          ≡ some c
        → (b ≡ false → (if n == 0 then max_args else n) ≤ max_args)
        → (c.args ≡ []) × (c.capacity ≤ max_args)
    made true b' n c f e bound = cc
    made false true n c f e bound = cc
    made false false n c f e bound =
        let q = some-injective _ _ e in
        (sym (ap (λ c. Call.args c) q), subst (λ c. Call.capacity c ≤ max_args) q (bound refl))

-- A call that is built in a new handle runs with the appended arguments in their order, up to the
-- capacity of the handle, which is 32 at most; what is appended beyond it is dropped.
pub invoke-append_all :
    (env : Env) (spare : Bool) (n : ℕ) (c : Call) (args : List Arg) (fn : Option ℕ) (tag : ℕ)
    (w : World)
    → call_new spare n ≡ some c
    → (invoke env (some (append_all c args)) fn tag w
        ≡ ffi_call env fn tag (take c.capacity args) w)
      × (c.capacity ≤ max_args)
unfolding invoke
invoke-append_all env spare n c args fn tag w e =
    let (empty, bound) = new-call spare n c e in
    let (built, _) = append_all-take c args (omega (arith, ap length empty)) in
    (
      ap (λ xs. ffi_call env fn tag xs w) (built ∙ ap (λ xs. take c.capacity (xs ++ args)) empty),
      bound,
    )
