-- ===== src/DynamicFfi/Search/Order.antt =====
-- About the search for libffi: which library the first call loads.
use kira_zig.Common.{
  ℕ, ◌≡◌, ◌⊎◌, inl, inr, refl, sym, ap, ◌∙◌, Bool, if◌then◌else◌, Option, none, some, List, [], ◌∷◌,
  ◌++◌, Bytes, codes, Option-cases,
}
use kira_zig.DynamicFfi.{World, libffi_unavailable, is_usable, open_checked, ensure_libffi}
use kira_zig.DynamicFfi.Search.{
  Loader, path_size, append_path, user_path, or_else, os_library_open, try_open_libffi_path,
  open_managed_libffi, loader_env,
}

-- A path that is not empty.
abbrev pub listed : Option Bytes → List Bytes
listed none = []
listed (some []) = []
listed (some (c ∷ path)) = (c ∷ path) ∷ []

module _ (L : Loader) where
  -- The paths in the order of the search.
  abbrev pub candidates : List Bytes
  candidates =
      listed (L.getenv (codes "KIRA_LIBFFI_PATH"))
      ++ (listed
            (append_path path_size (L.getenv (codes "KIRA_LIBFFI_HOME")) (codes "lib/libffi.so"))
          ++ (listed (user_path (L.getenv (codes "HOME")))
              ++ codes "libffi.so.8" ∷ codes "libffi.so" ∷ []))

  abbrev pub AllFail : List Bytes → Type 0
  AllFail [] = Unit
  AllFail (p ∷ ps) = (L.dlopen p ≡ none) × AllFail ps

  -- `lib` is what the first path that opens gives.
  abbrev pub IsFirst : List Bytes → ℕ → Type 0
  IsFirst ps lib =
      (before : List Bytes) × (p : Bytes) × (after : List Bytes) × (ps ≡ before ++ p ∷ after)
      × AllFail before
      × (L.dlopen p ≡ some lib)

  unfoldable first_open : List Bytes → Option ℕ
  first_open [] = none
  first_open (p ∷ ps) = or_else (L.dlopen p) (first_open ps)

  first_open-append :
      (xs ys : List Bytes) → first_open (xs ++ ys) ≡ or_else (first_open xs) (first_open ys)
  unfolding first_open
  first_open-append [] ys = refl
  first_open-append (x ∷ xs) ys = elim (Option-cases (L.dlopen x)) [
    | inl e ↦ rw e (first_open-append xs ys)
    | inr (h, e) ↦ rw e refl
  ]

  try_open-listed : (o : Option Bytes) → try_open_libffi_path L o ≡ first_open (listed o)
  unfolding try_open_libffi_path os_library_open first_open
  try_open-listed none = refl
  try_open-listed (some []) = refl
  try_open-listed (some (c ∷ path)) = or_none (L.dlopen (c ∷ path))
    where
      or_none : (o : Option ℕ) → o ≡ or_else o none
      or_none none = refl
      or_none (some h) = refl

  or_else-listed :
      (o : Option Bytes) (ps : List Bytes) (r : Option ℕ)
      → r ≡ first_open ps
      → or_else (try_open_libffi_path L o) r ≡ first_open (listed o ++ ps)
  or_else-listed o ps r e =
      ap (λ t. or_else t r) (try_open-listed o)
      ∙ ap (or_else (first_open (listed o))) e
      ∙ sym (first_open-append (listed o) ps)

  open_managed-candidates : open_managed_libffi L ≡ first_open candidates
  unfolding open_managed_libffi
  open_managed-candidates = or_else-listed (L.getenv (codes "KIRA_LIBFFI_PATH")) _ _ (
      or_else-listed
        (append_path path_size (L.getenv (codes "KIRA_LIBFFI_HOME")) (codes "lib/libffi.so")) _ _
        (or_else-listed (user_path (L.getenv (codes "HOME"))) _ _ (
          or_else-listed (some (codes "libffi.so.8")) (codes "libffi.so" ∷ []) _
            (try_open-listed (some (codes "libffi.so"))))))

  first_open-IsFirst :
      (ps : List Bytes)
      → ((first_open ps ≡ none) × AllFail ps)
        ⊎ ((lib : ℕ) × (first_open ps ≡ some lib) × IsFirst ps lib)
  unfolding first_open
  first_open-IsFirst [] = inl (refl, tt)
  first_open-IsFirst (p ∷ ps) = elim (Option-cases (L.dlopen p)) [
    | inl e ↦ elim (first_open-IsFirst ps) [
      | inl (n, fail) ↦ inl (ap (λ o. or_else o (first_open ps)) e ∙ n, (e, fail))
      | inr (lib, s, (before, q, after, split, fail, opens)) ↦ inr (
        lib,
        ap (λ o. or_else o (first_open ps)) e ∙ s,
        (p ∷ before, q, after, ap (λ r. p ∷ r) split, (e, fail), opens),
      )
    ]
    | inr (h, e) ↦ inr (h, ap (λ o. or_else o (first_open ps)) e, ([], p, ps, refl, tt, e))
  ]

  -- What the search leaves in a world without a library.
  abbrev pub Searched : (prepare : ℕ → List ℕ → Bool) → World → Option ℕ × World → Type 0
  Searched prepare w r =
      (AllFail candidates × (r ≡ (none, record w { last_error = libffi_unavailable })))
      ⊎ ((lib : ℕ) × IsFirst candidates lib
          × (r ≡ (
              if is_usable (loader_env L prepare) lib
              then (some lib, record w { library = some lib })
              else (none, record w { last_error = libffi_unavailable }))))

unfoldable open_with : (L : Loader) → (ℕ → List ℕ → Bool) → World → Option ℕ → Option ℕ × World
open_with L prepare w o = open_checked (loader_env L prepare) o w

unloaded :
    (L : Loader) (prepare : ℕ → List ℕ → Bool) (w : World)
    → w.library ≡ none
    → ensure_libffi (loader_env L prepare) w ≡ open_with L prepare w (first_open L (candidates L))
unfolding ensure_libffi loader_env open_with
unloaded L prepare w empty =
    ap
      (λ o. elim o [
        | some lib ↦ (some lib, w)
        | none ↦ open_checked (loader_env L prepare) (open_managed_libffi L) w
      ])
      empty
    ∙ ap (open_with L prepare w) (open_managed-candidates L)

-- While no library is loaded, the search takes the first path that opens, in this order: `KIRA_LIBFFI_PATH`, the
-- file below `KIRA_LIBFFI_HOME`, the one below the home directory, and the two names that the loader knows. It is
-- loaded if it has the functions and the pointer type, and otherwise libffi is unavailable, and no later path is
-- tried; libffi is unavailable too if no path opens.
pub ensure_libffi-Searched :
    (L : Loader) (prepare : ℕ → List ℕ → Bool) (w : World)
    → w.library ≡ none
    → Searched L prepare w (ensure_libffi (loader_env L prepare) w)
unfolding ensure_libffi open_checked loader_env open_with
ensure_libffi-Searched L prepare w empty = elim (first_open-IsFirst L (candidates L)) [
  | inl (n, fail) ↦ inl (fail, unloaded L prepare w empty ∙ ap (open_with L prepare w) n)
  | inr (lib, s, first) ↦
      inr (lib, first, unloaded L prepare w empty ∙ ap (open_with L prepare w) s)
]
