-- ===== src/FileSystem/Remove/Tree.antt =====
-- What `fs_remove_path` of fs.c relies on: a tree of files that may be removed.
use kira_zig.Common.{
  ℕ, zero, suc, ◌+◌, ◌≤◌, ◌≡◌, ◌≢◌, ◌⊎◌, inl, inr, refl, sym, ap, ◌∙◌, true, false, Option, none,
  some, List, [], ◌∷◌, ◌++◌, if◌then◌else◌, arith, length, length-append, append_assoc, Bytes,
  codes, str_eq, str_eq_refl, str_eq_sound, Bool-cases,
}
use kira_zig.FileSystem.{FileType, directory, Stat, put, System}
use kira_zig.FileSystem.Listing.{is_dots}
use kira_zig.FileSystem.Remove.{child_path}

-- What stands at a path, without following a symbolic link. A file stands under one spelling of its
-- path.
abbrev pub Kinds : Type 0
Kinds = Bytes → Option FileType

-- The files, and the names that the open streams have left.
pub record Dirs : Type 0 where
  pub kind : Kinds
  pub streams : ℕ → Option (List Bytes)

unfoldable pub gone : Bytes → Kinds → Kinds
gone path k x = if str_eq x path then none else k x

unfoldable pub with_stream : ℕ → Option (List Bytes) → Dirs → Dirs
with_stream dir ns d = record d { streams = put dir ns d.streams }

abbrev pub In : Bytes → List Bytes → Type 0
In name [] = ⊥
In name (x ∷ xs) = (name ≡ x) ⊎ In name xs

-- The kernel removes files and empty directories, and lists every entry of a directory, `width`
-- entries at most.
pub record IsTree (K : System) (view : K.State → Dirs) (width : ℕ) : Type 0 where
  pub lstat_none :
      (path : Bytes) (s : K.State) (d : Dirs)
      → view s ≡ d
      → d.kind path ≡ none
      → K.lstat path s ≡ none
  pub lstat_some :
      (path : Bytes) (s : K.State) (d : Dirs) (m : FileType)
      → view s ≡ d
      → d.kind path ≡ some m
      → (info : Stat) × (K.lstat path s ≡ some info) × (info.mode ≡ m)
  pub unlink :
      (path : Bytes) (s : K.State) (d : Dirs) (m : FileType)
      → view s ≡ d
      → d.kind path ≡ some m
      → m ≢ directory
      → ((K.unlink path s).0 ≡ true)
        × (view (K.unlink path s).1 ≡ record { kind = gone path d.kind; streams = d.streams })
  pub rmdir :
      (path : Bytes) (s : K.State) (d : Dirs)
      → view s ≡ d
      → d.kind path ≡ some directory
      → ((name : Bytes) → is_dots name ≡ false → d.kind (child_path path name) ≡ none)
      → ((K.rmdir path s).0 ≡ true)
        × (view (K.rmdir path s).1 ≡ record { kind = gone path d.kind; streams = d.streams })
  pub rmdir_any :
      (path : Bytes) (s : K.State) (d : Dirs)
      → view s ≡ d
      → (view (K.rmdir path s).1 ≡ d)
        ⊎ (view (K.rmdir path s).1 ≡ record { kind = gone path d.kind; streams = d.streams })
  pub opendir :
      (path : Bytes) (s : K.State) (d : Dirs)
      → view s ≡ d
      → d.kind path ≡ some directory
      → (dir : ℕ) × (ns : List Bytes) × ((K.opendir path s).0 ≡ some dir)
        × (d.streams dir ≡ none)
        × (view (K.opendir path s).1 ≡ with_stream dir (some ns) d)
        × (length ns ≤ width)
        × ((name : Bytes)
            → is_dots name ≡ false
            → d.kind (child_path path name) ≢ none
            → In name ns)
  pub readdir_end :
      (dir : ℕ) (s : K.State) (d : Dirs)
      → view s ≡ d
      → d.streams dir ≡ some []
      → ((K.readdir dir s).0 ≡ none) × (view (K.readdir dir s).1 ≡ d)
  pub readdir_next :
      (dir : ℕ) (s : K.State) (name : Bytes) (rest : List Bytes) (d : Dirs)
      → view s ≡ d
      → d.streams dir ≡ some (name ∷ rest)
      → ((K.readdir dir s).0 ≡ some name)
        × (view (K.readdir dir s).1 ≡ with_stream dir (some rest) d)
  pub closedir : (dir : ℕ) (s : K.State) → view (K.closedir dir s) ≡ with_stream dir none (view s)

-- At a path or below it.
abbrev pub Under : (path x : Bytes) → Type 0
Under path x = (x ≡ path) ⊎ ((rest : Bytes) × (x ≡ child_path path rest))

-- Directories are nested `n` deep at most.
abbrev pub HasHeight : ℕ → Bytes → Kinds → Type 0
HasHeight zero path k = k path ≢ some directory
HasHeight (suc n) path k =
    (name : Bytes) → is_dots name ≡ false → HasHeight n (child_path path name) k

-- Nothing appears and nothing changes its kind.
abbrev pub Shrinks : (k k' : Kinds) → Type 0
Shrinks k k' = (x : Bytes) → (k' x ≡ none) ⊎ (k' x ≡ k x)

-- Only what is under the path may change.
abbrev pub Keeps : (path : Bytes) → (k k' : Kinds) → Type 0
Keeps path k k' = (x : Bytes) → ¬ Under path x → k' x ≡ k x

-- Rounds that are enough.
abbrev pub rounds : (width n : ℕ) → ℕ
rounds width zero = 1
rounds width (suc n) = width + 2 + rounds width n

pub Shrinks-trans : (k k₁ k₂ : Kinds) → Shrinks k k₁ → Shrinks k₁ k₂ → Shrinks k k₂
Shrinks-trans k k₁ k₂ first second x = elim (second x) [
  | inl e ↦ inl e
  | inr e ↦ elim (first x) [ inl e' ↦ inl (e ∙ e') | inr e' ↦ inr (e ∙ e') ]
]

pub Shrinks-none : (k k' : Kinds) (x : Bytes) → Shrinks k k' → k x ≡ none → k' x ≡ none
Shrinks-none k k' x shrinks e = elim (shrinks x) [ inl e' ↦ e' | inr e' ↦ e' ∙ e ]

pub HasHeight-Shrinks :
    (n : ℕ) (path : Bytes) (k k' : Kinds) → Shrinks k k' → HasHeight n path k → HasHeight n path k'
HasHeight-Shrinks zero path k k' shrinks high =
    λ e. elim (shrinks path) [ inl e' ↦ cc | inr e' ↦ high (sym e' ∙ e) ]
HasHeight-Shrinks (suc n) path k k' shrinks high =
    λ name plain. HasHeight-Shrinks n (child_path path name) k k' shrinks (high name plain)

pub Under-child : (path name x : Bytes) → Under (child_path path name) x → Under path x
Under-child path name x (inl e) = inr (name, e)
Under-child path name x (inr (rest, e)) =
    inr (child_path name rest, e ∙ append_assoc path (codes "/" ++ name) (codes "/" ++ rest))

-- A directory is not under its entries.
pub not-Under-child : (path name : Bytes) → ¬ Under (child_path path name) path
not-Under-child path name (inl e) =
    omega (arith, ap length e, length-append path (codes "/" ++ name))
not-Under-child path name (inr (rest, e)) = omega (
  arith,
  ap length e,
  length-append (child_path path name) (codes "/" ++ rest),
  length-append path (codes "/" ++ name),
)

pub gone_self : (path : Bytes) (k : Kinds) → gone path k path ≡ none
unfolding gone
gone_self path k = rw (str_eq_refl path) refl

pub gone-Shrinks : (path : Bytes) (k : Kinds) → Shrinks k (gone path k)
unfolding gone
gone-Shrinks path k x =
    (elim (str_eq x path)
      as (λ b. ((if b then none else k x) ≡ none) ⊎ ((if b then none else k x) ≡ k x)) [
        | true ↦ inl refl
        | false ↦ inr refl
      ])

pub gone-Keeps : (path : Bytes) (k : Kinds) → Keeps path k (gone path k)
unfolding gone
gone-Keeps path k x outside = elim (Bool-cases (str_eq x path)) [
  | inl same ↦ absurd (outside (inl (str_eq_sound x path same)))
  | inr other ↦ rw other refl
]

pub Keeps-trans :
    (path : Bytes) (k k₁ k₂ : Kinds) → Keeps path k k₁ → Keeps path k₁ k₂ → Keeps path k k₂
Keeps-trans path k k₁ k₂ first second x outside = second x outside ∙ first x outside

pub Keeps-child :
    (path name : Bytes) (k k' : Kinds) → Keeps (child_path path name) k k' → Keeps path k k'
Keeps-child path name k k' keeps x outside =
    keeps x (λ under. outside (Under-child path name x under))
