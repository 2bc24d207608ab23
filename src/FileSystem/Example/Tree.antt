-- ===== src/FileSystem/Example/Tree.antt =====
-- The kernel with a directory is one as `fs_remove_path` expects it.
use mathlib.Core.Path.{subst}
use kira_zig.Common.{
  ℕ, ◌≡◌, ◌≢◌, inl, inr, refl, sym, ap, ◌∙◌, pos, Bool, true, false, Option, none, some, List, [],
  ◌∷◌, if◌then◌else◌, arith, length, Bytes, codes, str_eq, str_eq_sound, Bool-cases,
}
use kira_zig.FileSystem.{put, FileType, regular, directory}
use kira_zig.FileSystem.Disk.{IsAllocator}
use kira_zig.FileSystem.Listing.{is_dots}
use kira_zig.FileSystem.Remove.{child_path}
use kira_zig.FileSystem.Remove.Tree.{Kinds, Dirs, gone, with_stream, In, IsTree, HasHeight}
use kira_zig.FileSystem.Example.Laws.{free_of-fresh}
use kira_zig.FileSystem.Example.Little.{
  Folder, there, kind_in, streams_in, all_names, keep, remove_kind, info_of, next_of, little,
  dirs_of,
}
use kira_zig.FileSystem.Example.Streams.{set-put, none_yet, appended, inside}

pub little-IsAllocator : IsAllocator little
unfolding little
little-IsAllocator = record {
  malloc = λ h size a e. free_of-fresh (16 ∷ 32 ∷ 48 ∷ 64 ∷ 80 ∷ []) h a e;
  realloc_new = λ h size a e. cc;
  realloc_old = λ h old size a e. cc;
}

-- The three paths, and any other.
by_path :
    (P : Bytes → Type 0)
    → P (codes "d")
    → P (codes "d/a")
    → P (codes "d/b")
    → ((x : Bytes)
        → str_eq x (codes "d") ≡ false
        → str_eq x (codes "d/a") ≡ false
        → str_eq x (codes "d/b") ≡ false
        → P x)
    → (x : Bytes) → P x
by_path P top first second rest x = elim (Bool-cases (str_eq x (codes "d"))) [
  | inl e ↦ subst P (sym (str_eq_sound x (codes "d") e)) top
  | inr no_top ↦ elim (Bool-cases (str_eq x (codes "d/a"))) [
    | inl e ↦ subst P (sym (str_eq_sound x (codes "d/a") e)) first
    | inr no_first ↦ elim (Bool-cases (str_eq x (codes "d/b"))) [
      | inl e ↦ subst P (sym (str_eq_sound x (codes "d/b") e)) second
      | inr no_second ↦ rest x no_top no_first no_second
    ]
  ]
]

kept :
    (path own : Bytes) (b : Bool) (m : FileType)
    → there (keep path own b) m ≡ (if str_eq own path then none else there b m)
kept path own b m =
    (elim (str_eq own path)
      as (λ t. there (if t then false else b) m ≡ (if t then none else there b m)) [
        | true ↦ refl
        | false ↦ refl
      ])

remove_kind-gone :
    (path : Bytes) (s : Folder) → kind_in (remove_kind path s) ≡ gone path (kind_in s)
unfolding kind_in gone str_eq
remove_kind-gone path s = λ i x. pointwise x i
  where
    pointwise : (x : Bytes) → kind_in (remove_kind path s) x ≡ gone path (kind_in s) x
    pointwise =
        by_path (λ x. kind_in (remove_kind path s) x ≡ gone path (kind_in s) x)
          (kept path (codes "d") s.top directory) (kept path (codes "d/a") s.a regular)
          (kept path (codes "d/b") s.b regular)
          (λ x no_top no_first no_second.
            rw (no_top, no_first, no_second)
              (elim (str_eq x path)
                as (λ b. ◌≡◌ {A = Option FileType} none (if b then none else none)) [
                  | true ↦ refl
                  | false ↦ refl
                ]))

-- Only `d` is a directory, and it has the two files.
listed :
    (path name : Bytes) (s : Folder)
    → kind_in s path ≡ some directory
    → is_dots name ≡ false
    → kind_in s (child_path path name) ≢ none
    → In name all_names
unfolding kind_in str_eq
listed path name s =
    by_path
      (λ path.
        kind_in s path ≡ some directory
        → is_dots name ≡ false
        → kind_in s (child_path path name) ≢ none
        → In name all_names)
      (λ is plain found. elim (Bool-cases (str_eq name (codes "a"))) [
        | inl e ↦ inr (inr (inl (str_eq_sound name (codes "a") e)))
        | inr no_a ↦ elim (Bool-cases (str_eq name (codes "b"))) [
          | inl e ↦ inr (inr (inr (inl (str_eq_sound name (codes "b") e))))
          | inr no_b ↦ absurd (found (nothing s name no_a no_b))
        ]
      ])
      (λ is. absurd (not_file s.a is)) (λ is. absurd (not_file s.b is))
      (λ x no_top no_first no_second is. absurd (not_other x no_top no_first no_second is)) path
  where
    not_file : (b : Bool) → ¬ (there b regular ≡ some directory)
    not_file true e = cc
    not_file false e = cc

    nothing :
        (s : Folder) (name : Bytes)
        → str_eq name (codes "a") ≡ false
        → str_eq name (codes "b") ≡ false
        → (if str_eq name (codes "a")
            then there s.a regular
            else if str_eq name (codes "b")
            then there s.b regular
            else none)
          ≡ none
    nothing s name no_a no_b = rw (no_a, no_b) refl

    rest_kind :
        (x : Bytes)
        → str_eq x (codes "d") ≡ false
        → str_eq x (codes "d/a") ≡ false
        → str_eq x (codes "d/b") ≡ false
        → kind_in s x ≡ none
    rest_kind x no_top no_first no_second = rw (no_top, no_first, no_second) refl

    not_other :
        (x : Bytes)
        → str_eq x (codes "d") ≡ false
        → str_eq x (codes "d/a") ≡ false
        → str_eq x (codes "d/b") ≡ false
        → ¬ (kind_in s x ≡ some directory)
    not_other x no_top no_first no_second e = cc (sym (rest_kind x no_top no_first no_second) ∙ e)

changed :
    (path : Bytes) (s : Folder) (d : Dirs)
    → (let v : Dirs = record { kind = kind_in s; streams = streams_in s.streams } in v) ≡ d
    → (let v : Dirs = record {
      kind = kind_in (remove_kind path s);
      streams = streams_in s.streams;
    } in
        v)
      ≡ record { kind = gone path d.kind; streams = d.streams }
changed path s d e =
    ap (λ (k : Kinds). record { kind = k; streams = streams_in s.streams })
      (remove_kind-gone path s)
    ∙ ap (λ (d : Dirs). record { kind = gone path d.kind; streams = d.streams }) e

pub little-IsTree : IsTree little dirs_of 4
unfolding little dirs_of with_stream
little-IsTree = record {
  lstat_none = λ path s d e clear. ap info_of (ap (λ (d : Dirs). d.kind path) e ∙ clear);
  lstat_some = λ path s d m e found. (
    record { mode = m; size = pos 0 },
    ap info_of (ap (λ (d : Dirs). d.kind path) e ∙ found),
    refl,
  );
  unlink = λ path s d m e found file. (refl, changed path s d e);
  rmdir = λ path s d e found clear. (refl, changed path s d e);
  rmdir_any = λ path s d e. inr (changed path s d e);
  opendir = λ path s d e found. (
    length s.streams,
    all_names,
    refl,
    ap (λ (d : Dirs). d.streams (length s.streams)) (sym e) ∙ none_yet s.streams,
    ap (λ (t : ℕ → Option (List Bytes)). record { kind = kind_in s; streams = t })
          (appended s.streams)
        ∙ ap
            (λ (d : Dirs). record d { streams = put (length s.streams) (some all_names) d.streams })
            e,
    omega arith,
    λ name plain there_is.
        listed path name s (ap (λ (d : Dirs). d.kind path) e ∙ found) plain
          (λ clear. there_is (ap (λ (d : Dirs). d.kind (child_path path name)) (sym e) ∙ clear)),
  );
  readdir_end = λ dir s d e left.
      let at_dir : streams_in s.streams dir ≡ some [] = ap (λ (d : Dirs). d.streams dir) e ∙ left in
      (ap (λ o. (next_of dir o s).0) at_dir, ap (λ o. dirs_of (next_of dir o s).1) at_dir ∙ e);
  readdir_next = λ dir s name rest d e left.
      let at_dir : streams_in s.streams dir ≡ some (name ∷ rest) =
        ap (λ (d : Dirs). d.streams dir) e ∙ left in
      (
        ap (λ o. (next_of dir o s).0) at_dir,
        ap (λ o. dirs_of (next_of dir o s).1) at_dir
            ∙ ap (λ (t : ℕ → Option (List Bytes)). record { kind = kind_in s; streams = t })
                (set-put s.streams dir (some rest) (inl (inside s.streams dir at_dir)))
            ∙ ap (λ (d : Dirs). record d { streams = put dir (some rest) d.streams }) e,
      );
  closedir = λ dir s.
      ap (λ (t : ℕ → Option (List Bytes)). record { kind = kind_in s; streams = t })
        (set-put s.streams dir none (inr refl));
}

-- The directory is nested one deep.
pub low : (s : little.State) → HasHeight 1 (codes "d") (Dirs.kind (dirs_of s))
unfolding little dirs_of kind_in str_eq
low s name plain =
    (elim (str_eq name (codes "a"))
      as (λ b.
        (if b
          then there s.a regular
          else if str_eq name (codes "b")
          then there s.b regular
          else none)
        ≢ some directory) [
          | true ↦ file s.a
          | false ↦
              (elim (str_eq name (codes "b"))
                as (λ b. (if b then there s.b regular else none) ≢ some directory) [
                  | true ↦ file s.b
                  | false ↦ λ e. cc
                ])
        ])
  where
    file : (b : Bool) → there b regular ≢ some directory
    file true e = cc
    file false e = cc
