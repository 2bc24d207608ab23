-- ===== src/FileSystem/Query/Folder.antt =====
-- About `fs_make_directory` and `fs_is_directory`.
use mathlib.Core.Path.{subst}
use kira_zig.Common.{
  ◌≡◌, ◌⊎◌, inl, inr, refl, sym, ap, ◌∙◌, Bool, true, false, some, Bytes, Bool-cases,
}
use kira_zig.FileSystem.{MakeResult, made, already_exists, refused, System, Process, done}
use kira_zig.FileSystem.Rules.{Returns}
use kira_zig.FileSystem.Query.{is_dir, is_directory, make_answer, make_directory}

-- What `mkdir` promises.
pub record IsMkdir (K : System) : Type 0 where
  pub new :
      (path : Bytes) (s : K.State)
      → (K.mkdir path s).0 ≡ made
      → is_dir (K.stat path (K.mkdir path s).1) ≡ true
  pub old :
      (path : Bytes) (s : K.State)
      → (K.mkdir path s).0 ≡ already_exists
      → K.stat path (K.mkdir path s).1 ≡ K.stat path s
  pub again :
      (path : Bytes) (s : K.State)
      → is_dir (K.stat path s) ≡ true
      → (K.mkdir path s).0 ≡ already_exists

module _ (K : System) (is_mkdir : IsMkdir K) (path : Bytes) where
  -- With true the path is a directory, and making it again gives true. With false the kernel has
  -- refused, or something else stands there.
  abbrev pub Makes : (p : Process K.State) → Bool → Process K.State → Type 0
  Makes p b q =
      ((b ≡ true)
        × (is_directory K (some path) q ≡ done true q)
        × Returns (λ b' r. (b' ≡ true) × (is_directory K (some path) r ≡ done true r))
            (make_directory K (some path) q))
      ⊎ ((b ≡ false)
          × (((K.mkdir path p.kernel).0 ≡ refused) ⊎ (is_directory K (some path) q ≡ done false q)))

  is_directory-step :
      (q : Process K.State) (b : Bool)
      → is_dir (K.stat path q.kernel) ≡ b
      → is_directory K (some path) q ≡ done b q
  unfolding is_directory
  is_directory-step q b e = ap (λ b. done b q) e

  made_again :
      (q : Process K.State)
      → is_dir (K.stat path q.kernel) ≡ true
      → Returns
          (λ b' r. (b' ≡ true) × (is_directory K (some path) r ≡ done true r))
          (make_directory K (some path) q)
  unfolding make_directory
  made_again q e =
      let there = is_mkdir.again path q.kernel e in
      let r : Process K.State = record q { kernel = (K.mkdir path q.kernel).1 } in
      let still : is_dir (K.stat path r.kernel) ≡ true =
        ap is_dir (is_mkdir.old path q.kernel there) ∙ e in
      let Q = λ (b' : Bool) (r : Process K.State).
        (b' ≡ true) × (is_directory K (some path) r ≡ done true r) in
      subst (λ m. Returns Q (make_answer K path m r)) (sym there)
        (still, is_directory-step r true still)

  -- Where `fs_make_directory` gives true the path is a directory, and stays one when it is made again,
  -- with the result true. Where it gives false the kernel refused, or something that is no directory
  -- stands at the path.
  pub make_directory-Makes :
      (p : Process K.State) → Returns (Makes p) (make_directory K (some path) p)
  unfolding make_directory
  make_directory-Makes p = step (K.mkdir path p.kernel).0 refl
    where
      step :
          (m : MakeResult)
          → (K.mkdir path p.kernel).0 ≡ m
          → Returns
              (Makes p)
              (make_answer K path m (record p { kernel = (K.mkdir path p.kernel).1 }))
      step made e =
          let is = is_mkdir.new path p.kernel e in
          inl (
            refl,
            is_directory-step (record p { kernel = (K.mkdir path p.kernel).1 }) true is,
            made_again (record p { kernel = (K.mkdir path p.kernel).1 }) is,
          )
      step already_exists e =
          let q : Process K.State = record p { kernel = (K.mkdir path p.kernel).1 } in
          elim (Bool-cases (is_dir (K.stat path q.kernel))) [
            | inl is ↦ inl (is, is_directory-step q true is, made_again q is)
            | inr differs ↦ inr (differs, inr (is_directory-step q false differs))
          ]
      step refused e = inr (refl, inl e)
