-- ===== src/FileSystem/Example/Streams.antt =====
-- The directory streams of the kernel with a directory, as a list.
use kira_zig.Common.{
  ℕ, zero, suc, ◌≡◌, ◌⊎◌, inl, inr, refl, sym, ap, ◌∙◌, true, false, Option, none, some, List, [],
  ◌∷◌, ◌++◌, if◌then◌else◌, ◌==◌, ltb, arith, length, get_or, set, Bytes,
}
use kira_zig.FileSystem.{put}
use kira_zig.FileSystem.Example.Little.{streams_in, all_names}

get_or-set :
    (ss : List (Option (List Bytes))) (i x : ℕ) (v : Option (List Bytes))
    → get_or (set ss i v) x none
      ≡ (if x == i then (if ltb i (length ss) then v else none) else get_or ss x none)
get_or-set [] i x v = ground arith
get_or-set (s ∷ ss) zero zero v = ground arith
get_or-set (s ∷ ss) zero (suc x) v = ground arith
get_or-set (s ∷ ss) (suc i) zero v = ground arith
get_or-set (s ∷ ss) (suc i) (suc x) v = ground (arith, get_or-set ss i x v)

get_or-append :
    (ss : List (Option (List Bytes))) (x : ℕ) (v : Option (List Bytes))
    → get_or (ss ++ v ∷ []) x none ≡ (if x == length ss then v else get_or ss x none)
get_or-append [] zero v = ground arith
get_or-append [] (suc x) v = ground arith
get_or-append (s ∷ ss) zero v = ground arith
get_or-append (s ∷ ss) (suc x) v = ground (arith, get_or-append ss x v)

get_or-past : (ss : List (Option (List Bytes))) → get_or ss (length ss) none ≡ none
get_or-past [] = refl
get_or-past (s ∷ ss) = get_or-past ss

get_or-inside :
    (ss : List (Option (List Bytes))) (i : ℕ) {ns : List Bytes}
    → get_or ss i none ≡ some ns
    → ltb i (length ss) ≡ true
get_or-inside [] i e = cc
get_or-inside (s ∷ ss) zero e = ground arith
get_or-inside (s ∷ ss) (suc i) e = ground (arith, get_or-inside ss i e)

-- The streams after a change at one of them.
pub set-put :
    (ss : List (Option (List Bytes))) (i : ℕ) (v : Option (List Bytes))
    → ((ltb i (length ss) ≡ true) ⊎ (v ≡ none))
    → streams_in (set ss i v) ≡ put i v (streams_in ss)
unfolding streams_in put
set-put ss i v fits = λ j x. (get_or-set ss i x v ∙ shown x fits) j
  where
    shown :
        (x : ℕ)
        → ((ltb i (length ss) ≡ true) ⊎ (v ≡ none))
        → (if x == i then (if ltb i (length ss) then v else none) else get_or ss x none)
          ≡ (if x == i then v else get_or ss x none)
    shown x (inl e) = ap (λ b. if x == i then (if b then v else none) else get_or ss x none) e
    shown x (inr e) =
        (elim (ltb i (length ss))
          as (λ b.
            (if x == i then (if b then v else none) else get_or ss x none)
            ≡ (if x == i then v else get_or ss x none)) [
              | true ↦ refl
              | false ↦ ap (λ v. if x == i then v else get_or ss x none) (sym e)
            ])

pub none_yet : (ss : List (Option (List Bytes))) → streams_in ss (length ss) ≡ none
unfolding streams_in
none_yet ss = get_or-past ss

pub appended :
    (ss : List (Option (List Bytes)))
    → streams_in (ss ++ some all_names ∷ []) ≡ put (length ss) (some all_names) (streams_in ss)
unfolding streams_in put
appended ss = λ i x. get_or-append ss x (some all_names) i

pub inside :
    (ss : List (Option (List Bytes))) (i : ℕ) {ns : List Bytes}
    → streams_in ss i ≡ some ns
    → ltb i (length ss) ≡ true
unfolding streams_in
inside ss i e = get_or-inside ss i e
