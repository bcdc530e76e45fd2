-- ===== src/Disk/Resolve.antt =====
-- How the operating system reads a path text. A leading slash is dropped: all paths of the
-- program start with the same root folder.
use mathlib.Core.List.{foldl, foldl-append}
use weave_fs.Base.{
  ◌||◌, List, [], ◌∷◌, ◌++◌, Text, ◌==◌, nat_eq, list_eq, if◌then◌else◌, All, codes, ◌≡◌, ◌≢◌,
  arith, eq_iff, append_assoc, append-nil,
}
use weave_fs.Strings.{slash, split}
use weave_fs.Strings.Laws.{split-append}
use weave_fs.Exec.{FilePath}

unfoldable pub drop_last : FilePath → FilePath
drop_last [] = []
drop_last (x ∷ []) = []
drop_last (x ∷ y ∷ p) = x ∷ drop_last (y ∷ p)

-- One name of the path: `.` and an empty name stay, `..` goes up.
walk_step : FilePath → Text → FilePath
unfolding drop_last
walk_step at name =
    if name == [] || name == codes "."
    then at
    else if name == codes ".."
    then drop_last at
    else at ++ (name ∷ [])

abbrev walk : FilePath → List Text → FilePath
walk = foldl walk_step

unfoldable pub resolve : Text → FilePath
unfolding walk_step
resolve path = walk [] (split slash path)

-- A name that names a child of the folder it is looked up in.
abbrev pub IsPlain : Text → Type 0
IsPlain name = (name ≢ []) × (name ≢ codes ".") × (name ≢ codes "..")

walk_step_of_IsPlain :
    (at : FilePath) (name : Text) → IsPlain name → walk_step at name ≡ at ++ (name ∷ [])
unfolding walk_step
walk_step_of_IsPlain at name h =
    ground (arith, eq_iff name [], eq_iff name (codes "."), eq_iff name (codes ".."))

walk-append : (names : List Text) (at : FilePath) → All IsPlain names → walk at names ≡ at ++ names
walk-append [] at h = rw append-nil
walk-append (x ∷ names) at h =
    rw (walk_step_of_IsPlain at x h.0, walk-append names (at ++ (x ∷ [])) h.1, append_assoc)

-- Plain names behind a path lead down from where the path leads.
pub resolve-append :
    (path rest : Text) (names : List Text)
    → split slash rest ≡ names
    → All IsPlain names
    → resolve (path ++ (slash ∷ rest)) ≡ resolve path ++ names
unfolding resolve
resolve-append path rest names e h = rw (split-append, e, foldl-append) (walk-append names _ h)
