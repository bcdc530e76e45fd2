-- ===== src/Cli/Inspect.antt =====
-- cmd/weavefs/main.go: what the demo shows of a blob that a custodian keeps. Folders are not part of
-- the machine, so what `filepath.WalkDir` meets under a folder is a tree of its own, in the order of
-- the walk.
pub mod Blobs
use weave_fs.Base.{
  ℕ, Bool, true, false, not, Option, none, some, List, [], ◌∷◌, ◌++◌, Bytes, Text, codes, take,
  ◌==◌, nat_eq, list_eq, ◌&&◌, ◌||◌, if◌then◌else◌, ◌≡◌, ◌≢◌, ◌⊎◌, inl, inr, refl, sym, ◌∙◌, ap,
  arith, eq_iff, Bool-cases,
}
use weave_fs.Strings.{slash}
use weave_fs.Hex.{encode}
use weave_fs.Exec.{Error, Result, ok, err, World, Exec, pure, ◌>>=◌}
use weave_fs.Disk.{read_file}
use weave_fs.Crypto.Aes.{magic}
use weave_fs.Cli.Format.{sanitise}

mutual
  pub data Tree : Type 0 where
    file unreadable : Tree
    folder : Folder → Tree

  pub data Folder : Type 0 where
    no_more : Folder
    entry : Text → Tree → Folder → Folder

-- How a walk ended: it was stopped at a file, it met all, or a folder could not be listed.
pub data Walked : Type 0 where
  stopped_at : Text → Walked
  met_all failed : Walked

abbrev index_folder : Text
index_folder = codes ".vindex"

abbrev or_else : Walked → Walked → Walked
or_else met_all later = later
or_else earlier later = earlier

-- A folder is seen before it is listed, and `SkipDir` leaves it out.
unfoldable mutual
  pub walk : Text → Text → Tree → Walked
  walk path name file = stopped_at path
  walk path name unreadable = if name == index_folder then met_all else failed
  walk path name (folder f) =
      let inside = walk_folder path f in if name == index_folder then met_all else inside

  pub walk_folder : Text → Folder → Walked
  walk_folder path no_more = met_all
  walk_folder path (entry name t f) =
      or_else (walk (path ++ (slash ∷ name)) name t) (walk_folder path f)

pub data BlobPath : Type 0 where
  blob_at : Text → BlobPath
  no_blob cannot_walk : BlobPath

path_of : Walked → BlobPath
path_of (stopped_at p) = if p == [] then no_blob else blob_at p
path_of met_all = no_blob
path_of failed = cannot_walk

-- The tree under a folder, or none where the folder is not there.
unfoldable pub first_blob_path : Text → Text → Option Tree → BlobPath
unfolding path_of walk
first_blob_path dir name none = cannot_walk
first_blob_path dir name (some t) = path_of (walk dir name t)

read_at_most : Text → ℕ → Exec Bytes
read_at_most path limit = do b ← read_file path; pure (take limit b)

-- `bytes.HasPrefix`.
has_prefix : Bytes → Bytes → Bool
has_prefix b [] = true
has_prefix [] (y ∷ part) = false
has_prefix (x ∷ b) (y ∷ part) = x == y && has_prefix b part

-- `bytes.Contains`.
contains : Bytes → Bytes → Bool
unfolding has_prefix
contains [] part = has_prefix [] part
contains (x ∷ b) part = has_prefix (x ∷ b) part || contains b part

abbrev demo_payload : Bytes
demo_payload = codes "weaveFS: distributed storage, one node at a time"

-- What is printed of a blob, or why there is none to print.
pub data Shown : Type 0 where
  shown : Text → Bytes → Text → Bool → Bool → Shown
  not_shown : BlobPath → Shown

show_blob : BlobPath → Exec Shown
unfolding read_at_most contains sanitise
show_blob (blob_at path) = do
  raw ← read_at_most path 48
  pure (
      shown path (encode raw) (sanitise raw) (has_prefix raw (codes "WFS1"))
        (contains raw demo_payload))
show_blob why = pure (not_shown why)

-- `met` is what a walk meets under a path.
unfoldable pub show_custodian_blob : (Text → Option Tree) → Text → Text → Exec Shown
unfolding show_blob first_blob_path
show_custodian_blob met custodian_dir origin =
    let dir = custodian_dir ++ (slash ∷ origin) in show_blob (first_blob_path dir origin (met dir))
