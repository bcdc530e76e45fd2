-- ===== src/Fsutil/Atomic.antt =====
-- `WriteFileAtomic` replaces the whole file or leaves it as it was.
use weave_fs.Base.{All-append}
use weave_fs.Base.{
  some, Bytes, Text, length, ◌≡◌, ◌≢◌, ◌⊎◌, ◌++◌, ◌∷◌, [], arith, codes, ap, append_assoc,
  length-append,
}
use weave_fs.Exec.{FilePath, Error, Result, ok, err, World}
use weave_fs.Disk.{mkdir_all, write_file, rename, dir}
use weave_fs.Strings.{slash}
use weave_fs.Strings.Laws.{Lacks, split_of_Lacks}
use weave_fs.Disk.Files.{append_left_injective}
use weave_fs.Disk.Resolve.{IsPlain, resolve-append}
use weave_fs.Disk.Resolve.{resolve}
use weave_fs.Disk.Files.{
  mkdir_all-files, write_file_others, write_file_ok, rename_atomic, rename_others, remove_others,
}
use weave_fs.Fsutil.{tmp_path, write_file_atomic}

-- What a replacement has done, by how it ended: everything and no error, or an error and nothing.
abbrev pub Replaced : Text → Bytes → World → Result (Unit {0}) × World → Type 0
Replaced path b w (r, w') =
    ((r ≡ ok tt) × (w'.files (resolve path) ≡ some b))
    ⊎ ((e : Error) × (r ≡ err e) × (w'.files (resolve path) ≡ w.files (resolve path)))

-- However an atomic write ends, and whatever faults it meets: with no error the file holds the new
-- bytes, and with an error it is as it was before. The sibling that is written first must be
-- another file.
pub write_file_atomic_lem :
    (path : Text) (b : Bytes) (w : World)
    → resolve (tmp_path path) ≢ resolve path
    → Replaced path b w (write_file_atomic path b w)
unfolding write_file_atomic
write_file_atomic_lem path b w h =
    let w1 = (mkdir_all (dir path) w).1 in
    let w2 = (write_file (tmp_path path) b w1).1 in
    let w3 = (rename (tmp_path path) path w2).1 in
    ground (
      arith,
      mkdir_all-files (dir path) w,
      write_file_others (tmp_path path) b w1 (resolve path) h,
      write_file_ok (tmp_path path) b w1,
      rename_atomic (tmp_path path) path w2 h,
      remove_others (tmp_path path) w3 (resolve path) h,
    )

pub write_file_atomic_others :
    (path : Text) (b : Bytes) (w : World) (q : FilePath)
    → resolve (tmp_path path) ≢ q
    → resolve path ≢ q
    → (write_file_atomic path b w).1.files q ≡ w.files q
unfolding write_file_atomic
write_file_atomic_others path b w q h g =
    let w1 = (mkdir_all (dir path) w).1 in
    let w2 = (write_file (tmp_path path) b w1).1 in
    let w3 = (rename (tmp_path path) path w2).1 in
    ground (
      arith,
      mkdir_all-files (dir path) w,
      write_file_others (tmp_path path) b w1 q h,
      rename_others (tmp_path path) path w2 q h g,
      remove_others (tmp_path path) w3 q h,
    )

longer : (s : Text) → s ++ codes ".tmp" ≢ s
longer s e = omega (arith, ap length e, length-append {0} s (codes ".tmp"))

longer-IsPlain : (s : Text) → IsPlain (s ++ codes ".tmp")
longer-IsPlain s = (
  λ e. omega (arith, ap length e, length-append {0} s (codes ".tmp")),
  λ e. omega (arith, ap length e, length-append {0} s (codes ".tmp")),
  λ e. omega (arith, ap length e, length-append {0} s (codes ".tmp")),
)

-- A file with a plain name, in any folder, is not the sibling that is written first.
pub tmp_path-ne :
    (folder name : Text)
    → IsPlain name
    → Lacks slash name
    → resolve (tmp_path (folder ++ (slash ∷ name))) ≢ resolve (folder ++ (slash ∷ name))
tmp_path-ne folder name plain flat =
    rw
      (
        append_assoc folder (slash ∷ name) (codes ".tmp"),
        resolve-append folder (name ++ codes ".tmp") ((name ++ codes ".tmp") ∷ [])
            (split_of_Lacks slash (name ++ codes ".tmp")
              (All-append (λ c. c ≢ slash) name (codes ".tmp") flat (omega arith)))
            (longer-IsPlain name, tt),
        resolve-append folder name (name ∷ []) (split_of_Lacks slash name flat) (plain, tt),
      )
      (λ e. longer name (cc (append_left_injective (resolve folder) _ _ e)))
