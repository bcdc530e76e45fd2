-- ===== src/Disk/Files.antt =====
-- What each call leaves in the files, whatever the schedule of faults holds.
use weave_fs.Base.{
  ℕ, true, false, Option, none, some, [], ◌∷◌, ◌++◌, Bytes, Text, nat_eq, list_eq, ◌≡◌, ◌≢◌, ◌⊎◌,
  arith, eq_refl, eq_false,
}
use weave_fs.Exec.{FilePath, Error, ok, err, World}
use weave_fs.Disk.Resolve.{resolve}
use weave_fs.Disk.{
  next_call, read_file, create, append, write_file, rename, remove, remove_all, mkdir_all, update,
  is_prefix, read_random,
}

pub update_self :
    (f : FilePath → Option Bytes) (p : FilePath) (c : Option Bytes) → update f p c p ≡ c
update_self f p c = ground (arith, eq_refl p)

pub update_ne :
    (f : FilePath → Option Bytes) (p q : FilePath) (c : Option Bytes) → p ≢ q → update f p c q ≡ f q
update_ne f p q c h = ground (arith, eq_false p q h)

pub read_file-files : (path : Text) (w : World) → (read_file path w).1.files ≡ w.files
unfolding read_file
read_file-files path w = ground arith

pub mkdir_all-files : (path : Text) (w : World) → (mkdir_all path w).1.files ≡ w.files
unfolding mkdir_all
mkdir_all-files path w = ground arith

-- A write leaves every other file alone.
pub write_file_others :
    (path : Text) (b : Bytes) (w : World) (q : FilePath)
    → resolve path ≢ q
    → (write_file path b w).1.files q ≡ w.files q
unfolding write_file
write_file_others path b w q h = ground (arith, eq_false (resolve path) q h)

-- A write that reports no error has written everything.
pub write_file_ok :
    (path : Text) (b : Bytes) (w : World)
    → (write_file path b w).0 ≡ ok tt
    → (write_file path b w).1.files (resolve path) ≡ some b
unfolding write_file
write_file_ok path b w h = ground (arith, eq_refl (resolve path))

pub remove_others :
    (path : Text) (w : World) (q : FilePath)
    → resolve path ≢ q
    → (remove path w).1.files q ≡ w.files q
unfolding remove
remove_others path w q h = ground (arith, eq_false (resolve path) q h)

-- A rename moves the whole content, or changes nothing.
pub rename_atomic :
    (from to : Text) (w : World)
    → resolve from ≢ resolve to
    → (((rename from to w).0 ≡ ok tt)
        × ((rename from to w).1.files (resolve to) ≡ w.files (resolve from)))
      ⊎ ((e : Error) × ((rename from to w).0 ≡ err e) × ((rename from to w).1.files ≡ w.files))
unfolding rename
rename_atomic from to w h =
    ground (arith, eq_false (resolve from) (resolve to) h, eq_refl (resolve to))

pub rename_others :
    (from to : Text) (w : World) (q : FilePath)
    → resolve from ≢ q
    → resolve to ≢ q
    → (rename from to w).1.files q ≡ w.files q
unfolding rename
rename_others from to w q h g =
    ground (arith, eq_false (resolve from) q h, eq_false (resolve to) q g)

pub remove_all_others :
    (path : Text) (w : World) (q : FilePath)
    → is_prefix (resolve path) q ≡ false
    → (remove_all path w).1.files q ≡ w.files q
unfolding remove_all
remove_all_others path w q h = ground arith

pub create_others :
    (path : Text) (w : World) (q : FilePath)
    → resolve path ≢ q
    → (create path w).1.files q ≡ w.files q
unfolding create
create_others path w q h = ground (arith, eq_false (resolve path) q h)

pub create_ok :
    (path : Text) (w : World)
    → (create path w).0 ≡ ok tt
    → (create path w).1.files (resolve path) ≡ some []
unfolding create
create_ok path w h = ground (arith, eq_refl (resolve path))

pub append_others :
    (path : Text) (b : Bytes) (w : World) (q : FilePath)
    → resolve path ≢ q
    → (append path b w).1.files q ≡ w.files q
unfolding append
append_others path b w q h = ground (arith, eq_false (resolve path) q h)

pub append_ok :
    (path : Text) (b : Bytes) (w : World) (old : Bytes)
    → w.files (resolve path) ≡ some old
    → (append path b w).0 ≡ ok tt
    → (append path b w).1.files (resolve path) ≡ some (old ++ b)
unfolding append
append_ok path b w old o h = ground (arith, eq_refl (resolve path))

pub read_random-files : (n : ℕ) (w : World) → (read_random n w).1.files ≡ w.files
unfolding read_random
read_random-files n w = ground arith

-- A read with no fault to come yields the content.
pub read_file_calm :
    (path : Text) (w : World) (b : Bytes)
    → w.faults ≡ []
    → w.files (resolve path) ≡ some b
    → read_file path w ≡ (ok b, w)
unfolding read_file next_call
read_file_calm path w b calm e = ground arith

-- Below one folder, a path with another first name is not reached.
pub is_prefix-append :
    (at : FilePath) (x y : Text) (rest : FilePath)
    → x ≢ y
    → is_prefix (at ++ (x ∷ [])) (at ++ (y ∷ rest)) ≡ false
unfolding is_prefix
is_prefix-append [] x y rest h = ground (arith, eq_false x y h)
is_prefix-append (z ∷ at) x y rest h = ground (arith, eq_refl z, is_prefix-append at x y rest h)

pub is_prefix-append_self :
    (at : FilePath) (x : Text) (rest : FilePath)
    → is_prefix (at ++ (x ∷ [])) (at ++ (x ∷ rest)) ≡ true
unfolding is_prefix
is_prefix-append_self [] x rest = ground (arith, eq_refl x)
is_prefix-append_self (z ∷ at) x rest = ground (arith, eq_refl z, is_prefix-append_self at x rest)

pub append_left_injective : (at p q : FilePath) → at ++ p ≡ at ++ q → p ≡ q
append_left_injective [] p q e = e
append_left_injective (z ∷ at) p q e = append_left_injective at p q (cc)

-- A file that was read was there.
pub read_file_ok :
    (path : Text) (w w1 : World) (b : Bytes)
    → read_file path w ≡ (ok b, w1)
    → w.files (resolve path) ≡ some b
unfolding read_file
read_file_ok path w w1 b e = ground arith

pub read_file-entropy : (path : Text) (w : World) → (read_file path w).1.entropy ≡ w.entropy
unfolding read_file
read_file-entropy path w = ground arith

-- With no fault to come, nothing is left at or below a path that was removed.
pub remove_all_calm :
    (path : Text) (w : World) (q : FilePath)
    → w.faults ≡ []
    → is_prefix (resolve path) q ≡ true
    → (remove_all path w).1.files q ≡ none
unfolding remove_all next_call
remove_all_calm path w q calm h = ground arith
