-- ===== src/Disk.antt =====
-- The calls of Go's `os` and `io` packages that the program makes. Folders are not kept: a file
-- is there or not, and a folder in the way of a file is one of the faults that `World` schedules.
-- Permissions are left out.
pub mod Resolve
pub mod Files
pub mod Live
use weave_fs.Base.{
  ℕ, suc, ◌≤◌, Bool, true, false, ◌&&◌, Option, none, some, List, [], ◌∷◌, ◌++◌, Bytes, Text, ltb,
  length, take, drop, ◌==◌, nat_eq, list_eq, if◌then◌else◌,
}
use weave_fs.Exec.{
  FilePath, Error, not_exist, io_fault, read_fault, no_entropy, Result, ok, err, World, Exec, pure,
  raise, ◌>>=◌, ◌>>◌,
}
use weave_fs.Strings.{slash, split, join}
use weave_fs.Disk.Resolve.{resolve, drop_last}

-- Is the first path the second, or a folder that holds it?
unfoldable pub is_prefix : FilePath → FilePath → Bool
is_prefix [] q = true
is_prefix (x ∷ p) [] = false
is_prefix (x ∷ p) (y ∷ q) = x == y && is_prefix p q

abbrev pub update : (FilePath → Option Bytes) → FilePath → Option Bytes → FilePath → Option Bytes
update files p content q = if p == q then content else files q

-- Changes one file.
abbrev pub put_file : FilePath → Option Bytes → World → World
put_file p content w = record w { files = update w.files p content }

-- The files under a path whose names run deeper than n are gone.
abbrev pub drop_below : FilePath → ℕ → World → World
drop_below p n w = record w {
  files = λ q. if is_prefix p q && ltb n (length q) then none else w.files q;
}

-- How the next call ends.
take_fault : List (Option ℕ) → Exec (Option ℕ)
take_fault [] w = (ok none, w)
take_fault (f ∷ faults) w = (ok f, record w { faults = faults })

unfoldable pub next_call : Exec (Option ℕ)
unfolding take_fault
next_call w = take_fault w.faults w

-- `os.ReadFile`, and `os.Open` followed by reading it all.
unfoldable pub read_file : Text → Exec Bytes
unfolding next_call resolve
read_file path = do
  fault ← next_call
  λ w. elim fault [
    | some n ↦ (err io_fault, w)
    | none ↦ (elim (w.files (resolve path)) [ none ↦ err not_exist | some b ↦ ok b ], w)
  ]

-- `os.Create`: the file is there and empty.
unfoldable pub create : Text → Exec (Unit {0})
unfolding next_call resolve
create path = do
  fault ← next_call
  λ w. elim fault [
    | some n ↦ (err io_fault, w)
    | none ↦ (ok tt, put_file (resolve path) (some []) w)
  ]

content : Option Bytes → Bytes
content none = []
content (some b) = b

-- `Write` on an open file, at its end. A failed write has written n bytes.
unfoldable pub append : Text → Bytes → Exec (Unit {0})
unfolding next_call resolve content
append path b = do
  fault ← next_call
  λ w.
      let old = content (w.files (resolve path)) in
      elim fault [
        | some n ↦ (err io_fault, put_file (resolve path) (some (old ++ take n b)) w)
        | none ↦ (ok tt, put_file (resolve path) (some (old ++ b)) w)
      ]

-- `os.WriteFile`, which is no single step: it creates the file and then fills it.
unfoldable pub write_file : Text → Bytes → Exec (Unit {0})
unfolding create append
write_file path b = do create path; append path b

-- `os.Rename`, which is a single step.
unfoldable pub rename : Text → Text → Exec (Unit {0})
unfolding next_call resolve
rename from to = do
  fault ← next_call
  λ w. elim fault [
    | some n ↦ (err io_fault, w)
    | none ↦ elim (w.files (resolve from)) [
      | none ↦ (err not_exist, w)
      | some b ↦ (ok tt, put_file (resolve to) (some b) (put_file (resolve from) none w))
    ]
  ]

-- `os.Remove`.
unfoldable pub remove : Text → Exec (Unit {0})
unfolding next_call resolve
remove path = do
  fault ← next_call
  λ w. elim fault [
    | some n ↦ (err io_fault, w)
    | none ↦ elim (w.files (resolve path)) [
      | none ↦ (err not_exist, w)
      | some b ↦ (ok tt, put_file (resolve path) none w)
    ]
  ]

-- `os.RemoveAll`, which goes from the deepest names upwards, and does not mind that nothing is
-- there. A failed call has removed the names deeper than n.
unfoldable pub remove_all : Text → Exec (Unit {0})
unfolding next_call resolve is_prefix
remove_all path = do
  fault ← next_call
  λ w. elim fault [
    | some n ↦ (err io_fault, drop_below (resolve path) n w)
    | none ↦
        (ok tt, record w { files = λ q. if is_prefix (resolve path) q then none else w.files q })
  ]

-- `filepath.Dir`: all but the last name.
unfoldable pub dir : Text → Text
unfolding drop_last
dir path = join slash (drop_last (split slash path))

-- `os.MkdirAll`.
unfoldable pub mkdir_all : Text → Exec (Unit {0})
unfolding next_call
mkdir_all path = do
  fault ← next_call
  λ w. elim fault [ some n ↦ (err io_fault, w) | none ↦ (ok tt, w) ]

-- `os.Stat`, for the length of a file.
unfoldable pub stat : Text → Exec ℕ
unfolding read_file
stat path = do b ← read_file path; pure (length b)

-- `io.ReadFull(rand.Reader, b)` for n bytes.
unfoldable pub read_random : ℕ → Exec Bytes
read_random n w =
    if ltb (length w.entropy) n
    then (err no_entropy, w)
    else (ok (take n w.entropy), record w { entropy = drop n w.entropy })

-- `time.Now()`.
unfoldable pub time_now : Exec ℕ
time_now w = (ok w.now, w)

-- Cleans up if the call fails; its error stays the error.
abbrev pub on_error : {A : Type 0} → Exec A → Exec (Unit {0}) → Exec A
on_error m cleanup w =
    let (r, w') = m w in elim r [ ok a ↦ (ok a, w') | err e ↦ (err e, (cleanup w').1) ]

-- A reader: the bytes that it yields, and whether an error stands where the end should be.
pub record Reader : Type 0 where
  pub bytes : Bytes
  pub fails : Bool

-- A reader over bytes at hand.
abbrev pub reader_of : Bytes → Reader
reader_of b = record { bytes = b; fails = false }

abbrev pub Writer : Type 0
Writer = Bytes → Exec (Unit {0})

-- `io.Copy`: all bytes go to the writer, and the count is what was read.
unfoldable pub io_copy : Writer → Reader → Exec ℕ
io_copy dst r = do dst r.bytes; λ w. (if r.fails then err read_fault else ok (length r.bytes), w)

-- `io.ReadFull` for n bytes, with the reader that is left.
unfoldable pub read_full : ℕ → Reader → Result (Bytes × Reader)
read_full n r =
    if ltb (length r.bytes) n
    then err Error.short_read
    else ok (take n r.bytes, record r { bytes = drop n r.bytes })

-- `io.LimitReader(r, n)`: it ends after n bytes, and meets an error only if that comes earlier.
unfoldable pub limit_reader : Reader → ℕ → Reader
limit_reader r n = record { bytes = take n r.bytes; fails = r.fails && ltb (length r.bytes) n }
