-- ===== src/Disk/Live.antt =====
-- With no fault to come the calls of the operating system return a value.
use weave_fs.Base.{
  ℕ, ◌+◌, ◌≤◌, some, [], Bytes, Text, length, take, ◌≡◌, refl, arith, ◌∙◌, length-drop,
}
use weave_fs.Exec.{ignore, ok, World, Exec, pure, ◌>>=◌, ◌>>◌}
use weave_fs.Exec.Laws.{bind_ok}
use weave_fs.Disk.{
  on_error, remove, next_call, append, create, mkdir_all, read_random, write_file, rename,
  remove_all, dir,
}
use weave_fs.Disk.Resolve.{resolve}
use weave_fs.Disk.Files.{write_file_ok}
use weave_fs.Fsutil.{tmp_path, write_file_atomic}

-- The call returns a value, leaves no fault to come, and takes at most n random bytes.
pub record Succeeds {A : Type 0} (m : Exec A) (n : ℕ) (w : World) : Type 0 where
  pub value : A
  pub after : World
  pub ended : m w ≡ (ok value, after)
  pub calm : after.faults ≡ []
  pub left : length w.entropy ≤ length after.entropy + n

pub Succeeds-pure : {A : Type 0} (a : A) (w : World) → w.faults ≡ [] → Succeeds (pure a) 0 w
Succeeds-pure a w calm = record {
  value = a;
  after = w;
  ended = refl;
  calm = calm;
  left = omega arith;
}

pub Succeeds->>= :
    {A B : Type 0} (m : Exec A) (f : A → Exec B) (n k : ℕ) (w : World)
    → (s : Succeeds m n w) → Succeeds (f s.value) k s.after
    → Succeeds (m >>= f) (n + k) w
Succeeds->>= m f n k w s t = record {
  value = t.value;
  after = t.after;
  ended = bind_ok m f w s.after s.value s.ended ∙ t.ended;
  calm = t.calm;
  left = omega (arith, s.left, t.left);
}

pub Succeeds-mkdir_all : (path : Text) (w : World) → w.faults ≡ [] → Succeeds (mkdir_all path) 0 w
unfolding mkdir_all next_call
Succeeds-mkdir_all path w calm = record {
  value = tt;
  after = w;
  ended = ground arith;
  calm = calm;
  left = omega arith;
}

pub Succeeds-create : (path : Text) (w : World) → w.faults ≡ [] → Succeeds (create path) 0 w
unfolding create next_call
Succeeds-create path w calm = record {
  value = tt;
  after = (create path w).1;
  ended = ground arith;
  calm = ground arith;
  left = ground arith;
}

pub Succeeds-append :
    (path : Text) (b : Bytes) (w : World) → w.faults ≡ [] → Succeeds (append path b) 0 w
unfolding append next_call
Succeeds-append path b w calm = record {
  value = tt;
  after = (append path b w).1;
  ended = ground arith;
  calm = ground arith;
  left = ground arith;
}

pub Succeeds-read_random :
    (n : ℕ) (w : World) → w.faults ≡ [] → n ≤ length w.entropy → Succeeds (read_random n) n w
unfolding read_random
Succeeds-read_random n w calm enough = record {
  value = take n w.entropy;
  after = (read_random n w).1;
  ended = ground arith;
  calm = ground arith;
  left = ground (arith, length-drop {0} n w.entropy);
}

pub Succeeds-remove_all : (path : Text) (w : World) → w.faults ≡ [] → Succeeds (remove_all path) 0 w
unfolding remove_all next_call
Succeeds-remove_all path w calm = record {
  value = tt;
  after = (remove_all path w).1;
  ended = ground arith;
  calm = ground arith;
  left = ground arith;
}

Succeeds-write_file :
    (path : Text) (b : Bytes) (w : World) → w.faults ≡ [] → Succeeds (write_file path b) 0 w
unfolding write_file
Succeeds-write_file path b w calm =
    let made = Succeeds-create path w calm in
    Succeeds->>= (create path) (λ _. append path b) 0 0 w made
      (Succeeds-append path b made.after made.calm)

Succeeds-rename :
    (from to : Text) (w : World) (b : Bytes)
    → w.faults ≡ []
    → w.files (resolve from) ≡ some b
    → Succeeds (rename from to) 0 w
unfolding rename next_call
Succeeds-rename from to w b calm there = record {
  value = tt;
  after = (rename from to w).1;
  ended = ground arith;
  calm = ground arith;
  left = ground arith;
}

Succeeds-on_error :
    {A : Type 0} (m : Exec A) (cleanup : Exec (Unit {0})) (n : ℕ) (w : World)
    → Succeeds m n w
    → Succeeds (on_error m cleanup) n w
Succeeds-on_error m cleanup n w s = record {
  value = s.value;
  after = s.after;
  ended = rw (on_error, s.ended) (λ i. (ok s.value, (s.ended i).1));
  calm = s.calm;
  left = s.left;
}

pub Succeeds-write_file_atomic :
    (path : Text) (b : Bytes) (w : World) → w.faults ≡ [] → Succeeds (write_file_atomic path b) 0 w
unfolding write_file_atomic
Succeeds-write_file_atomic path b w calm =
    let folder = Succeeds-mkdir_all (dir path) w calm in
    let file = Succeeds-write_file (tmp_path path) b folder.after folder.calm in
    let there = rw file.ended at (write_file_ok (tmp_path path) b folder.after) in
    let cleanup = ignore (remove (tmp_path path)) in
    let replace = on_error (rename (tmp_path path) path) cleanup in
    Succeeds->>= (mkdir_all (dir path)) (λ _. write_file (tmp_path path) b >> replace) 0 0 w folder
      (Succeeds->>= (write_file (tmp_path path) b) (λ _. replace) 0 0 folder.after file
        (Succeeds-on_error (rename (tmp_path path) path) cleanup 0 file.after
          (Succeeds-rename (tmp_path path) path file.after b file.calm (there refl))))
