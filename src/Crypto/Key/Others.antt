-- ===== src/Crypto/Key/Others.antt =====
-- Loading or making a node's key touches no file but its own.
use weave_fs.Base.{Bytes, Text, ◌≡◌, ◌≢◌, refl, ap, ◌∙◌, sym, inl, inr}
use weave_fs.Hex
use weave_fs.Exec.{FilePath, not_exist, Result, ok, err, World, pure, ◌>>◌}
use weave_fs.Exec.Laws.{Exec-cases}
use weave_fs.Disk.{read_file, read_random}
use weave_fs.Disk.Resolve.{resolve}
use weave_fs.Disk.Files.{read_file-files, read_random-files}
use weave_fs.Fsutil.{tmp_path, write_file_atomic}
use weave_fs.Fsutil.Atomic.{write_file_atomic_others}
use weave_fs.Crypto.Aes.{key_size}
use weave_fs.Crypto.Key.{key_path, create_key, after_read, load_or_create_key}

module _ (path : Text) (q : FilePath) (h : resolve (tmp_path path) ≢ q) (g : resolve path ≢ q) where
  saved_others :
      (key : Bytes) (w : World)
      → ((write_file_atomic path (Hex.encode key) >> pure key) w).1.files q ≡ w.files q
  saved_others key w = elim (Exec-cases (write_file_atomic path (Hex.encode key)) w) [
    | inl (u, w1, e) ↦
        rw e
          (ap (λ y. y.1.files q) (sym e) ∙ write_file_atomic_others path (Hex.encode key) w q h g)
    | inr (x, w1, e) ↦
        rw e
          (ap (λ y. y.1.files q) (sym e) ∙ write_file_atomic_others path (Hex.encode key) w q h g)
  ]

  create_key_others : (w : World) → (create_key path w).1.files q ≡ w.files q
  unfolding create_key
  create_key_others w = elim (Exec-cases (read_random key_size) w) [
    | inl (k, w1, e) ↦ rw e (
        saved_others k w1
        ∙ ap (λ y. y.1.files q) (sym e)
        ∙ ap (λ f. f q) (read_random-files key_size w))
    | inr (x, w1, e) ↦
        rw e (ap (λ y. y.1.files q) (sym e) ∙ ap (λ f. f q) (read_random-files key_size w))
  ]

  after_read_others : (r : Result Bytes) (w : World) → (after_read path r w).1.files q ≡ w.files q
  unfolding after_read
  after_read_others (ok b) w = refl
  after_read_others (err not_exist) w = create_key_others w
  after_read_others (err _) w = refl

pub load_or_create_key_others :
    (data_dir : Text) (w : World) (q : FilePath)
    → resolve (tmp_path (key_path data_dir)) ≢ q
    → resolve (key_path data_dir) ≢ q
    → (load_or_create_key data_dir w).1.files q ≡ w.files q
unfolding load_or_create_key
load_or_create_key_others data_dir w q h g =
    let (r, w1) = read_file (key_path data_dir) w in
    after_read_others (key_path data_dir) q h g r w1
    ∙ ap (λ f. f q) (read_file-files (key_path data_dir) w)
