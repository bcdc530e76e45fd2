-- ===== src/Node/Identity/Laws.antt =====
-- A node keeps its identity over a restart.
use weave_fs.Base.{Option, none, some, Bytes, Text, ◌≡◌, ◌≢◌, refl, arith, ap, ◌∙◌, sym, inl, inr}
use weave_fs.Exec.{Error, not_exist, Result, ok, err, World, calm}
use weave_fs.Exec.Laws.{Exec-cases, >>=-eq-ok, >>-pure-eq-ok, ok-injective}
use weave_fs.Disk.{read_file}
use weave_fs.Disk.Resolve.{resolve}
use weave_fs.Disk.Files.{read_file_calm, read_file_ok, read_file-files}
use weave_fs.Fsutil.{tmp_path, write_file_atomic}
use weave_fs.Fsutil.Atomic.{write_file_atomic_lem, tmp_path-ne}
use weave_fs.Node.Identity.{
  Keys, IsFaithful, identity_file_name, identity_path, marshalled, key_in, create_identity,
  after_read, load_or_create_identity,
}

identity_path-ne :
    (data_dir : Text)
    → resolve (tmp_path (identity_path data_dir)) ≢ resolve (identity_path data_dir)
identity_path-ne data_dir = tmp_path-ne data_dir identity_file_name (ground arith) (omega arith)

module _ {Key : Type 0} (keys : Keys Key) (faithful : IsFaithful keys) (data_dir : Text) where
  -- The file is there, and reads as the key.
  Saves : Key → World → Type 0
  Saves k w =
      (b : Bytes) × (w.files (resolve (identity_path data_dir)) ≡ some b)
      × (keys.unmarshal b ≡ some k)

  load_saved :
      (k : Key) (w : World)
      → Saves k w
      → load_or_create_identity keys data_dir (calm w) ≡ (ok k, calm w)
  unfolding load_or_create_identity after_read key_in Saves
  load_saved k w (b, file, reads) =
      rw (read_file_calm (identity_path data_dir) (calm w) b refl file, reads)

  printed :
      (o : Option Bytes) (b : Bytes) (w1 w2 : World)
      → marshalled keys o w1 ≡ (ok b, w2)
      → o ≡ some b
  unfolding marshalled
  printed none b w1 w2 e = absurd (cc e)
  printed (some x) b w1 w2 e = ap some (ok-injective (ap (λ y. y.0) e))

  known : (o : Option Key) (k : Key) → key_in keys o ≡ ok k → o ≡ some k
  unfolding key_in
  known none k e = absurd (cc e)
  known (some x) k e = ap some (ok-injective e)

  create_identity-Saves :
      (w w' : World) (k : Key)
      → create_identity keys (identity_path data_dir) w ≡ (ok k, w')
      → Saves k w'
  unfolding create_identity Saves
  create_identity-Saves w w' k h =
      let (priv, w1, e1, h1) = >>=-eq-ok keys.generate _ w k w' h in
      let (b, w2, e2, h2) = >>=-eq-ok (marshalled keys (keys.marshal priv)) _ w1 k w' h1 in
      let (same, wrote) =
        >>-pure-eq-ok (write_file_atomic (identity_path data_dir) b) priv w2 k w' h2 in
      elim (write_file_atomic_lem (identity_path data_dir) b w2 (identity_path-ne data_dir)) [
        | inl done ↦ (
          b,
          (rw wrote at done.1),
          (faithful.unmarshal-marshal priv b (printed (keys.marshal priv) b w1 w2 e2)
              ∙ ap some same),
        )
        | inr (x, failed, _) ↦ absurd (cc (rw wrote at failed))
      ]

  found :
      (w w1 w' : World) (b : Bytes) (k : Key)
      → read_file (identity_path data_dir) w ≡ (ok b, w1)
      → after_read keys (identity_path data_dir) (ok b) w1 ≡ (ok k, w')
      → Saves k w'
  unfolding after_read key_in Saves
  found w w1 w' b k e h = (
    b,
    ap (λ (y : Result Key × World). y.1.files (resolve (identity_path data_dir))) (sym h)
        ∙ ap (λ f. f (resolve (identity_path data_dir)))
            (rw e at (read_file-files (identity_path data_dir) w))
        ∙ read_file_ok (identity_path data_dir) w w1 b e,
    known (keys.unmarshal b) k (ap (λ y. y.0) h),
  )

  after_read_fresh :
      (w w' : World) (e : Error) (k : Key)
      → after_read keys (identity_path data_dir) (err e) w ≡ (ok k, w')
      → create_identity keys (identity_path data_dir) w ≡ (ok k, w')
  unfolding after_read
  after_read_fresh w w' not_exist k h = h
  after_read_fresh w w' _ k h = cc

  -- An identity that was loaded or made, whatever faults came, is in its file.
  load_or_create_identity-Saves :
      (w w' : World) (k : Key) → load_or_create_identity keys data_dir w ≡ (ok k, w') → Saves k w'
  unfolding load_or_create_identity
  load_or_create_identity-Saves w w' k h =
      elim (Exec-cases (read_file (identity_path data_dir)) w) [
        | inl (b, w1, e) ↦
            found w w1 w' b k e
              (sym (ap (λ x. after_read keys (identity_path data_dir) x.0 x.1) e) ∙ h)
        | inr (x, w1, e) ↦ create_identity-Saves w1 w' k (
            after_read_fresh w1 w' x k
              (sym (ap (λ x. after_read keys (identity_path data_dir) x.0 x.1) e) ∙ h))
      ]

  -- It loads again as the same key from any machine with that file, when no fault comes.
  pub load_or_create_identity_stable :
      (w w' v : World) (k : Key)
      → load_or_create_identity keys data_dir w ≡ (ok k, w')
      → v.files (resolve (identity_path data_dir)) ≡ w'.files (resolve (identity_path data_dir))
      → load_or_create_identity keys data_dir (calm v) ≡ (ok k, calm v)
  unfolding Saves
  load_or_create_identity_stable w w' v k h same =
      let (b, file, reads) = load_or_create_identity-Saves w w' k h in
      load_saved k v (b, same ∙ file, reads)
