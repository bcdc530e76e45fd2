-- ===== src/Node/Identity.antt =====
-- internal/node/identity.go: the key file that makes a node the same node after a restart.
pub mod Laws
use weave_fs.Base.{
  ℕ, Option, none, some, ◌++◌, ◌∷◌, [], Bytes, Text, codes, ◌≡◌, ◌≢◌, refl, arith, ap, ◌∙◌, sym,
  subst, inl, inr,
}
use weave_fs.Strings.{slash}
use weave_fs.Exec.{
  Error, not_exist, corrupt_identity, marshal_failed, no_entropy, Result, ok, err, World, Exec,
  pure, raise, lift, calm, ◌>>=◌, ◌>>◌,
}
use weave_fs.Exec.Laws.{Exec-cases, >>=-eq-ok, >>-pure-eq-ok, ok-injective}
use weave_fs.Disk.{read_file}
use weave_fs.Disk.Resolve.{resolve}
use weave_fs.Disk.Files.{read_file_calm, read_file_ok, read_file-files}
use weave_fs.Fsutil.{tmp_path, write_file_atomic}
use weave_fs.Fsutil.Atomic.{write_file_atomic_lem, tmp_path-ne}

abbrev pub identity_file_name : Text
identity_file_name = codes "identity.key"

-- `filepath.Join(dataDir, identityFileName)`.
abbrev pub identity_path : Text → Text
identity_path data_dir = data_dir ++ (slash ∷ identity_file_name)

-- libp2p's `crypto` package: keys from the random source, and their bytes.
pub record Keys (Key : Type 0) : Type 0 where
  pub generate : Exec Key
  pub marshal : Key → Option Bytes
  pub unmarshal : Bytes → Option Key

-- What it documents: a key that was marshalled unmarshals to the same key.
pub record IsFaithful {Key : Type 0} (keys : Keys Key) : Type 0 where
  pub unmarshal-marshal :
      (k : Key) (b : Bytes) → keys.marshal k ≡ some b → keys.unmarshal b ≡ some k

module _ {Key : Type 0} (keys : Keys Key) where
  marshalled : Option Bytes → Exec Bytes
  marshalled none = raise marshal_failed
  marshalled (some b) = pure b

  unfoldable pub create_identity : Text → Exec Key
  unfolding marshalled
  create_identity path = do
    priv ← keys.generate
    bytes ← marshalled (keys.marshal priv)
    write_file_atomic path bytes
    pure priv

  key_in : Option Key → Result Key
  key_in none = err corrupt_identity
  key_in (some k) = ok k

  -- What follows the attempt to read the identity file.
  after_read : Text → Result Bytes → Exec Key
  unfolding key_in
  after_read path (ok b) = lift (key_in (keys.unmarshal b))
  after_read path (err not_exist) = create_identity path
  after_read path (err e) = raise e

  unfoldable pub load_or_create_identity : Text → Exec Key
  unfolding after_read
  load_or_create_identity data_dir w =
      let (r, w') = read_file (identity_path data_dir) w in after_read (identity_path data_dir) r w'
