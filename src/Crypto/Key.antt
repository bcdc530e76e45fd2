-- ===== src/Crypto/Key.antt =====
-- internal/crypto/key.go: the key file of a node.
pub mod Laws
pub mod Others
use weave_fs.Base.{
  Option, none, some, ◌++◌, ◌∷◌, Bytes, Text, codes, length, ◌==◌, nat_eq, if◌then◌else◌,
}
use weave_fs.Strings.{slash, trim_space}
use weave_fs.Hex
use weave_fs.Exec.{Error, not_exist, bad_key, Result, ok, err, Exec, pure, raise, lift, ◌>>=◌, ◌>>◌}
use weave_fs.Disk.{read_file, read_random}
use weave_fs.Fsutil.{write_file_atomic}
use weave_fs.Crypto.Aes.{key_size}

abbrev pub key_file_name : Text
key_file_name = codes "encryption.key"

-- `filepath.Join(dataDir, keyFileName)`.
abbrev pub key_path : Text → Text
key_path data_dir = data_dir ++ (slash ∷ key_file_name)

sized : Option Bytes → Result Bytes
sized none = err bad_key
sized (some key) = if length key == key_size then ok key else err bad_key

unfoldable pub decode_key : Bytes → Result Bytes
unfolding sized
decode_key b = sized (Hex.decode (trim_space b))

unfoldable pub create_key : Text → Exec Bytes
create_key path = do key ← read_random key_size; write_file_atomic path (Hex.encode key); pure key

-- What follows the attempt to read the key file.
after_read : Text → Result Bytes → Exec Bytes
unfolding decode_key
after_read path (ok b) = lift (decode_key b)
after_read path (err not_exist) = create_key path
after_read path (err e) = raise e

unfoldable pub load_or_create_key : Text → Exec Bytes
unfolding after_read
load_or_create_key data_dir w =
    let (r, w') = read_file (key_path data_dir) w in after_read (key_path data_dir) r w'
