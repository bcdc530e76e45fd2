-- ===== src/Api/AddrFile.antt =====
-- internal/api/addrfile.go: the file that says where the API of a node listens.
pub mod Laws
use weave_fs.Base.{[], ◌∷◌, ◌++◌, Bytes, Text, codes, ◌==◌, nat_eq, list_eq, if◌then◌else◌}
use weave_fs.Strings.{slash, trim_space}
use weave_fs.Exec.{address_empty, Result, ok, err, Exec, lift, ignore, ◌>>=◌}
use weave_fs.Disk.{read_file, remove}
use weave_fs.Fsutil.{write_file_atomic}

abbrev pub addr_file_name : Text
addr_file_name = codes "api.addr"

-- `filepath.Join(dataDir, AddrFileName)`.
abbrev pub addr_file_path : Text → Text
addr_file_path data_dir = data_dir ++ (slash ∷ addr_file_name)

-- The address in the content of the file.
unfoldable pub address_in : Bytes → Result Text
address_in b = let addr = trim_space b in if addr == [] then err address_empty else ok addr

unfoldable pub read_addr_file : Text → Exec Text
unfolding address_in
read_addr_file data_dir = do b ← read_file (addr_file_path data_dir); lift (address_in b)

unfoldable pub write_addr_file : Text → Text → Exec (Unit {0})
write_addr_file data_dir addr = write_file_atomic (addr_file_path data_dir) (addr ++ (10 ∷ []))

unfoldable pub remove_addr_file : Text → Exec (Unit {0})
remove_addr_file data_dir = ignore (remove (addr_file_path data_dir))
