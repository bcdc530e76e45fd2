-- ===== src/Api/AddrFile/Laws.antt =====
-- A client that looks up the address file finds where the API listens, or that none does.
use weave_fs.Base.{
  [], ◌∷◌, ◌++◌, Text, nat_eq, list_eq, eq_iff, eq_refl, ◌≡◌, ◌≢◌, refl, arith, inl, inr,
}
use weave_fs.Strings.{is_space}
use weave_fs.Strings.Laws.{HasNoSpace, trim_space-append}
use weave_fs.Exec.{not_exist, ok, err, World, calm}
use weave_fs.Disk.{read_file, remove, next_call}
use weave_fs.Disk.Resolve.{resolve}
use weave_fs.Disk.Files.{read_file_calm}
use weave_fs.Fsutil.{tmp_path}
use weave_fs.Fsutil.Atomic.{write_file_atomic_lem, tmp_path-ne}
use weave_fs.Api.AddrFile.{
  addr_file_name, addr_file_path, address_in, read_addr_file, write_addr_file, remove_addr_file,
}

addr_file_path-ne :
    (data_dir : Text)
    → resolve (tmp_path (addr_file_path data_dir)) ≢ resolve (addr_file_path data_dir)
addr_file_path-ne data_dir =
    tmp_path-ne data_dir addr_file_name ((λ e. cc e), (λ e. cc e), (λ e. cc e)) (omega arith)

address_in-append :
    (addr : Text) → addr ≢ [] → HasNoSpace addr → address_in (addr ++ (10 ∷ [])) ≡ ok addr
unfolding address_in is_space
address_in-append [] given plain = absurd (given refl)
address_in-append (c ∷ s) given plain =
    rw (trim_space-append c s (10 ∷ []) plain (refl, tt)) (ground (arith, eq_iff (c ∷ s) []))

-- An address that was written, whatever faults came, is what a client reads when none comes: its
-- text is not empty, and holds no space.
pub write_addr_file-read_addr_file :
    (data_dir addr : Text) (w w' : World)
    → addr ≢ []
    → HasNoSpace addr
    → write_addr_file data_dir addr w ≡ (ok tt, w')
    → read_addr_file data_dir (calm w') ≡ (ok addr, calm w')
unfolding write_addr_file read_addr_file
write_addr_file-read_addr_file data_dir addr w w' given plain h =
    elim (write_file_atomic_lem (addr_file_path data_dir) (addr ++ (10 ∷ [])) w
      (addr_file_path-ne data_dir)) [
        | inl done ↦ rw (
          read_file_calm (addr_file_path data_dir) (calm w') (addr ++ (10 ∷ [])) refl
              (rw h at done.1),
          address_in-append addr given plain,
        )
        | inr (x, failed, _) ↦ absurd (cc (rw h at failed))
      ]

-- Once the file is removed with no fault, a client is told that there is none.
pub remove_addr_file-read_addr_file :
    (data_dir : Text) (w : World)
    → w.faults ≡ []
    → (read_addr_file data_dir (remove_addr_file data_dir w).1).0 ≡ err not_exist
unfolding remove_addr_file read_addr_file remove read_file next_call
remove_addr_file-read_addr_file data_dir w calm =
    ground (arith, eq_refl (resolve (addr_file_path data_dir)))
