-- ===== src/Store/Live.antt =====
-- A write that meets no fault, on an index that loads, returns.
use weave_fs.Base.{
  ℕ, ◌≤◌, pos, false, some, List, [], ◌∷◌, ◌++◌, Bytes, Text, length, ◌≡◌, arith, ap, sym, ◌∙◌,
  if◌then◌else◌,
}
use weave_fs.Exec.{ok, err, read_fault, World, pure, ◌>>=◌, ◌>>◌}
use weave_fs.Exec.Laws.{bind_ok, result_of, >>=-eq-ok, ok-injective}
use weave_fs.Disk.{
  Reader, Writer, append, create, mkdir_all, read_file, io_copy, read_random, time_now, next_call,
}
use weave_fs.Disk.Live.{
  Succeeds, Succeeds-pure, Succeeds->>=, Succeeds-mkdir_all, Succeeds-create, Succeeds-append,
  Succeeds-remove_all, Succeeds-read_random, Succeeds-write_file_atomic,
}
use weave_fs.Crypto.Aes.{
  AesCipher, aes_cipher, encrypt_writer, magic, format_version, iv_size, xor_key_stream,
}
use weave_fs.Store.Version.{
  VersionEntry, VersionIndex, Library, versioned_key, load_index, save_index, next_seq, new_uuid,
  format_uuid,
}
use weave_fs.Strings.{slash}
use weave_fs.Store.Paths.{Store, node_folder, resolved_root_path}
use weave_fs.Store.Index.{push_version, pruned_entries, pruned_index}
use weave_fs.Store.Blob.{delete_version_blob, create_blob_file, wrapped, write_stream}
use weave_fs.Store.Ops.{
  prune_oldest_versions, index_file, delete_blobs, record_version, write_version,
}
use weave_fs.Store.Frame.{save_index_printed}

-- Every index can be printed.
pub record Prints (lib : Library) : Type 0 where
  pub text : VersionIndex → Bytes
  pub printed : (idx : VersionIndex) → lib.json.marshal idx ≡ some (text idx)

Succeeds-load_index :
    (lib : Library) (path key : Text) (w : World) (idx : VersionIndex)
    → w.faults ≡ []
    → (load_index lib path key w).0 ≡ ok idx
    → Succeeds (load_index lib path key) 0 w
unfolding load_index read_file next_call
Succeeds-load_index lib path key w idx calm h = record {
  value = idx;
  after = (load_index lib path key w).1;
  ended = result_of (load_index lib path key w) (ok idx) h;
  calm = ground arith;
  left = ground arith;
}

Succeeds-new_uuid : (w : World) → w.faults ≡ [] → 16 ≤ length w.entropy → Succeeds new_uuid 16 w
unfolding new_uuid
Succeeds-new_uuid w calm enough =
    let drawn = Succeeds-read_random 16 w calm enough in
    record {
      value = format_uuid drawn.value;
      after = drawn.after;
      ended = rw (new_uuid, drawn.ended) (λ i. (ok (format_uuid drawn.value), (drawn.ended i).1));
      calm = drawn.calm;
      left = drawn.left;
    }

Succeeds-save_index :
    (lib : Library) (prints : Prints lib) (path : Text) (idx : VersionIndex) (w : World)
    → w.faults ≡ []
    → Succeeds (save_index lib path idx) 0 w
Succeeds-save_index lib prints path idx w calm =
    let done = Succeeds-write_file_atomic path (prints.text idx) w calm in
    record {
      value = done.value;
      after = done.after;
      ended = save_index_printed lib path idx w (prints.text idx) (prints.printed idx) ∙ done.ended;
      calm = done.calm;
      left = done.left;
    }

Succeeds-io_copy :
    (path : Text) (change : Bytes → Bytes) (r : Reader) (w : World)
    → r.fails ≡ false
    → w.faults ≡ []
    → Succeeds (io_copy (λ b. append path (change b)) r) 0 w
unfolding io_copy
Succeeds-io_copy path change r w whole calm =
    let written = Succeeds-append path (change r.bytes) w calm in
    record {
      value = length r.bytes;
      after = written.after;
      ended = rw (written.ended, whole);
      calm = written.calm;
      left = written.left;
    }

-- The header, and the content behind it.
Succeeds-sealed_copy :
    (c : AesCipher) (path : Text) (r : Reader) (w : World)
    → r.fails ≡ false
    → w.faults ≡ []
    → 16 ≤ length w.entropy
    → Succeeds (encrypt_writer c (append path) >>= λ dst. io_copy dst r) 16 w
unfolding encrypt_writer
Succeeds-sealed_copy c path r w whole calm enough =
    let drawn = Succeeds-read_random 16 w calm enough in
    let header =
      Succeeds-append path (magic ++ (format_version ∷ drawn.value)) drawn.after drawn.calm in
    let dst : Writer = λ b. append path (xor_key_stream c.block drawn.value 0 b) in
    let opened : encrypt_writer c (append path) w ≡ (ok dst, header.after) =
      bind_ok (read_random iv_size)
        (λ iv.
          append path (magic ++ (format_version ∷ iv))
          >> pure (λ b. append path (xor_key_stream c.block iv 0 b)))
        w drawn.after drawn.value drawn.ended
      ∙ bind_ok (append path (magic ++ (format_version ∷ drawn.value))) (λ _. pure dst) drawn.after
          header.after header.value header.ended in
    let copied =
      Succeeds-io_copy path (xor_key_stream c.block drawn.value 0) r header.after whole
        header.calm in
    record {
      value = copied.value;
      after = copied.after;
      ended =
          bind_ok (encrypt_writer c (append path)) (λ d. io_copy d r) w header.after dst opened
          ∙ copied.ended;
      calm = copied.calm;
      left = omega (arith, drawn.left, header.left, copied.left);
    }

module _ (lib : Library) (prints : Prints lib) (s : Store) (c : AesCipher)
    (node_id key : Text) where
  Succeeds-create_blob_file :
      (k : Text) (w : World) → w.faults ≡ [] → Succeeds (create_blob_file s node_id k) 0 w
  unfolding create_blob_file
  Succeeds-create_blob_file k w calm =
      let path_key = s.path_transform k in
      let folder = node_folder s node_id ++ (slash ∷ path_key.path_name) in
      let file = folder ++ (slash ∷ path_key.filename) in
      let made = Succeeds-mkdir_all folder w calm in
      let created = Succeeds-create file made.after made.calm in
      Succeeds->>= (mkdir_all folder) (λ _. create file >> pure file) 0 0 w made
        (Succeeds->>= (create file) (λ _. pure file) 0 0 made.after created
          (Succeeds-pure file created.after created.calm))

  Succeeds-delete_blobs :
      (vs : List VersionEntry) (w : World)
      → w.faults ≡ []
      → Succeeds (delete_blobs lib s node_id key vs) 0 w
  unfolding delete_blobs delete_version_blob
  Succeeds-delete_blobs [] w calm = Succeeds-pure tt w calm
  Succeeds-delete_blobs (v ∷ vs) w calm =
      let path = resolved_root_path s node_id (versioned_key key v.version_id) in
      let gone = Succeeds-remove_all path w calm in
      let rest = Succeeds-delete_blobs vs gone.after gone.calm in
      record {
        value = rest.value;
        after = rest.after;
        ended = rw (gone.ended) rest.ended;
        calm = rest.calm;
        left = omega (arith, gone.left, rest.left);
      }

  Succeeds-write_stream :
      (k : Text) (r : Reader) (w : World)
      → s.cipher ≡ some (aes_cipher c)
      → r.fails ≡ false
      → w.faults ≡ []
      → 16 ≤ length w.entropy
      → Succeeds (write_stream s node_id k r) 16 w
  unfolding write_stream wrapped
  Succeeds-write_stream k r w sealed whole calm enough =
      let made = Succeeds-create_blob_file k w calm in
      let copied =
        Succeeds-sealed_copy c made.value r made.after whole made.calm (omega (arith, made.left)) in
      record {
        value = copied.value;
        after = copied.after;
        ended =
            bind_ok (create_blob_file s node_id k) _ w made.after made.value made.ended
            ∙ ap (λ o. (wrapped o (append made.value) >>= λ dst. io_copy dst r) made.after) sealed
            ∙ copied.ended;
        calm = copied.calm;
        left = omega (arith, made.left, copied.left);
      }

  Succeeds-record_version :
      (idx : VersionIndex) (message id : Text) (n : ℕ) (w : World)
      → w.faults ≡ []
      → Succeeds (record_version lib s node_id key idx message id n) 0 w
  unfolding record_version time_now prune_oldest_versions
  Succeeds-record_version idx message id n w calm =
      let entry : VersionEntry = record {
        version_id = id;
        seq = next_seq idx;
        created_at = w.now;
        size_bytes = pos n;
        message = message;
      } in
      let pushed = push_version idx entry in
      let dropped = Succeeds-delete_blobs (pruned_entries s.max_versions pushed) w calm in
      let saved =
        Succeeds-save_index lib prints (index_file lib s node_id key)
          (pruned_index s.max_versions pushed) dropped.after dropped.calm in
      record {
        value = entry;
        after = saved.after;
        ended = rw (dropped.ended, saved.ended);
        calm = saved.calm;
        left = omega (arith, dropped.left, saved.left);
      }

-- What an `io.Copy` counts is what the reader held.
io_copy-count :
    (dst : Writer) (r : Reader) (n : ℕ) (w w' : World)
    → io_copy dst r w ≡ (ok n, w')
    → n ≡ length r.bytes
unfolding io_copy
io_copy-count dst r n w w' h =
    let (u, w1, e1, h1) =
      >>=-eq-ok (dst r.bytes) (λ _ w. (if r.fails then err read_fault else ok (length r.bytes), w))
        w n w' h in
    ground (arith, ap (λ x. x.0) h1)

record_version-size :
    (lib : Library) (s : Store) (node_id key : Text) (idx : VersionIndex) (message id : Text)
    (n : ℕ) (entry : VersionEntry) (w w' : World)
    → record_version lib s node_id key idx message id n w ≡ (ok entry, w')
    → entry.size_bytes ≡ pos n
unfolding record_version
record_version-size lib s node_id key idx message id n entry w w' h =
    let (now, w1, e1, h1) = >>=-eq-ok time_now _ w entry w' h in
    let (pruned, w2, e2, h2) =
      >>=-eq-ok
        (prune_oldest_versions lib s node_id key (
          push_version idx (record {
            version_id = id;
            seq = next_seq idx;
            created_at = now;
            size_bytes = pos n;
            message = message;
          })))
        _ w1 entry w' h1 in
    let (u, w3, e3, h3) =
      >>=-eq-ok (save_index lib (index_file lib s node_id key) pruned) _ w2 entry w' h2 in
    ap (λ (x : VersionEntry). x.size_bytes) (sym (ok-injective (ap (λ x. x.0) h3)))

-- The size that a write reports is the length of the content.
write_version-size :
    (lib : Library) (s : Store) (node_id key message : Text) (r : Reader) (entry : VersionEntry)
    (w w' : World)
    → write_version lib s node_id key message r w ≡ (ok entry, w')
    → entry.size_bytes ≡ pos (length r.bytes)
unfolding write_version write_stream
write_version-size lib s node_id key message r entry w w' h =
    let (idx, w1, e1, h1) =
      >>=-eq-ok (load_index lib (index_file lib s node_id key) key) _ w entry w' h in
    let (id, w2, e2, h2) = >>=-eq-ok new_uuid _ w1 entry w' h1 in
    let (n, w3, e3, h3) =
      >>=-eq-ok (write_stream s node_id (versioned_key key id) r) _ w2 entry w' h2 in
    let (path, w4, e4, h4) =
      >>=-eq-ok (create_blob_file s node_id (versioned_key key id)) _ w2 n w3 e3 in
    let (dst, w5, e5, h5) = >>=-eq-ok (wrapped s.cipher (append path)) _ w4 n w3 h4 in
    record_version-size lib s node_id key idx message id n entry w3 w' h3
    ∙ ap pos (io_copy-count dst r n w5 w3 h5)

-- A write succeeds, and reports a version of the content's length, when no fault comes, the index
-- of the key loads, the reader does not fail, the cipher is AES, JSON prints every index, and the
-- random source has 32 bytes to give, 16 for the version's ID and 16 for the cipher's IV.
pub write_version_returns :
    (lib : Library) (prints : Prints lib) (s : Store) (c : AesCipher) (node_id key message : Text)
    (r : Reader) (w : World) (idx : VersionIndex)
    → s.cipher ≡ some (aes_cipher c)
    → w.faults ≡ []
    → 32 ≤ length w.entropy
    → r.fails ≡ false
    → (load_index lib (index_file lib s node_id key) key w).0 ≡ ok idx
    → (entry : VersionEntry) × (w' : World) × (write_version lib s node_id key message r w
        ≡ (ok entry, w'))
      × (entry.size_bytes ≡ pos (length r.bytes))
      × (w'.faults ≡ [])
unfolding write_version
write_version_returns lib prints s c node_id key message r w idx sealed calm enough whole loaded =
    let start = Succeeds-load_index lib (index_file lib s node_id key) key w idx calm loaded in
    let id = Succeeds-new_uuid start.after start.calm (omega (arith, start.left)) in
    let copied =
      Succeeds-write_stream lib prints s c node_id key (versioned_key key id.value) r id.after
        sealed whole id.calm (omega (arith, start.left, id.left)) in
    let done =
      Succeeds-record_version lib prints s c node_id key start.value message id.value copied.value
        copied.after copied.calm in
    let ran : write_version lib s node_id key message r w ≡ (ok done.value, done.after) =
      rw (start.ended, id.ended, copied.ended, done.ended) in
    (
      done.value,
      done.after,
      ran,
      write_version-size lib s node_id key message r done.value w done.after ran,
      done.calm,
    )
