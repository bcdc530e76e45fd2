-- ===== src/Store/Paths/Laws.antt =====
-- The content-addressed layout: eight folders of five digits and a file named by the whole hash.
use weave_fs.Base.{All-take, All-drop, All-append, All-map}
use weave_fs.Base.{
  ℕ, zero, suc, ◌+◌, ◌*◌, ◌≤◌, ◌<◌, List, [], ◌∷◌, ◌++◌, Text, codes, take, drop, length, All, ◌≡◌,
  ◌≢◌, refl, ap, arith, length-take, length-drop, append-nil, append_assoc, length-append,
}
use weave_fs.Strings.{slash, split, join}
use weave_fs.Strings.Laws.{Lacks, split-append, split-join, split_of_Lacks}
use weave_fs.Hex
use weave_fs.Hex.Laws.{AreBytes, IsHexDigit, encode-IsHexDigit, length-encode}
use weave_fs.Disk.Resolve.{resolve, IsPlain, resolve-append}
use weave_fs.Store.Version.{Library}
use weave_fs.Store.Version.{index_name, index_path}
use weave_fs.Fsutil.{tmp_path}
use weave_fs.Disk.Files.{append_left_injective}
use weave_fs.Store.Paths.{
  Store, first_path_name, full_path, cut_blocks, cas_path_transform, node_folder, resolved_path,
  resolved_root_path,
}

-- What `crypto/sha1` documents: the sum of a text is 20 bytes.
pub record IsSha1 (lib : Library) : Type 0 where
  pub length-sha1 : (t : Text) → length (lib.sha1 t) ≡ 20
  pub sha1-AreBytes : (t : Text) → AreBytes (lib.sha1 t)

hex-Lacks : (t : Text) → All IsHexDigit t → Lacks slash t
hex-Lacks [] h = tt
hex-Lacks (c ∷ t) h = (λ e. ground (arith, h.0), hex-Lacks t h.1)

-- A name that begins with a hex digit is plain.
hex-IsPlain : (t rest : Text) → All IsHexDigit t → 0 < length t → IsPlain (t ++ rest)
hex-IsPlain [] rest h g = absurd (omega arith)
hex-IsPlain (c ∷ t) rest h g = ground (arith, h.0)

-- A folder or file name of the layout.
abbrev IsHexName : Text → Type 0
IsHexName t = All IsHexDigit t × (0 < length t)

cut_blocks-IsHexName :
    (rounds i : ℕ) (hash : Text)
    → All IsHexDigit hash
    → (i + rounds) * 5 ≤ length hash
    → All IsHexName (cut_blocks rounds i hash)
unfolding cut_blocks
cut_blocks-IsHexName zero i hash h fits = tt
cut_blocks-IsHexName (suc rounds) i hash h fits = (
  (
    All-take IsHexDigit 5 (drop (i * 5) hash) (All-drop IsHexDigit (i * 5) hash h),
    omega (arith, length-take 5 (drop (i * 5) hash), length-drop (i * 5) hash),
  ),
  cut_blocks-IsHexName rounds (i + 1) hash h (omega arith),
)

IsHexName-Lacks : (t : Text) → IsHexName t → Lacks slash t
IsHexName-Lacks t h = hex-Lacks t h.0

IsHexName-IsPlain : (t : Text) → IsHexName t → IsPlain t
IsHexName-IsPlain t h = rw (append-nil t) at (hex-IsPlain t [] h.0 h.1)

vindex-IsPlain : IsPlain (codes ".vindex")
vindex-IsPlain = ground arith

last_names : (x y x' y' : Text) → x ∷ y ∷ [] ≡ x' ∷ y' ∷ [] → y ≡ y'
last_names x y x' y' e = cc

-- The file name of a blob.
abbrev pub hash_of : Library → Text → Text
hash_of lib key = Hex.encode (lib.sha1 key)

-- The folders above it.
pub blocks_of : Library → Text → List Text
blocks_of lib key = cut_blocks 8 0 (hash_of lib key)

-- The first of them is named by the first five digits of the hash.
pub blocks_of_first :
    (lib : Library) (key : Text)
    → (rest : List Text) × (blocks_of lib key ++ (hash_of lib key ∷ [])
        ≡ take 5 (hash_of lib key) ∷ rest)
unfolding blocks_of cut_blocks
blocks_of_first lib key = (_, refl)

module _ (lib : Library) (sha : IsSha1 lib) where
  pub length-hash_of : (key : Text) → length (hash_of lib key) ≡ 40
  length-hash_of key = omega (arith, length-encode (lib.sha1 key), sha.length-sha1 key)

  hash_of-IsHexName : (key : Text) → IsHexName (hash_of lib key)
  hash_of-IsHexName key =
      (encode-IsHexDigit (lib.sha1 key) (sha.sha1-AreBytes key), omega (arith, length-hash_of key))

  blocks_of-IsHexName : (key : Text) → All IsHexName (blocks_of lib key)
  unfolding blocks_of
  blocks_of-IsHexName key =
      cut_blocks-IsHexName 8 0 (hash_of lib key) (hash_of-IsHexName key).0
        (omega (arith, length-hash_of key))

  cas_path_transform_lem :
      (key : Text)
      → cas_path_transform lib key
        ≡ record { path_name = join slash (blocks_of lib key); filename = hash_of lib key }
  unfolding cas_path_transform blocks_of
  cas_path_transform_lem key = rw (length-hash_of key)

  split_blocks : (key : Text) → split slash (join slash (blocks_of lib key)) ≡ blocks_of lib key
  unfolding blocks_of cut_blocks
  split_blocks key =
      split-join slash (blocks_of lib key) (λ e. cc)
        (All-map (blocks_of lib key) IsHexName-Lacks (blocks_of-IsHexName key))

  module _ (s : Store) (cas : (k : Text) → s.path_transform k ≡ cas_path_transform lib k)
      (node_id : Text) where
    -- Where the blob of a key lies, below the folder of its node.
    pub resolve-resolved_path :
        (key : Text)
        → resolve (resolved_path s node_id key)
          ≡ resolve (node_folder s node_id) ++ (blocks_of lib key ++ (hash_of lib key ∷ []))
    unfolding resolved_path full_path
    resolve-resolved_path key =
        rw (cas key, cas_path_transform_lem key)
          (resolve-append (node_folder s node_id) _ _
            (rw (
              split-append,
              split_blocks key,
              split_of_Lacks slash (hash_of lib key) (IsHexName-Lacks _ (hash_of-IsHexName key)),
            ))
            (All-append IsPlain (blocks_of lib key) (hash_of lib key ∷ [])
              (All-map (blocks_of lib key) IsHexName-IsPlain (blocks_of-IsHexName key))
              (IsHexName-IsPlain _ (hash_of-IsHexName key), tt)))

    -- The folder that a deletion of the key removes.
    pub resolve-resolved_root_path :
        (key : Text)
        → resolve (resolved_root_path s node_id key)
          ≡ resolve (node_folder s node_id) ++ (take 5 (hash_of lib key) ∷ [])
    unfolding resolved_root_path first_path_name blocks_of cut_blocks
    resolve-resolved_root_path key =
        rw (cas key, cas_path_transform_lem key, split_blocks key)
          (resolve-append (node_folder s node_id) _ _
            (split_of_Lacks slash _ (IsHexName-Lacks _ (blocks_of-IsHexName key).0))
            (IsHexName-IsPlain _ (blocks_of-IsHexName key).0, tt))

  index_name-Lacks : (key : Text) → Lacks slash (index_name lib key)
  unfolding index_name
  index_name-Lacks key =
      All-append (λ c. c ≢ slash) (hash_of lib key) (codes ".json")
        (hex-Lacks _ (hash_of-IsHexName key).0) (omega arith)

  index_name-IsPlain : (key : Text) → IsPlain (index_name lib key)
  unfolding index_name
  index_name-IsPlain key =
      hex-IsPlain (hash_of lib key) (codes ".json") (hash_of-IsHexName key).0
        (hash_of-IsHexName key).1

  tmp_name-IsPlain : (key : Text) → IsPlain (index_name lib key ++ codes ".tmp")
  unfolding index_name
  tmp_name-IsPlain key =
      rw (append_assoc (hash_of lib key) (codes ".json") (codes ".tmp"))
        (hex-IsPlain (hash_of lib key) _ (hash_of-IsHexName key).0 (hash_of-IsHexName key).1)

  -- Where the index of a key lies.
  pub resolve-index_path :
      (root node_id key : Text)
      → resolve (index_path lib root node_id key)
        ≡ resolve (root ++ (slash ∷ node_id)) ++ (codes ".vindex" ∷ index_name lib key ∷ [])
  unfolding index_path
  resolve-index_path root node_id key =
      resolve-append (root ++ (slash ∷ node_id)) _ _
        (rw (
          split-append slash (codes ".vindex") (index_name lib key),
          split_of_Lacks slash (codes ".vindex") (omega arith),
          split_of_Lacks slash (index_name lib key) (index_name-Lacks key),
        ))
        (vindex-IsPlain, (index_name-IsPlain key, tt))

  -- Where the file lies that is renamed to the index.
  pub resolve-tmp_path :
      (root node_id key : Text)
      → resolve (tmp_path (index_path lib root node_id key))
        ≡ resolve (root ++ (slash ∷ node_id))
          ++ (codes ".vindex" ∷ (index_name lib key ++ codes ".tmp") ∷ [])
  unfolding index_path
  resolve-tmp_path root node_id key =
      rw
        (
          append_assoc (root ++ (slash ∷ node_id)) _ (codes ".tmp"),
          append_assoc (codes ".vindex") _ (codes ".tmp"),
        )
        (resolve-append (root ++ (slash ∷ node_id)) _ _
          (rw (
            split-append slash (codes ".vindex") (index_name lib key ++ codes ".tmp"),
            split_of_Lacks slash (codes ".vindex") (omega arith),
            split_of_Lacks slash (index_name lib key ++ codes ".tmp")
                (All-append (λ c. c ≢ slash) _ (codes ".tmp") (index_name-Lacks key) (omega arith)),
          ))
          (vindex-IsPlain, (tmp_name-IsPlain key, tt)))

  append-longer : (t : Text) → t ++ codes ".tmp" ≢ t
  append-longer t e = omega (arith, length-append {0} t (codes ".tmp"), ap length e)

  pub tmp-ne-index :
      (root node_id key : Text)
      → resolve (tmp_path (index_path lib root node_id key))
        ≢ resolve (index_path lib root node_id key)
  tmp-ne-index root node_id key =
      rw (resolve-tmp_path root node_id key, resolve-index_path root node_id key)
        (λ e.
          append-longer (index_name lib key) (
            last_names _ _ _ _ (append_left_injective (resolve (root ++ (slash ∷ node_id))) _ _ e)))
