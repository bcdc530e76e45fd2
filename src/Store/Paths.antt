-- ===== src/Store/Paths.antt =====
-- internal/store/store.go: where a blob lies on disk.
pub mod Laws
use weave_fs.Base.{
  ℕ, zero, suc, ◌+◌, ◌*◌, ◌/◌, ℤ, Option, none, some, List, [], ◌∷◌, ◌++◌, Text, codes, take, drop,
  length, ◌==◌, nat_eq, list_eq, if◌then◌else◌,
}
use weave_fs.Strings.{slash, split, join}
use weave_fs.Hex
use weave_fs.Store.Version.{Library}
use weave_fs.Store.Cipher.{Cipher}

pub record PathKey : Type 0 where
  pub path_name : Text
  pub filename : Text

head_or_empty : List Text → Text
head_or_empty [] = []
head_or_empty (p ∷ ps) = p

unfoldable pub first_path_name : PathKey → Text
unfolding head_or_empty
first_path_name p = head_or_empty (split slash p.path_name)

unfoldable pub full_path : PathKey → Text
full_path p = p.path_name ++ (slash ∷ p.filename)

abbrev pub block_size : ℕ
block_size = 5

-- The rounds of the loop from block i on.
cut_blocks : ℕ → ℕ → Text → List Text
cut_blocks zero i hash = []
cut_blocks (suc rounds) i hash =
    take block_size (drop (i * block_size) hash) ∷ cut_blocks rounds (i + 1) hash

unfoldable pub cas_path_transform : Library → Text → PathKey
unfolding cut_blocks
cas_path_transform lib key =
    let hash = Hex.encode (lib.sha1 key) in
    record {
      path_name = join slash (cut_blocks (length hash / block_size) 0 hash);
      filename = hash;
    }

unfoldable pub default_path_transform : Text → PathKey
default_path_transform key = record { path_name = key; filename = key }

-- What a caller gives: a nil function and an empty root stand for the defaults.
pub record StoreOpts : Type 0 where
  pub root : Text
  pub path_transform : Option (Text → PathKey)
  pub max_versions : ℤ
  pub cipher : Option Cipher

pub record Store : Type 0 where
  pub root : Text
  pub path_transform : Text → PathKey
  pub max_versions : ℤ
  pub cipher : Option Cipher

abbrev pub default_root_folder_name : Text
default_root_folder_name = codes "weavefs_data"

unfoldable pub new_store : StoreOpts → Store
unfolding default_path_transform
new_store opts = record {
  root = if opts.root == [] then default_root_folder_name else opts.root;
  path_transform = elim opts.path_transform [
    | none ↦ default_path_transform
    | some transform ↦ transform
  ];
  max_versions = opts.max_versions;
  cipher = opts.cipher;
}

-- <root>/<nodeID>
abbrev pub node_folder : Store → Text → Text
node_folder s node_id = s.root ++ (slash ∷ node_id)

unfoldable pub resolved_path : Store → Text → Text → Text
unfolding full_path
resolved_path s node_id key = node_folder s node_id ++ (slash ∷ full_path (s.path_transform key))

unfoldable pub resolved_root_path : Store → Text → Text → Text
unfolding first_path_name
resolved_root_path s node_id key =
    node_folder s node_id ++ (slash ∷ first_path_name (s.path_transform key))
