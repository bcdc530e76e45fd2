-- ===== src/Store/Index.antt =====
-- internal/store: what the operations do to a version index, apart from the files.
pub mod Distinct
pub mod Entries
pub mod IsValid
pub mod Prune
use weave_fs.Base.{
  ℕ, ◌-◌, ℤ, is_negative, to_count, Bool, true, false, ◌||◌, Option, none, some, List, [], ◌∷◌,
  ◌++◌, Text, take, drop, length, leb, ◌==◌, nat_eq, list_eq, if◌then◌else◌,
}
use weave_fs.Exec.{Error, no_versions, version_not_found, Result, ok, err}
use weave_fs.Store.Version.{VersionEntry, VersionIndex}

-- The first entry with the ID.
unfoldable pub find_version : Text → List VersionEntry → Option VersionEntry
find_version id [] = none
find_version id (v ∷ vs) = if v.version_id == id then some v else find_version id vs

found : Option VersionEntry → Result VersionEntry
found none = err version_not_found
found (some v) = ok v

-- An empty ID asks for the latest version.
unfoldable pub resolve_version : VersionIndex → Text → Result VersionEntry
unfolding found find_version
resolve_version idx version_id =
    if version_id == []
    then (if idx.latest == []
        then err no_versions
        else found (find_version idx.latest idx.versions))
    else found (find_version version_id idx.versions)

-- The two assignments of `WriteVersion` behind the blob write.
unfoldable pub push_version : VersionIndex → VersionEntry → VersionIndex
push_version idx entry = record idx {
  versions = idx.versions ++ (entry ∷ []);
  latest = entry.version_id;
}

-- Replaces the first entry with the ID of `meta`, or adds `meta` at the end.
unfoldable pub upsert_version : List VersionEntry → VersionEntry → List VersionEntry
upsert_version [] meta = meta ∷ []
upsert_version (v ∷ vs) meta =
    if v.version_id == meta.version_id then meta ∷ vs else v ∷ upsert_version vs meta

-- The two assignments of `WriteVersionRaw` behind the blob write.
unfoldable pub put_version : VersionIndex → VersionEntry → VersionIndex
unfolding upsert_version
put_version idx meta = record idx {
  versions = upsert_version idx.versions meta;
  latest = meta.version_id;
}

-- How many of the oldest entries go: none when the limit is 0 or negative, or is kept.
unfoldable pub prune_cut : ℤ → VersionIndex → ℕ
prune_cut max idx =
    if leb (to_count max) 0 || leb (length idx.versions) (to_count max)
    then 0
    else length idx.versions - to_count max

-- The entries whose blobs are deleted, and the index that is left.
unfoldable pub pruned_entries : ℤ → VersionIndex → List VersionEntry
unfolding prune_cut
pruned_entries max idx = take (prune_cut max idx) idx.versions

unfoldable pub pruned_index : ℤ → VersionIndex → VersionIndex
unfolding prune_cut
pruned_index max idx = record idx { versions = drop (prune_cut max idx) idx.versions }

-- All entries but those with the ID.
unfoldable pub without : Text → List VersionEntry → List VersionEntry
without id [] = []
without id (v ∷ vs) = let rest = without id vs in if v.version_id == id then rest else v ∷ rest

-- Is there an entry with the ID?
unfoldable pub contains_version : Text → List VersionEntry → Bool
contains_version id [] = false
contains_version id (v ∷ vs) = v.version_id == id || contains_version id vs

-- The ID of the last entry, or the empty text.
unfoldable pub last_id : List VersionEntry → Text
last_id [] = []
last_id (v ∷ []) = v.version_id
last_id (v ∷ u ∷ vs) = last_id (u ∷ vs)

-- What `DeleteVersion` makes of the index, with `latest` rewound if it was deleted.
unfoldable pub remove_version : VersionIndex → Text → Result VersionIndex
unfolding without contains_version last_id
remove_version idx id =
    if contains_version id idx.versions
    then ok (record idx {
      versions = without id idx.versions;
      latest = if idx.latest == id then last_id (without id idx.versions) else idx.latest;
    })
    else err version_not_found
