-- ===== src/Tests/Index.antt =====
-- The index of a key with two versions.
use weave_fs.Base.{
  true, ℕ, pos, false, [], ◌∷◌, Text, codes, ◌≡◌, ◌≢◌, inr, refl, arith, list_beq, nat_eq, list_eq,
}
use weave_fs.Store.Version.{VersionEntry, VersionIndex}
use weave_fs.Store.Index.{push_version, put_version, pruned_index, contains_version, remove_version}
use weave_fs.Store.Index.IsValid.{IsValid, pruned_push-IsValid}
use weave_fs.Store.Index.Prune.{
  IsWithin, pruned_index-IsWithin, pruned_put-IsValid, IsRest, IsLast, remove_version-IsValid,
}

abbrev entry : Text → ℕ → VersionEntry
entry id n = record {
  version_id = id;
  seq = pos n;
  created_at = n;
  size_bytes = pos n;
  message = [];
}

abbrev two : VersionIndex
two = record {
  key = codes "k";
  latest = codes "v2";
  versions = entry (codes "v1") 1 ∷ entry (codes "v2") 2 ∷ [];
}

two-IsValid : IsValid two
unfolding contains_version list_beq
two-IsValid = record {
  distinct = ground arith;
  latest_when_empty = λ e. cc e;
  latest_is_listed = λ h. refl;
}

new_ne_nil : (entry (codes "v3") 3).version_id ≢ []
new_ne_nil e = cc e

is_new : contains_version (codes "v3") two.versions ≡ false
unfolding contains_version list_beq
is_new = refl

-- One version may stay.
pruned_push-IsValid_example :
    IsValid (pruned_index (pos 1) (push_version two (entry (codes "v3") 3)))
pruned_push-IsValid_example =
    pruned_push-IsValid (pos 1) two (entry (codes "v3") 3) two-IsValid new_ne_nil is_new

pruned_put-IsValid_example : IsValid (pruned_index (pos 2) (put_version two (entry (codes "v3") 3)))
pruned_put-IsValid_example =
    pruned_put-IsValid (pos 2) two (entry (codes "v3") 3) two-IsValid (inr (omega arith)) new_ne_nil

-- The latest version goes.
abbrev one : VersionIndex
one = record { key = codes "k"; latest = codes "v1"; versions = entry (codes "v1") 1 ∷ [] }

remove_version-IsValid_example :
    IsValid one
    × (contains_version (codes "v2") two.versions ≡ true)
    × IsRest (codes "v2") two.versions one.versions
    × (codes "v2" ≢ two.latest → one.latest ≡ two.latest)
    × (codes "v2" ≡ two.latest → IsLast one.latest one.versions)
unfolding remove_version list_beq
remove_version-IsValid_example = remove_version-IsValid two one (codes "v2") two-IsValid refl

pruned_index-IsWithin_example : IsWithin (pos 1) (pruned_index (pos 1) two)
pruned_index-IsWithin_example = pruned_index-IsWithin (pos 1) two
