-- ===== src/Store/Index/IsValid.antt =====
-- The invariant of a version index, and that every operation keeps it.
use weave_fs.Base.{
  ℕ, suc, ◌≤◌, ℤ, true, false, List, [], ◌∷◌, ◌++◌, Text, drop, length, ◌==◌, nat_eq, list_eq,
  if◌then◌else◌, ◌≡◌, ◌≢◌, arith, eq_iff, length-append,
}
use weave_fs.Store.Version.{VersionEntry, VersionIndex}
use weave_fs.Store.Index.Distinct.{AreDistinct}
use weave_fs.Store.Index.Entries.{
  contains_version-upsert_version, AreDistinct-upsert_version, AreDistinct-drop, drop-append_last,
}
use weave_fs.Store.Index.{
  push_version, upsert_version, put_version, prune_cut, pruned_index, contains_version,
}

-- `latest` is empty exactly when there is no version, and else names one.
pub record IsValid (idx : VersionIndex) : Type 0 where
  pub distinct : AreDistinct idx.versions
  pub latest_when_empty : idx.versions ≡ [] → idx.latest ≡ []
  pub latest_is_listed : idx.versions ≢ [] → contains_version idx.latest idx.versions ≡ true

contains_version-append :
    (id : Text) (vs : List VersionEntry) (v : VersionEntry)
    → contains_version id (vs ++ (v ∷ []))
      ≡ (if contains_version id vs then true else v.version_id == id)
unfolding contains_version
contains_version-append id [] v = ground arith
contains_version-append id (u ∷ vs) v = ground (arith, contains_version-append id vs v)

AreDistinct-append :
    (vs : List VersionEntry) (v : VersionEntry)
    → AreDistinct vs
    → v.version_id ≢ []
    → contains_version v.version_id vs ≡ false
    → AreDistinct (vs ++ (v ∷ []))
unfolding contains_version
AreDistinct-append [] v d h n = ground arith
AreDistinct-append (u ∷ vs) v d h n = ground (
  arith,
  AreDistinct-append vs v d.2 h,
  contains_version-append u.version_id vs v,
  eq_iff v.version_id u.version_id,
  eq_iff u.version_id v.version_id,
)

append-ne-nil : (vs : List VersionEntry) (v : VersionEntry) → vs ++ (v ∷ []) ≢ []
append-ne-nil [] v = ground arith
append-ne-nil (u ∷ vs) v = ground arith

nothing_listed : (id : Text) (vs : List VersionEntry) → vs ≡ [] → contains_version id vs ≡ false
unfolding contains_version
nothing_listed id vs e = rw e

pub push_version-IsValid :
    (idx : VersionIndex) (v : VersionEntry)
    → IsValid idx
    → v.version_id ≢ []
    → contains_version v.version_id idx.versions ≡ false
    → IsValid (push_version idx v)
unfolding push_version
push_version-IsValid idx v k h n = record {
  distinct = AreDistinct-append idx.versions v k.distinct h n;
  latest_when_empty = λ e. absurd (append-ne-nil idx.versions v e);
  latest_is_listed = λ _. ground (
    arith,
    contains_version-append v.version_id idx.versions v,
    eq_iff v.version_id v.version_id,
  );
}

pub put_version-IsValid :
    (idx : VersionIndex) (m : VersionEntry)
    → IsValid idx
    → m.version_id ≢ []
    → IsValid (put_version idx m)
unfolding put_version
put_version-IsValid idx m k h = record {
  distinct = AreDistinct-upsert_version idx.versions m k.distinct h;
  latest_when_empty = λ e. ground (
    arith,
    contains_version-upsert_version m.version_id idx.versions m,
    eq_iff m.version_id m.version_id,
    nothing_listed m.version_id (upsert_version idx.versions m) e,
  );
  latest_is_listed = λ _. ground (
    arith,
    contains_version-upsert_version m.version_id idx.versions m,
    eq_iff m.version_id m.version_id,
  );
}

-- A cut that keeps the last entry keeps an index whose latest version is its last one valid.
pruned_last-IsValid :
    (n : ℕ) (idx : VersionIndex) (vs : List VersionEntry) (v : VersionEntry)
    → AreDistinct (vs ++ (v ∷ []))
    → n ≤ length vs
    → IsValid (record idx { versions = drop n (vs ++ (v ∷ [])); latest = v.version_id })
pruned_last-IsValid n idx vs v d h = record {
  distinct = AreDistinct-drop n (vs ++ (v ∷ [])) d;
  latest_when_empty =
      λ e. absurd (append-ne-nil (drop n vs) v (rw (drop-append_last n vs v h) at e));
  latest_is_listed = λ _. rw (drop-append_last n vs v h) (
      ground (
        arith,
        contains_version-append v.version_id (drop n vs) v,
        eq_iff v.version_id v.version_id,
      ));
}

prune_cut_bound :
    (max : ℤ) (idx : VersionIndex) (n : ℕ) → length idx.versions ≡ suc n → prune_cut max idx ≤ n
unfolding prune_cut
prune_cut_bound max idx n e = ground arith

-- What `WriteVersion` saves is valid, whatever the limit: a valid index with a new entry, after
-- pruning. The ID of the entry is not empty and not listed yet.
pub pruned_push-IsValid :
    (max : ℤ) (idx : VersionIndex) (v : VersionEntry)
    → IsValid idx
    → v.version_id ≢ []
    → contains_version v.version_id idx.versions ≡ false
    → IsValid (pruned_index max (push_version idx v))
unfolding pruned_index push_version
pruned_push-IsValid max idx v k h n =
    pruned_last-IsValid (prune_cut max (push_version idx v)) idx idx.versions v
      (AreDistinct-append idx.versions v k.distinct h n)
      (prune_cut_bound max (push_version idx v) (length idx.versions)
        (omega (arith, length-append {0} idx.versions (v ∷ []))))
