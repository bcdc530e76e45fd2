-- ===== src/Store/Index/Prune.antt =====
-- Pruning, upserts and removals on whole indexes.
use weave_fs.Base.{
  ◌-◌, ◌≤◌, take-append-drop, ℤ, to_count, true, false, List, [], ◌∷◌, ◌++◌, Text, length, ◌==◌,
  nat_eq, list_eq, if◌then◌else◌, ◌≡◌, ◌≢◌, ◌⊎◌, refl, arith, eq_iff, Bool-cases, inl, inr,
  length-drop, ap, subst,
}
use weave_fs.Exec.Laws.{ok-injective}
use weave_fs.Exec.{ok, err, no_versions}
use weave_fs.Store.Version.{VersionEntry, VersionIndex}
use weave_fs.Store.Index.Distinct.{AreDistinct}
use weave_fs.Store.Index.Entries.{
  upsert_version_new, length-upsert_version_old, AreDistinct-without, contains_version-last_id,
  contains_version-without, find_version_listed,
}
use weave_fs.Store.Index.IsValid.{IsValid, put_version-IsValid, pruned_push-IsValid}
use weave_fs.Store.Index.{
  resolve_version, push_version, put_version, prune_cut, pruned_entries, pruned_index, without,
  contains_version, last_id, remove_version,
}

-- The index holds no more versions than the limit allows.
abbrev pub IsWithin : ℤ → VersionIndex → Type 0
IsWithin max idx = (to_count max ≡ 0) ⊎ (length idx.versions ≤ to_count max)

-- Pruning leaves no more versions than the limit allows; a limit that is 0 or negative allows any
-- number.
pub pruned_index-IsWithin : (max : ℤ) (idx : VersionIndex) → IsWithin max (pruned_index max idx)
unfolding pruned_index prune_cut
pruned_index-IsWithin max idx =
    ground (arith, length-drop {0} (length idx.versions - to_count max) idx.versions)

-- What is pruned and what stays are the index that was there.
pub pruned_entries-append :
    (max : ℤ) (idx : VersionIndex)
    → pruned_entries max idx ++ (pruned_index max idx).versions ≡ idx.versions
unfolding pruned_entries pruned_index
pruned_entries-append max idx = take-append-drop (prune_cut max idx) idx.versions

-- A put that replaces an entry of an index within the limit prunes nothing.
put_old_cut :
    (max : ℤ) (idx : VersionIndex) (m : VersionEntry)
    → IsWithin max idx
    → contains_version m.version_id idx.versions ≡ true
    → prune_cut max (put_version idx m) ≡ 0
unfolding prune_cut put_version
put_old_cut max idx m w c = ground (arith, length-upsert_version_old idx.versions m c)

-- A put of an ID that is not listed is a push.
pub put_new_lem :
    (idx : VersionIndex) (m : VersionEntry)
    → contains_version m.version_id idx.versions ≡ false
    → put_version idx m ≡ push_version idx m
unfolding put_version push_version
put_new_lem idx m c = rw (upsert_version_new idx.versions m c)

no_cut : (max : ℤ) (idx : VersionIndex) → prune_cut max idx ≡ 0 → pruned_index max idx ≡ idx
unfolding pruned_index
no_cut max idx e = rw e

-- What `WriteVersionRaw` saves is valid: a valid index with a version put in place of the one with
-- its ID or added as the last, after pruning. The ID is not empty, and the index was within the
-- limit before.
pub pruned_put-IsValid :
    (max : ℤ) (idx : VersionIndex) (m : VersionEntry)
    → IsValid idx
    → IsWithin max idx
    → m.version_id ≢ []
    → IsValid (pruned_index max (put_version idx m))
pruned_put-IsValid max idx m k w h =
    elim (Bool-cases (contains_version m.version_id idx.versions)) [
      | inl c ↦
          rw (no_cut max (put_version idx m) (put_old_cut max idx m w c))
            (put_version-IsValid idx m k h)
      | inr c ↦ rw (put_new_lem idx m c) (pruned_push-IsValid max idx m k h c)
    ]

without-eq-nil :
    (id k : Text) (vs : List VersionEntry)
    → without k vs ≡ []
    → contains_version id vs ≡ true
    → id ≡ k
unfolding contains_version
without-eq-nil id k vs e c =
    ground (arith, contains_version-without id k vs, eq_iff k id, ap (contains_version id) e)

removed-IsValid :
    (idx : VersionIndex) (id : Text)
    → IsValid idx
    → contains_version id idx.versions ≡ true
    → IsValid (record idx {
      versions = without id idx.versions;
      latest = if idx.latest == id then last_id (without id idx.versions) else idx.latest;
    })
unfolding last_id contains_version
removed-IsValid idx id k c = record {
  distinct = AreDistinct-without id idx.versions k.distinct;
  latest_when_empty = λ e. ground (
    arith,
    without-eq-nil idx.latest id idx.versions e,
    eq_iff idx.latest id,
    k.latest_is_listed,
    ap (contains_version id) {x = idx.versions} {y = []},
    ap last_id e,
  );
  latest_is_listed = λ h. ground (
    arith,
    contains_version-last_id (without id idx.versions) h,
    eq_iff idx.latest id,
    eq_iff id idx.latest,
    contains_version-without idx.latest id idx.versions,
    k.latest_is_listed,
    ap (contains_version id) {x = idx.versions} {y = []},
  );
}

-- The second list is the first without the entries of an ID.
pub data IsRest (id : Text) : List VersionEntry → List VersionEntry → Type 0 where
  end : IsRest id [] []
  gone :
      {v : VersionEntry} {vs us : List VersionEntry}
      → v.version_id ≡ id
      → IsRest id vs us
      → IsRest id (v ∷ vs) us
  kept :
      {v : VersionEntry} {vs us : List VersionEntry}
      → v.version_id ≢ id
      → IsRest id vs us
      → IsRest id (v ∷ vs) (v ∷ us)

-- The ID of the last entry, or the empty text where there is none.
pub data IsLast (t : Text) : List VersionEntry → Type 0 where
  of_none : t ≡ [] → IsLast t []
  of_last :
      (us : List VersionEntry) (v : VersionEntry) → t ≡ v.version_id → IsLast t (us ++ (v ∷ []))

IsRest-without : (id : Text) (vs : List VersionEntry) → IsRest id vs (without id vs)
unfolding without
IsRest-without id [] = end
IsRest-without id (v ∷ vs) = elim (Bool-cases (v.version_id == id)) [
  | inl b ↦ rw b (gone (ground (arith, eq_iff v.version_id id)) (IsRest-without id vs))
  | inr b ↦ rw b (kept (λ e. ground (arith, eq_iff v.version_id id)) (IsRest-without id vs))
]

IsLast-cons :
    (v : VersionEntry) (vs : List VersionEntry) (t : Text)
    → vs ≢ []
    → IsLast t vs
    → IsLast t (v ∷ vs)
IsLast-cons v vs t n (of_none e) = absurd (n refl)
IsLast-cons v vs t n (of_last us u e) = of_last (v ∷ us) u e

IsLast-last_id : (vs : List VersionEntry) → IsLast (last_id vs) vs
unfolding last_id
IsLast-last_id [] = of_none refl
IsLast-last_id (v ∷ []) = of_last [] v refl
IsLast-last_id (v ∷ u ∷ vs) =
    IsLast-cons v (u ∷ vs) (last_id (u ∷ vs)) (λ e. absurd (cc e)) (IsLast-last_id (u ∷ vs))

-- A delete that found its version makes a valid index of a valid one. The version is not listed any
-- more, and the other entries are, in their order. The latest version stays the latest if another
-- one went. Where it was itself the one that went, the last of the entries that are left becomes
-- the latest, or none does when none is left.
pub remove_version-IsValid :
    (idx idx' : VersionIndex) (id : Text)
    → IsValid idx
    → remove_version idx id ≡ ok idx'
    → IsValid idx'
      × (contains_version id idx.versions ≡ true)
      × IsRest id idx.versions idx'.versions
      × (id ≢ idx.latest → idx'.latest ≡ idx.latest)
      × (id ≡ idx.latest → IsLast idx'.latest idx'.versions)
unfolding remove_version
remove_version-IsValid idx idx' id k e = elim (Bool-cases (contains_version id idx.versions)) [
  | inl c ↦
      subst
        (λ x.
          IsValid x
          × (contains_version id idx.versions ≡ true)
          × IsRest id idx.versions x.versions
          × (id ≢ idx.latest → x.latest ≡ idx.latest)
          × (id ≡ idx.latest → IsLast x.latest x.versions))
        (ok-injective (rw c at e))
        (
          removed-IsValid idx id k c,
          c,
          IsRest-without id idx.versions,
          (λ n. ground (arith, eq_iff idx.latest id, n)),
          (λ same.
              subst (λ t. IsLast t (without id idx.versions))
                (ground (arith, eq_iff idx.latest id, same))
                (IsLast-last_id (without id idx.versions))),
        )
  | inr c ↦ absurd (ground arith)
]

nil_cases : (vs : List VersionEntry) → (vs ≡ []) ⊎ (vs ≢ [])
nil_cases [] = inl refl
nil_cases (v ∷ vs) = inr (λ e. cc)

-- A listed ID is not empty.
pub listed-ne-nil :
    (id : Text) (vs : List VersionEntry) → AreDistinct vs → contains_version id vs ≡ true → id ≢ []
unfolding contains_version
listed-ne-nil id [] d c = absurd (ground arith)
listed-ne-nil id (v ∷ vs) d c = ground (arith, eq_iff v.version_id id, listed-ne-nil id vs d.2)

resolve_version_listed :
    (idx : VersionIndex)
    → IsValid idx
    → contains_version idx.latest idx.versions ≡ true
    → (v : VersionEntry) × (resolve_version idx [] ≡ ok v) × (v.version_id ≡ idx.latest)
unfolding resolve_version
resolve_version_listed idx k c =
    let r = find_version_listed idx.latest idx.versions c in
    (
      r.0,
      ground (
        arith,
        r.1,
        eq_iff {A = Text} [] [],
        eq_iff idx.latest [],
        listed-ne-nil idx.latest idx.versions k.distinct c,
      ),
      r.2,
    )

-- In a valid index the latest version is found when it is asked for by the empty ID, and it is
-- refused exactly as having no versions when the index has none.
resolve_version_latest :
    (idx : VersionIndex)
    → IsValid idx
    → ((idx.versions ≡ []) × (resolve_version idx [] ≡ err no_versions))
      ⊎ ((v : VersionEntry) × (resolve_version idx [] ≡ ok v) × (v.version_id ≡ idx.latest))
unfolding resolve_version
resolve_version_latest idx k = elim (Bool-cases (contains_version idx.latest idx.versions)) [
  | inl c ↦ inr (resolve_version_listed idx k c)
  | inr c ↦ inl (when_unlisted (λ h. ground (arith, k.latest_is_listed h)))
]
  where
    when_unlisted :
        ¬ (idx.versions ≢ []) → (idx.versions ≡ []) × (resolve_version idx [] ≡ err no_versions)
    when_unlisted h = elim (nil_cases idx.versions) [
      | inl e ↦
          (e, ground (arith, k.latest_when_empty e, eq_iff {A = Text} [] [], eq_iff idx.latest []))
      | inr n ↦ absurd (h n)
    ]
