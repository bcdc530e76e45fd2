-- ===== src/Store/Index/Entries.antt =====
-- Facts on entry lists: which IDs an upsert, a cut and a removal leave.
use weave_fs.Base.{
  ℕ, zero, suc, ◌≤◌, ◌||◌, ◌&&◌, not, true, false, some, List, [], ◌∷◌, ◌++◌, Text, drop, length,
  ◌==◌, nat_eq, list_eq, ◌≡◌, ◌≢◌, refl, arith, eq_iff, Bool-cases, inl, inr,
}
use weave_fs.Store.Version.{VersionEntry}
use weave_fs.Store.Index.{find_version, upsert_version, without, contains_version, last_id}
use weave_fs.Store.Index.Distinct.{AreDistinct}

-- An upsert of a new ID is an addition at the end.
pub upsert_version_new :
    (vs : List VersionEntry) (m : VersionEntry)
    → contains_version m.version_id vs ≡ false
    → upsert_version vs m ≡ vs ++ (m ∷ [])
unfolding contains_version upsert_version
upsert_version_new [] m n = refl
upsert_version_new (v ∷ vs) m n = ground (arith, upsert_version_new vs m)

pub contains_version-upsert_version :
    (id : Text) (vs : List VersionEntry) (m : VersionEntry)
    → contains_version id (upsert_version vs m) ≡ (contains_version id vs || m.version_id == id)
unfolding contains_version upsert_version
contains_version-upsert_version id [] m = ground arith
contains_version-upsert_version id (v ∷ vs) m = ground (
  arith,
  contains_version-upsert_version id vs m,
  eq_iff v.version_id m.version_id,
  eq_iff m.version_id id,
  eq_iff v.version_id id,
)

pub length-upsert_version_old :
    (vs : List VersionEntry) (m : VersionEntry)
    → contains_version m.version_id vs ≡ true
    → length (upsert_version vs m) ≡ length vs
unfolding contains_version upsert_version
length-upsert_version_old [] m n = ground arith
length-upsert_version_old (v ∷ vs) m n = ground (arith, length-upsert_version_old vs m)

pub AreDistinct-upsert_version :
    (vs : List VersionEntry) (m : VersionEntry)
    → AreDistinct vs
    → m.version_id ≢ []
    → AreDistinct (upsert_version vs m)
unfolding contains_version upsert_version
AreDistinct-upsert_version [] m d h = ground arith
AreDistinct-upsert_version (v ∷ vs) m d h = ground (
  arith,
  AreDistinct-upsert_version vs m d.2 h,
  contains_version-upsert_version v.version_id vs m,
  eq_iff v.version_id m.version_id,
  eq_iff m.version_id v.version_id,
)

-- After an upsert the ID finds the new entry.
pub find_version-upsert_version :
    (vs : List VersionEntry) (m : VersionEntry)
    → find_version m.version_id (upsert_version vs m) ≡ some m
unfolding find_version upsert_version
find_version-upsert_version [] m = ground (arith, eq_iff m.version_id m.version_id)
find_version-upsert_version (v ∷ vs) m =
    ground (arith, find_version-upsert_version vs m, eq_iff m.version_id m.version_id)

pub contains_version-drop :
    (n : ℕ) (id : Text) (vs : List VersionEntry)
    → contains_version id vs ≡ false
    → contains_version id (drop n vs) ≡ false
unfolding contains_version
contains_version-drop zero id vs h = h
contains_version-drop (suc n) id [] h = h
contains_version-drop (suc n) id (v ∷ vs) h = ground (arith, contains_version-drop n id vs)

pub AreDistinct-drop : (n : ℕ) (vs : List VersionEntry) → AreDistinct vs → AreDistinct (drop n vs)
AreDistinct-drop zero vs d = d
AreDistinct-drop (suc n) [] d = d
AreDistinct-drop (suc n) (v ∷ vs) d = AreDistinct-drop n vs d.2

-- A cut that does not reach the last entry keeps it last.
pub drop-append_last :
    (n : ℕ) (vs : List VersionEntry) (v : VersionEntry)
    → n ≤ length vs
    → drop n (vs ++ (v ∷ [])) ≡ drop n vs ++ (v ∷ [])
drop-append_last zero vs v h = refl
drop-append_last (suc n) [] v h = absurd (omega arith)
drop-append_last (suc n) (u ∷ vs) v h = drop-append_last n vs v (omega arith)

pub contains_version-without :
    (id k : Text) (vs : List VersionEntry)
    → contains_version id (without k vs) ≡ (contains_version id vs && not (k == id))
unfolding contains_version without
contains_version-without id k [] = refl
contains_version-without id k (v ∷ vs) = ground (
  arith,
  contains_version-without id k vs,
  eq_iff v.version_id k,
  eq_iff v.version_id id,
  eq_iff k id,
)

pub AreDistinct-without :
    (k : Text) (vs : List VersionEntry) → AreDistinct vs → AreDistinct (without k vs)
unfolding contains_version without
AreDistinct-without k [] d = d
AreDistinct-without k (v ∷ vs) d =
    ground (arith, AreDistinct-without k vs d.2, contains_version-without v.version_id k vs)

-- The last ID of a list that has one is in the list.
pub contains_version-last_id :
    (vs : List VersionEntry) → vs ≢ [] → contains_version (last_id vs) vs ≡ true
unfolding contains_version last_id
contains_version-last_id [] h = absurd (h refl)
contains_version-last_id (v ∷ []) h = ground (arith, eq_iff v.version_id v.version_id)
contains_version-last_id (v ∷ u ∷ vs) h =
    ground (arith, contains_version-last_id (u ∷ vs) (λ e. cc))

-- A listed ID finds an entry that bears it.
pub find_version_listed :
    (id : Text) (vs : List VersionEntry)
    → contains_version id vs ≡ true
    → (v : VersionEntry) × (find_version id vs ≡ some v) × (v.version_id ≡ id)
unfolding contains_version find_version
find_version_listed id [] h = absurd (ground arith)
find_version_listed id (v ∷ vs) h = elim (Bool-cases (v.version_id == id)) [
  | inl e ↦ (v, rw e, (eq_iff v.version_id id).0 e)
  | inr e ↦ let r = find_version_listed id vs (ground arith) in (r.0, rw e r.1, r.2)
]
