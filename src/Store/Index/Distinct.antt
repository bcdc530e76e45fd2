-- ===== src/Store/Index/Distinct.antt =====
-- The predicate that no two entries of an index share an ID.
use weave_fs.Base.{false, List, [], ◌∷◌, ◌≡◌, ◌≢◌}
use weave_fs.Store.Version.{VersionEntry}
use weave_fs.Store.Index.{contains_version}

-- No two entries share an ID, and no ID is empty.
abbrev pub AreDistinct : List VersionEntry → Type 0
AreDistinct [] = Unit
AreDistinct (v ∷ vs) =
    (v.version_id ≢ []) × (contains_version v.version_id vs ≡ false) × AreDistinct vs
