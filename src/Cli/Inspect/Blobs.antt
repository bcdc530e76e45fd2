-- ===== src/Cli/Inspect/Blobs.antt =====
-- What the search for a blob under a folder finds.
use weave_fs.Base.{
  ℕ, false, some, [], ◌∷◌, ◌++◌, Text, ◌==◌, nat_eq, list_eq, if◌then◌else◌, ◌≡◌, ◌≢◌, ◌⊎◌, inl,
  inr, refl, sym, ◌∙◌, arith, eq_iff, Bool-cases,
}
use weave_fs.Strings.{slash}
use weave_fs.Cli.Inspect.{
  Tree, file, unreadable, folder, Folder, no_more, entry, Walked, stopped_at, met_all, failed,
  index_folder, or_else, walk, walk_folder, blob_at, no_blob, cannot_walk, path_of, first_blob_path,
}

-- A file of the tree that lies in no folder of indexes.
unfoldable mutual
  pub IsBlob : Text → Text → Tree → Text → Type 0
  IsBlob path name file p = p ≡ path
  IsBlob path name unreadable p = ⊥
  IsBlob path name (folder f) p = (name ≢ index_folder) × IsBlobIn path f p

  pub IsBlobIn : Text → Folder → Text → Type 0
  IsBlobIn path no_more p = ⊥
  IsBlobIn path (entry name t f) p = IsBlob (path ++ (slash ∷ name)) name t p ⊎ IsBlobIn path f p

-- A folder that cannot be listed and that the walk meets.
unfoldable mutual
  pub HasUnreadable : Text → Tree → Type 0
  HasUnreadable name file = ⊥
  HasUnreadable name unreadable = name ≢ index_folder
  HasUnreadable name (folder f) = (name ≢ index_folder) × HasUnreadableIn f

  pub HasUnreadableIn : Folder → Type 0
  HasUnreadableIn no_more = ⊥
  HasUnreadableIn (entry name t f) = HasUnreadable name t ⊎ HasUnreadableIn f

not_index : (name : Text) → (name == index_folder) ≡ false → name ≢ index_folder
not_index name h e = ground (arith, eq_iff name index_folder)

-- What the end of a walk says of the tree.
Meant : (Text → Type 0) → Type 0 → Walked → Type 0
Meant is_blob broken (stopped_at p) = is_blob p
Meant is_blob broken met_all = (p : Text) → is_blob p → ⊥
Meant is_blob broken failed = broken

folder-Meant :
    (path name : Text) (f : Folder) (r : Walked)
    → Meant (IsBlobIn path f) (HasUnreadableIn f) r
    → Meant
        (IsBlob path name (folder f))
        (HasUnreadable name (folder f))
        (if name == index_folder then met_all else r)
unfolding Meant IsBlob HasUnreadable
folder-Meant path name f r h = elim (Bool-cases (name == index_folder)) [
  | inl b ↦ rw b (λ p blob. blob.0 (ground (arith, eq_iff name index_folder)))
  | inr b ↦ rw b (listed (not_index name b) r h)
]
  where
    listed :
        name ≢ index_folder
        → (r : Walked) → Meant (IsBlobIn path f) (HasUnreadableIn f) r
        → Meant (IsBlob path name (folder f)) (HasUnreadable name (folder f)) r
    listed n (stopped_at p) h = (n, h)
    listed n met_all h = λ p blob. h p blob.1
    listed n failed h = (n, h)

entry-Meant :
    (path name : Text) (t : Tree) (f : Folder) (a b : Walked)
    → Meant (IsBlob (path ++ (slash ∷ name)) name t) (HasUnreadable name t) a
    → Meant (IsBlobIn path f) (HasUnreadableIn f) b
    → Meant (IsBlobIn path (entry name t f)) (HasUnreadableIn (entry name t f)) (or_else a b)
unfolding Meant IsBlob HasUnreadable
entry-Meant path name t f (stopped_at p) b h k = inl h
entry-Meant path name t f failed b h k = inl h
entry-Meant path name t f met_all (stopped_at p) h k = inr k
entry-Meant path name t f met_all failed h k = inr k
entry-Meant path name t f met_all met_all h k =
    λ p blob. elim blob [ inl x ↦ h p x | inr x ↦ k p x ]

mutual
  unfolding walk IsBlob HasUnreadable Meant

  walk-Meant :
      (path name : Text) (t : Tree)
      → Meant (IsBlob path name t) (HasUnreadable name t) (walk path name t)
  walk-Meant path name file = refl
  walk-Meant path name unreadable = elim (Bool-cases (name == index_folder)) [
    | inl b ↦ rw b (λ p blob. blob)
    | inr b ↦ rw b (not_index name b)
  ]
  walk-Meant path name (folder f) =
      folder-Meant path name f (walk_folder path f) (walk_folder-Meant path f)

  walk_folder-Meant :
      (path : Text) (f : Folder) → Meant (IsBlobIn path f) (HasUnreadableIn f) (walk_folder path f)
  walk_folder-Meant path no_more = λ p blob. blob
  walk_folder-Meant path (entry name t f) =
      entry-Meant path name t f (walk (path ++ (slash ∷ name)) name t) (walk_folder path f)
        (walk-Meant (path ++ (slash ∷ name)) name t) (walk_folder-Meant path f)

append_ne : (p : Text) (c : ℕ) (q : Text) → p ++ (c ∷ q) ≢ []
append_ne [] c q = λ e. absurd (cc e)
append_ne (x ∷ p) c q = λ e. absurd (cc e)

mutual
  unfolding IsBlob

  IsBlob-ne : (path name : Text) (t : Tree) (p : Text) → path ≢ [] → IsBlob path name t p → p ≢ []
  IsBlob-ne path name file p h blob = λ e. h (sym blob ∙ e)
  IsBlob-ne path name unreadable p h blob = absurd blob
  IsBlob-ne path name (folder f) p h blob = IsBlobIn-ne path f p blob.1

  IsBlobIn-ne : (path : Text) (f : Folder) (p : Text) → IsBlobIn path f p → p ≢ []
  IsBlobIn-ne path no_more p blob = absurd blob
  IsBlobIn-ne path (entry name t f) p blob = elim blob [
    | inl x ↦ IsBlob-ne (path ++ (slash ∷ name)) name t p (append_ne path slash name) x
    | inr x ↦ IsBlobIn-ne path f p x
  ]

-- The path that is found is that of a file that lies in no folder of indexes. None is found only
-- where there is no such file, and the search fails only at a folder that cannot be listed.
first_blob_path_lem :
    (dir name : Text) (t : Tree)
    → dir ≢ []
    → ((p : Text) × (first_blob_path dir name (some t) ≡ blob_at p) × IsBlob dir name t p)
      ⊎ ((first_blob_path dir name (some t) ≡ no_blob) × ((p : Text) → IsBlob dir name t p → ⊥))
      ⊎ ((first_blob_path dir name (some t) ≡ cannot_walk) × HasUnreadable name t)
unfolding first_blob_path Meant
first_blob_path_lem dir name t h = go (walk dir name t) (walk-Meant dir name t)
  where
    go :
        (r : Walked)
        → Meant (IsBlob dir name t) (HasUnreadable name t) r
        → ((p : Text) × (path_of r ≡ blob_at p) × IsBlob dir name t p)
          ⊎ ((path_of r ≡ no_blob) × ((p : Text) → IsBlob dir name t p → ⊥))
          ⊎ ((path_of r ≡ cannot_walk) × HasUnreadable name t)
    go (stopped_at p) m = inl (p, ground (arith, eq_iff p [], IsBlob-ne dir name t p h m), m)
    go met_all m = inr (inl (refl, m))
    go failed m = inr (inr (refl, m))
