-- ===== src/Cli/Aliases.antt =====
-- cmd/weavefs/commands.go: the names that a user gives to peers.
use weave_fs.Base.{
  Option, none, some, List, [], ◌∷◌, ◌++◌, Bytes, Text, codes, ◌==◌, nat_eq, list_eq, eq_iff,
  eq_refl, if◌then◌else◌, ◌≡◌, ◌≢◌, refl, arith, inl, inr, Option-cases, Bool-cases, ap, sym, ◌∙◌,
  ◌⊎◌,
}
use weave_fs.Strings.{slash}
use weave_fs.Exec.{marshal_failed, Error, Result, ok, err, World, Exec, pure, raise, calm, ◌>>=◌}
use weave_fs.Disk.{read_file, write_file}
use weave_fs.Disk.Files.{read_file_calm, read_file_ok, write_file_ok}
use weave_fs.Store.Version.{Json}
use weave_fs.Cli.Format.{format_peer, short}

-- A map from peer IDs to names: its entries in the order of some iteration, of which only what is
-- found under a peer ID counts.
abbrev pub Aliases : Type 0
Aliases = List (Text × Text)

abbrev pub aliases_path : Text → Text
aliases_path data_dir = data_dir ++ (slash ∷ codes "aliases.json")

known : Option Aliases → Aliases
known none = []
known (some m) = m

aliases_in : Json Aliases → Result Bytes → Aliases
unfolding known
aliases_in json (err e) = []
aliases_in json (ok b) = known (json.unmarshal b)

-- What cannot be read or understood counts as no aliases.
unfoldable pub load_aliases : Json Aliases → Text → World → Aliases × World
unfolding aliases_in
load_aliases json data_dir w =
    let (r, w') = read_file (aliases_path data_dir) w in (aliases_in json r, w')

marshalled : Option Bytes → Exec Bytes
marshalled none = raise marshal_failed
marshalled (some b) = pure b

unfoldable pub save_aliases : Json Aliases → Text → Aliases → Exec (Unit {0})
unfolding marshalled
save_aliases json data_dir m = do
  b ← marshalled (json.marshal m)
  write_file (aliases_path data_dir) b

-- `aliases[peerID] = name`.
unfoldable pub assign : Text → Text → Aliases → Aliases
assign id name [] = (id, name) ∷ []
assign id name ((k, v) ∷ m) =
    let rest = assign id name m in if k == id then (id, name) ∷ m else (k, v) ∷ rest

-- `runAlias`, of a peer ID and a name.
unfoldable pub run_alias : Json Aliases → Text → Text → Text → Exec (Unit {0})
run_alias json data_dir id name w =
    let (m, w') = load_aliases json data_dir w in save_aliases json data_dir (assign id name m) w'

-- The name that a map has for a peer ID.
unfoldable pub name_of : Text → Aliases → Option Text
name_of id [] = none
name_of id ((k, name) ∷ m) = let other = name_of id m in if k == id then some name else other

shown_as : Text → Option Text → Text
shown_as id none = short id
shown_as id (some name) = name

format_peer_lem : (id : Text) (m : Aliases) → format_peer id m ≡ shown_as id (name_of id m)
unfolding format_peer name_of shown_as
format_peer_lem id [] = refl
format_peer_lem id ((k, name) ∷ m) = elim (Bool-cases (k == id)) [
  | inl b ↦ rw b refl
  | inr b ↦ rw b (format_peer_lem id m)
]

format_peer-name_of :
    (id : Text) (m' m : Aliases)
    → name_of id m' ≡ name_of id m
    → format_peer id m' ≡ format_peer id m
format_peer-name_of id m' m h =
    format_peer_lem id m' ∙ ap (shown_as id) h ∙ sym (format_peer_lem id m)

format_peer-nil : (id : Text) → format_peer id [] ≡ short id
unfolding format_peer
format_peer-nil id = refl

format_peer-assign : (id name : Text) (m : Aliases) → format_peer id (assign id name m) ≡ name
unfolding format_peer assign
format_peer-assign id name [] = ground (arith, eq_refl id)
format_peer-assign id name ((k, v) ∷ m) = ground (arith, eq_refl id, format_peer-assign id name m)

format_peer-assign_other :
    (id other name : Text) (m : Aliases)
    → other ≢ id
    → format_peer other (assign id name m) ≡ format_peer other m
unfolding format_peer assign
format_peer-assign_other id other name [] h = ground (arith, eq_iff id other, h)
format_peer-assign_other id other name ((k, v) ∷ m) h = ground (
  arith,
  eq_iff k id,
  eq_iff id other,
  eq_iff k other,
  h,
  format_peer-assign_other id other name m h,
)

-- What `encoding/json` documents of a map: one that was printed reads back as the same map, with its
-- entries in an order of its own.
pub record KeepsMaps (json : Json Aliases) : Type 0 where
  pub reads_back :
      (m : Aliases) (b : Bytes)
      → json.marshal m ≡ some b
      → (m' : Aliases) × (json.unmarshal b ≡ some m') × ((id : Text) → name_of id m' ≡ name_of id m)

load_saved :
    (json : Json Aliases) (keeps : KeepsMaps json) (data_dir : Text) (m : Aliases) (w w' : World)
    → save_aliases json data_dir m w ≡ (ok tt, w')
    → (id : Text) → format_peer id (load_aliases json data_dir (calm w')).0 ≡ format_peer id m
unfolding save_aliases marshalled load_aliases aliases_in known
load_saved json keeps data_dir m w w' h id = elim (Option-cases (json.marshal m)) [
  | inl e ↦ absurd (cc (rw e at h))
  | inr (b, e) ↦
      let wrote : write_file (aliases_path data_dir) b w ≡ (ok tt, w') = rw e at h in
      let (m', read, same) = keeps.reads_back m b e in
      rw
        (
          read_file_calm (aliases_path data_dir) (calm w') b refl
              (rw wrote at (write_file_ok (aliases_path data_dir) b w) refl),
          read,
        )
        (format_peer-name_of id m' m (same id))
]

-- What the command found of the aliases: all that was there, or nothing because it could not read.
load_aliases-cases :
    (json : Json Aliases) (data_dir : Text) (w : World)
    → ((load_aliases json data_dir w).0 ≡ (load_aliases json data_dir (calm w)).0)
      ⊎ ((e : Error) × ((read_file (aliases_path data_dir) w).0 ≡ err e)
          × ((load_aliases json data_dir w).0 ≡ []))
unfolding load_aliases aliases_in
load_aliases-cases json data_dir w =
    go (read_file (aliases_path data_dir) w).0 (read_file (aliases_path data_dir) w).1 refl
  where
    go :
        (r : Result Bytes) (w1 : World)
        → read_file (aliases_path data_dir) w ≡ (r, w1)
        → ((load_aliases json data_dir w).0 ≡ (load_aliases json data_dir (calm w)).0)
          ⊎ ((e : Error) × ((read_file (aliases_path data_dir) w).0 ≡ err e)
              × ((load_aliases json data_dir w).0 ≡ []))
    go (ok b) w1 h = inl (
        rw
          (
            h,
            read_file_calm (aliases_path data_dir) (calm w) b refl
                (read_file_ok (aliases_path data_dir) w w1 b h),
          )
          refl)
    go (err e) w1 h = inr (e, ap (λ x. x.0) h, rw h refl)

-- A name that was set is shown for its peer: after an alias command that returned, by what the next
-- command loads when it meets no fault. Every other peer is shown as by what was there before, unless
-- the command met an error when it read the aliases, and then every other peer has lost its name. A
-- map that JSON printed reads back as the same map.
pub run_alias-format_peer :
    (json : Json Aliases) (keeps : KeepsMaps json) (data_dir id name other : Text) (w w' : World)
    → run_alias json data_dir id name w ≡ (ok tt, w')
    → other ≢ id
    → (format_peer id (load_aliases json data_dir (calm w')).0 ≡ name)
      × ((format_peer other (load_aliases json data_dir (calm w')).0
            ≡ format_peer other (load_aliases json data_dir (calm w)).0)
          ⊎ ((e : Error) × ((read_file (aliases_path data_dir) w).0 ≡ err e)
              × (format_peer other (load_aliases json data_dir (calm w')).0 ≡ short other)))
unfolding run_alias
run_alias-format_peer json keeps data_dir id name other w w' h differ =
    let (m, w1) = load_aliases json data_dir w in
    let back = load_saved json keeps data_dir (assign id name m) w1 w' h in
    let others = back other ∙ format_peer-assign_other id other name m differ in
    (
      back id ∙ format_peer-assign id name m,
      elim (load_aliases-cases json data_dir w) [
        | inl e ↦ inl (others ∙ ap (format_peer other) e)
        | inr (e, failed, nothing) ↦
            inr (e, failed, others ∙ ap (format_peer other) nothing ∙ format_peer-nil other)
      ],
    )
