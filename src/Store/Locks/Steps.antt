-- ===== src/Store/Locks/Steps.antt =====
-- internal/store: goroutines that work on one store, in any interleaving. An operation finds its
-- mutex, waits for it, and does its work behind it; its effect is written where it leaves. What
-- `sync.RWMutex` documents says who may enter.
use weave_fs.Base.{ℕ, Bool, true, false, [], Text, ◌==◌, nat_eq, if◌then◌else◌, ◌≡◌, ◌≢◌}
use weave_fs.Exec.{World}
use weave_fs.Disk.{Reader}
use weave_fs.Store.Version.{VersionEntry, Library}
use weave_fs.Store.Paths.{Store}
use weave_fs.Store.Ops.{
  has, list_versions, version_info, read_version, read_version_raw, write_version,
  write_version_raw, delete_version, delete,
}
use weave_fs.Store.Locks.{Locks, lock_for_key}

-- The operations that take the mutex of their key.
pub data Operation : Type 0 where
  asks_for lists deletes_all : Operation
  informs reads reads_raw deletes : Text → Operation
  writes : Text → Reader → Operation
  writes_raw : VersionEntry → Reader → Operation

-- `RLock`, or else `Lock`.
unfoldable pub is_shared : Operation → Bool
is_shared asks_for = true
is_shared lists = true
is_shared (informs id) = true
is_shared (reads id) = true
is_shared (reads_raw id) = true
is_shared _ = false

pub record Task : Type 0 where
  pub node_id : Text
  pub key : Text
  pub operation : Operation

-- The machine behind an operation.
unfoldable pub perform : Library → Store → Task → World → World
perform lib s task w = elim task.operation [
  | asks_for ↦ (has lib s task.node_id task.key w).1
  | lists ↦ (list_versions lib s task.node_id task.key w).1
  | deletes_all ↦ (delete lib s task.node_id task.key w).1
  | informs id ↦ (version_info lib s task.node_id task.key id w).1
  | reads id ↦ (read_version lib s task.node_id task.key id w).1
  | reads_raw id ↦ (read_version_raw lib s task.node_id task.key id w).1
  | deletes id ↦ (delete_version lib s task.node_id task.key id w).1
  | writes message r ↦ (write_version lib s task.node_id task.key message r w).1
  | writes_raw meta r ↦ (write_version_raw lib s task.node_id task.key meta r w).1
]

-- Where a goroutine stands: with the mutex that it was handed.
pub data Phase : Type 0 where
  idle : Phase
  waiting : ℕ → Task → Phase
  inside : ℕ → Task → Phase

pub record System : Type 0 where
  pub locks : Locks
  pub phase : ℕ → Phase
  pub world : World

abbrev pub moved : (ℕ → Phase) → ℕ → Phase → ℕ → Phase
moved phase t p u = if t == u then p else phase u

-- Two goroutines with one mutex are not both inside, unless both are readers.
abbrev pub Agree : Phase → Phase → Type 0
Agree (inside m a) (inside n b) =
    m ≡ n → (is_shared a.operation ≡ true) × (is_shared b.operation ≡ true)
Agree _ _ = Unit

module _ (lib : Library) (s : Store) where
  pub data Step (x : System) : System → Type 0 where
    arrive :
        (t : ℕ) (task : Task)
        → x.phase t ≡ idle
        → Step x (record {
          locks = (lock_for_key task.node_id task.key x.locks).1;
          phase = moved x.phase t (waiting (lock_for_key task.node_id task.key x.locks).0 task);
          world = x.world;
        })
    enter :
        (t m : ℕ) (task : Task)
        → x.phase t ≡ waiting m task
        → ((u : ℕ) → t ≢ u → Agree (inside m task) (x.phase u))
        → Step x
            (record { locks = x.locks; phase = moved x.phase t (inside m task); world = x.world })
    leave :
        (t m : ℕ) (task : Task)
        → x.phase t ≡ inside m task
        → Step x (record {
          locks = x.locks;
          phase = moved x.phase t idle;
          world = perform lib s task x.world;
        })

  pub data Reach (w : World) : System → Type 0 where
    opened : Reach w (record { locks = []; phase = λ t. idle; world = w })
    later : {x y : System} → Reach w x → Step x y → Reach w y
