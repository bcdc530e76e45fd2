-- ===== src/Store/Locks.antt =====
-- internal/store/store.go: the mutexes of a store, one for each node and key. A mutex is the number
-- of its allocation, and a `sync.Map` the list of its entries, the newest in front.
pub mod Steps
pub mod Exclusion
use weave_fs.Base.{
  ℕ, Option, none, some, List, [], ◌∷◌, ◌++◌, Text, length, codes, ◌==◌, nat_eq, list_eq, eq_iff,
  if◌then◌else◌, ◌≡◌, ◌↔◌, ◌<◌, refl, arith, ap, sym, ◌∙◌,
}
use weave_fs.Exec.Laws.{some-injective}

abbrev pub Locks : Type 0
Locks = List (Text × ℕ)

unfoldable pub map_key : Text → Text → Text
map_key node_id key = node_id ++ (codes ":" ++ key)

unfoldable find_lock : Text → Locks → Option ℕ
find_lock k [] = none
find_lock k ((k', m) ∷ l) = if k == k' then some m else find_lock k l

-- The second half of `sync.Map.LoadOrStore`: what was found, or a new mutex.
unfoldable loaded_or_stored : Text → Locks → Option ℕ → ℕ × Locks
loaded_or_stored k l (some m) = (m, l)
loaded_or_stored k l none = (length l, (k, length l) ∷ l)

unfoldable pub lock_for_key : Text → Text → Locks → ℕ × Locks
unfolding map_key find_lock loaded_or_stored
lock_for_key node_id key l = let k = map_key node_id key in loaded_or_stored k l (find_lock k l)

-- Calls of `lockForKey`, one after the other.
unfoldable pub locks_after : List (Text × Text) → Locks → Locks
unfolding lock_for_key
locks_after [] l = l
locks_after ((node_id, key) ∷ calls) l = locks_after calls (lock_for_key node_id key l).1

-- Every mutex has the number of its allocation.
AreNumbered : Locks → Type 0
AreNumbered [] = Unit
AreNumbered ((k, m) ∷ l) = (m ≡ length l) × AreNumbered l

found_below : (k : Text) (l : Locks) (m : ℕ) → AreNumbered l → find_lock k l ≡ some m → m < length l
unfolding AreNumbered find_lock
found_below k [] m h e = absurd (cc e)
found_below k ((k', n) ∷ l) m (h, hs) e = ground (arith, found_below k l m hs)

find_lock-injective :
    (k k' : Text) (l : Locks) (m : ℕ)
    → AreNumbered l
    → find_lock k l ≡ some m
    → find_lock k' l ≡ some m
    → k ≡ k'
unfolding AreNumbered find_lock
find_lock-injective k k' [] m h e e' = absurd (cc e)
find_lock-injective k k' ((k'', n) ∷ l) m (h, hs) e e' = ground (
  arith,
  eq_iff k k'',
  eq_iff k' k'',
  found_below k l m hs,
  found_below k' l m hs,
  find_lock-injective k k' l m hs,
)

loaded_or_stored-AreNumbered :
    (k : Text) (l : Locks) (f : Option ℕ) → AreNumbered l → AreNumbered (loaded_or_stored k l f).1
unfolding AreNumbered loaded_or_stored
loaded_or_stored-AreNumbered k l (some m) h = h
loaded_or_stored-AreNumbered k l none h = (refl, h)

-- The entry of a mutex that was handed out.
find_lock-loaded_or_stored :
    (k : Text) (l : Locks) (f : Option ℕ)
    → find_lock k l ≡ f
    → find_lock k (loaded_or_stored k l f).1 ≡ some (loaded_or_stored k l f).0
unfolding loaded_or_stored find_lock
find_lock-loaded_or_stored k l (some m) e = e
find_lock-loaded_or_stored k l none e = ground (arith, eq_iff k k)

find_lock-lock_for_key :
    (node_id key : Text) (l : Locks)
    → find_lock (map_key node_id key) (lock_for_key node_id key l).1
      ≡ some (lock_for_key node_id key l).0
unfolding lock_for_key
find_lock-lock_for_key node_id key l =
    let k = map_key node_id key in find_lock-loaded_or_stored k l (find_lock k l) refl

-- No entry is ever replaced.
loaded_or_stored_keeps :
    (k k' : Text) (l : Locks) (f : Option ℕ) (m : ℕ)
    → find_lock k' l ≡ f
    → find_lock k l ≡ some m
    → find_lock k (loaded_or_stored k' l f).1 ≡ some m
unfolding loaded_or_stored find_lock
loaded_or_stored_keeps k k' l (some n) m e found = found
loaded_or_stored_keeps k k' l none m e found = ground (arith, eq_iff k k')

lock_for_key_keeps :
    (k node_id key : Text) (l : Locks) (m : ℕ)
    → find_lock k l ≡ some m
    → find_lock k (lock_for_key node_id key l).1 ≡ some m
unfolding lock_for_key
lock_for_key_keeps k node_id key l m =
    let k' = map_key node_id key in loaded_or_stored_keeps k k' l (find_lock k' l) m refl

locks_after_keeps :
    (k : Text) (calls : List (Text × Text)) (l : Locks) (m : ℕ)
    → find_lock k l ≡ some m
    → find_lock k (locks_after calls l) ≡ some m
unfolding locks_after
locks_after_keeps k [] l m found = found
locks_after_keeps k ((node_id, key) ∷ calls) l m found =
    locks_after_keeps k calls (lock_for_key node_id key l).1 m
      (lock_for_key_keeps k node_id key l m found)

lock_for_key-AreNumbered :
    (node_id key : Text) (l : Locks) → AreNumbered l → AreNumbered (lock_for_key node_id key l).1
unfolding lock_for_key
lock_for_key-AreNumbered node_id key l =
    let k = map_key node_id key in loaded_or_stored-AreNumbered k l (find_lock k l)

locks_after-AreNumbered :
    (calls : List (Text × Text)) (l : Locks) → AreNumbered l → AreNumbered (locks_after calls l)
unfolding locks_after
locks_after-AreNumbered [] l h = h
locks_after-AreNumbered ((node_id, key) ∷ calls) l h =
    locks_after-AreNumbered calls (lock_for_key node_id key l).1
      (lock_for_key-AreNumbered node_id key l h)

-- Two calls of a store, with any calls before and between them, hand out the same mutex exactly
-- when the node's ID, a colon and the key make up the same text in both.
pub lock_for_key_same_iff :
    (before between : List (Text × Text)) (node_id key node_id' key' : Text)
    → ((lock_for_key node_id key (locks_after before [])).0
        ≡ (lock_for_key node_id' key'
            (locks_after between (lock_for_key node_id key (locks_after before [])).1)).0)
      ↔ (map_key node_id key ≡ map_key node_id' key')
lock_for_key_same_iff before between node_id key node_id' key' =
    let first = lock_for_key node_id key (locks_after before []) in
    let later = locks_after between first.1 in
    let last = lock_for_key node_id' key' later in
    let kept : find_lock (map_key node_id key) later ≡ some first.0 =
      locks_after_keeps (map_key node_id key) between first.1 first.0
        (find_lock-lock_for_key node_id key (locks_after before [])) in
    let still : find_lock (map_key node_id key) last.1 ≡ some first.0 =
      lock_for_key_keeps (map_key node_id key) node_id' key' later first.0 kept in
    let entry : find_lock (map_key node_id' key') last.1 ≡ some last.0 =
      find_lock-lock_for_key node_id' key' later in
    (
      (λ e.
          find_lock-injective (map_key node_id key) (map_key node_id' key') last.1 first.0
            (lock_for_key-AreNumbered node_id' key' later (
              locks_after-AreNumbered between first.1 (
                lock_for_key-AreNumbered node_id key (locks_after before [])
                  (locks_after-AreNumbered before [] (unfold AreNumbered in tt)))))
            still (entry ∙ ap some (sym e))),
      (λ e. some-injective (sym still ∙ ap (λ k. find_lock k last.1) e ∙ entry)),
    )
