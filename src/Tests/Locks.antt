-- ===== src/Tests/Locks.antt =====
-- The mutexes that a store hands out.
use weave_fs.Base.{ℕ, [], ◌∷◌, codes, ◌≡◌, ◌↔◌, refl, list_beq, nat_eq}
use weave_fs.Exec.{World}
use weave_fs.Store.Locks.Steps.{
  lists, asks_for, is_shared, Task, perform, idle, waiting, inside, System, moved, Agree, arrive,
  enter, Reach, opened, later,
}
use weave_fs.Store.Locks.Exclusion.{Reach-excludes, moved_all}
use weave_fs.Tests.Library.{small_lib, small_store, small_world}
use weave_fs.Store.Locks.{Locks, map_key, lock_for_key, locks_after, lock_for_key_same_iff}

-- Two pairs whose parts join to the same text share a mutex, and a third has its own.
shared :
    (lock_for_key (codes "n:a") (codes "b") (lock_for_key (codes "n") (codes "a:b") []).1).0 ≡ 0
unfolding lock_for_key map_key list_beq
shared = refl

independent :
    (lock_for_key (codes "n") (codes "b") (lock_for_key (codes "n") (codes "a") []).1).0 ≡ 1
unfolding lock_for_key map_key list_beq
independent = refl

lock_for_key_same_iff_example :
    ((lock_for_key (codes "n") (codes "a:b") (locks_after ((codes "n", codes "b") ∷ []) [])).0
      ≡ (lock_for_key (codes "n:a") (codes "b") (
          locks_after
            ((codes "m", codes "b") ∷ [])
            (lock_for_key
              (codes "n")
              (codes "a:b")
              (locks_after ((codes "n", codes "b") ∷ []) [])).1)).0)
    ↔ (map_key (codes "n") (codes "a:b") ≡ map_key (codes "n:a") (codes "b"))
lock_for_key_same_iff_example =
    lock_for_key_same_iff ((codes "n", codes "b") ∷ []) ((codes "m", codes "b") ∷ []) (codes "n")
      (codes "a:b") (codes "n:a") (codes "b")

abbrev listing : Task
listing = record { node_id = codes "n"; key = codes "a"; operation = lists }

abbrev asking : Task
asking = record { node_id = codes "n"; key = codes "a"; operation = asks_for }

abbrev first_in : System
first_in = record {
  locks = (lock_for_key (codes "n") (codes "a") []).1;
  phase = moved (moved (λ t. idle) 0 (waiting 0 listing)) 0 (inside 0 listing);
  world = small_world;
}

abbrev again : ℕ × Locks
again = lock_for_key (codes "n") (codes "a") first_in.locks

abbrev both_in : System
both_in = record {
  locks = again.1;
  phase = moved (moved first_in.phase 1 (waiting again.0 asking)) 1 (inside again.0 asking);
  world = small_world;
}

agreed : (u : ℕ) → Agree (inside again.0 asking) (moved first_in.phase 1 (waiting again.0 asking) u)
unfolding is_shared
agreed =
    let other = Agree (inside again.0 asking) in
    moved_all other first_in.phase 1 (waiting again.0 asking)
      (moved_all other (moved (λ t. idle) 0 (waiting 0 listing)) 0 (inside 0 listing)
        (moved_all other (λ t. idle) 0 (waiting 0 listing) (λ u. tt) tt) (λ e. (refl, refl)))
      tt

two_readers : Reach small_lib small_store small_world both_in
unfolding lock_for_key
two_readers =
    later
      (later
        (later (later opened (arrive 0 listing refl)) (
          enter 0 0 listing refl (λ u h.
            moved_all (Agree (inside 0 listing)) (λ t. idle) 0 (waiting 0 listing) (λ u. tt) tt u)))
        (arrive 1 asking refl))
      (enter 1 again.0 asking refl (λ u h. agreed u))

Reach-excludes_example :
    ((v : World) → (perform small_lib small_store listing v).files ≡ v.files)
    × ((v : World) → (perform small_lib small_store asking v).files ≡ v.files)
unfolding lock_for_key
Reach-excludes_example =
    Reach-excludes small_lib small_store 0 1 0 again.0 listing asking two_readers
      (λ e. absurd (cc e)) refl refl refl refl
