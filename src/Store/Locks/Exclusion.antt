-- ===== src/Store/Locks/Exclusion.antt =====
-- However goroutines interleave, an operation that writes has its key to itself.
use weave_fs.Base.{ℕ, true, some, Text, nat_eq, ◌≡◌, ◌≢◌, arith, ap, sym, ◌∙◌, subst}
use native.Mathlib.Decide.{ℕ_discrete}
use weave_fs.Exec.{World}
use weave_fs.Exec.Laws.{some-injective}
use weave_fs.Store.Version.{Library}
use weave_fs.Store.Paths.{Store}
use weave_fs.Store.Reads.{
  has-files, list_versions-files, version_info-files, read_version-files, read_version_raw-files,
}
use weave_fs.Store.Locks.{
  Locks, map_key, find_lock, lock_for_key, AreNumbered, lock_for_key_keeps,
  lock_for_key-AreNumbered, find_lock-lock_for_key,
}
use weave_fs.Store.Locks.Steps.{
  Operation, asks_for, lists, deletes_all, informs, reads, reads_raw, deletes, writes, writes_raw,
  is_shared, Task, perform, Phase, idle, waiting, inside, System, moved, Agree, Step, arrive, enter,
  leave, Reach, opened, later,
}

-- A goroutine that knows a mutex knows the one of its key.
Knows : Locks → Phase → Type 0
Knows l idle = Unit
Knows l (waiting m task) = find_lock (map_key task.node_id task.key) l ≡ some m
Knows l (inside m task) = find_lock (map_key task.node_id task.key) l ≡ some m

Knows-lock_for_key :
    (node_id key : Text) (l : Locks) (p : Phase)
    → Knows l p
    → Knows (lock_for_key node_id key l).1 p
unfolding Knows
Knows-lock_for_key node_id key l idle h = tt
Knows-lock_for_key node_id key l (waiting m task) h =
    lock_for_key_keeps (map_key task.node_id task.key) node_id key l m h
Knows-lock_for_key node_id key l (inside m task) h =
    lock_for_key_keeps (map_key task.node_id task.key) node_id key l m h

Agree-swap : (p q : Phase) → Agree p q → Agree q p
Agree-swap idle idle h = tt
Agree-swap idle (waiting n b) h = tt
Agree-swap idle (inside n b) h = tt
Agree-swap (waiting m a) idle h = tt
Agree-swap (waiting m a) (waiting n b) h = tt
Agree-swap (waiting m a) (inside n b) h = tt
Agree-swap (inside m a) idle h = tt
Agree-swap (inside m a) (waiting n b) h = tt
Agree-swap (inside m a) (inside n b) h = λ e. let both = h (sym e) in (both.1, both.0)

Agree-idle : (q : Phase) → Agree idle q
Agree-idle idle = tt
Agree-idle (waiting n b) = tt
Agree-idle (inside n b) = tt

Agree-waiting : (m : ℕ) (task : Task) (q : Phase) → Agree (waiting m task) q
Agree-waiting m task idle = tt
Agree-waiting m task (waiting n b) = tt
Agree-waiting m task (inside n b) = tt

moved_self : (f : ℕ → Phase) (t u : ℕ) (p : Phase) → t ≡ u → moved f t p u ≡ p
moved_self f t u p e = ground arith

moved_ne : (f : ℕ → Phase) (t u : ℕ) (p : Phase) → t ≢ u → moved f t p u ≡ f u
moved_ne f t u p h = ground arith

-- What holds of every phase but for one, and of the new one, holds once it moved.
pub moved_all :
    (P : Phase → Type 0) (f : ℕ → Phase) (t : ℕ) (p : Phase)
    → ((u : ℕ) → P (f u))
    → P p
    → (u : ℕ) → P (moved f t p u)
moved_all P f t p old new u = elim (ℕ_discrete t u) [
  | yes e ↦ subst P (sym (moved_self f t u p e)) new
  | no n ↦ subst P (sym (moved_ne f t u p n)) (old u)
]

moved_apart :
    (f : ℕ → Phase) (t : ℕ) (p : Phase)
    → ((u v : ℕ) → u ≢ v → Agree (f u) (f v))
    → ((u : ℕ) → t ≢ u → Agree p (f u))
    → (u v : ℕ) → u ≢ v
    → Agree (moved f t p u) (moved f t p v)
moved_apart f t p old new u v differ = elim (ℕ_discrete t u) [
  | yes e ↦
      let n : t ≢ v = λ d. differ (sym e ∙ d) in
      subst (λ x. Agree x (moved f t p v)) (sym (moved_self f t u p e))
        (subst (λ x. Agree p x) (sym (moved_ne f t v p n)) (new v n))
  | no n ↦
      subst (λ x. Agree x (moved f t p v)) (sym (moved_ne f t u p n))
        (elim (ℕ_discrete t v) [
          | yes e ↦
              subst (λ x. Agree (f u) x) (sym (moved_self f t v p e)) (Agree-swap p (f u) (new u n))
          | no k ↦ subst (λ x. Agree (f u) x) (sym (moved_ne f t v p k)) (old u v differ)
        ])
]

record IsExclusive (x : System) : Type 0 where
  pub numbered : AreNumbered x.locks
  pub known : (t : ℕ) → Knows x.locks (x.phase t)
  pub apart : (t u : ℕ) → t ≢ u → Agree (x.phase t) (x.phase u)

module _ (lib : Library) (s : Store) where
  Step-IsExclusive : {x y : System} → Step lib s x y → IsExclusive x → IsExclusive y
  unfolding Knows
  Step-IsExclusive {x} (arrive t task e) h =
      let l = (lock_for_key task.node_id task.key x.locks).1 in
      let p = waiting (lock_for_key task.node_id task.key x.locks).0 task in
      record {
        numbered = lock_for_key-AreNumbered task.node_id task.key x.locks h.numbered;
        known =
            moved_all (Knows l) x.phase t p
              (λ u. Knows-lock_for_key task.node_id task.key x.locks (x.phase u) (h.known u))
              (find_lock-lock_for_key task.node_id task.key x.locks);
        apart =
            moved_apart x.phase t p h.apart (λ u n.
              Agree-waiting (lock_for_key task.node_id task.key x.locks).0 task (x.phase u));
      }
  Step-IsExclusive {x} (enter t m task e free) h = record {
    numbered = h.numbered;
    known =
        moved_all (Knows x.locks) x.phase t (inside m task) h.known
          (subst (Knows x.locks) e (h.known t));
    apart = moved_apart x.phase t (inside m task) h.apart free;
  }
  Step-IsExclusive {x} (leave t m task e) h = record {
    numbered = h.numbered;
    known = moved_all (Knows x.locks) x.phase t idle h.known tt;
    apart = moved_apart x.phase t idle h.apart (λ u n. Agree-idle (x.phase u));
  }

  Reach-IsExclusive : {w : World} {x : System} → Reach lib s w x → IsExclusive x
  unfolding Knows AreNumbered
  Reach-IsExclusive opened = record { numbered = tt; known = λ t. tt; apart = λ t u n. tt }
  Reach-IsExclusive (later r st) = Step-IsExclusive st (Reach-IsExclusive r)

  -- The operations that share a mutex change no file.
  shared-files :
      (task : Task) (w : World)
      → is_shared task.operation ≡ true
      → (perform lib s task w).files ≡ w.files
  unfolding perform is_shared
  shared-files task w h = go task.operation h
    where
      go :
          (o : Operation)
          → is_shared o ≡ true
          → (perform lib s
              (record { node_id = task.node_id; key = task.key; operation = o })
              w).files
            ≡ w.files
      go asks_for h = has-files lib s task.node_id task.key w
      go lists h = list_versions-files lib s task.node_id task.key w
      go (informs id) h = version_info-files lib s task.node_id task.key id w
      go (reads id) h = read_version-files lib s task.node_id task.key id w
      go (reads_raw id) h = read_version_raw-files lib s task.node_id task.key id w
      go deletes_all h = absurd (cc h)
      go (deletes id) h = absurd (cc h)
      go (writes message r) h = absurd (cc h)
      go (writes_raw meta r) h = absurd (cc h)

  -- However the goroutines of a store interleave, two that are inside their operations at once on
  -- the same key of the same node are both readers, and neither changes a file, whatever faults it
  -- meets: an operation that writes has its key to itself.
  pub Reach-excludes :
      {w : World} {x : System} (t u m n : ℕ) (a b : Task)
      → Reach lib s w x
      → t ≢ u
      → x.phase t ≡ inside m a
      → x.phase u ≡ inside n b
      → a.node_id ≡ b.node_id
      → a.key ≡ b.key
      → ((v : World) → (perform lib s a v).files ≡ v.files)
        × ((v : World) → (perform lib s b v).files ≡ v.files)
  unfolding Knows
  Reach-excludes {x = x} t u m n a b r differ at_a at_b same_node same_key =
      let h = Reach-IsExclusive r in
      let known_a : find_lock (map_key a.node_id a.key) x.locks ≡ some m =
        subst (Knows x.locks) at_a (h.known t) in
      let known_b : find_lock (map_key b.node_id b.key) x.locks ≡ some n =
        subst (Knows x.locks) at_b (h.known u) in
      let one : m ≡ n = some-injective (
        sym known_a
        ∙ ap (λ k. find_lock k x.locks) (λ i. map_key (same_node i) (same_key i))
        ∙ known_b) in
      let agree : Agree (inside m a) (inside n b) =
        subst (λ p. Agree p (inside n b)) at_a
          (subst (λ p. Agree (x.phase t) p) at_b (h.apart t u differ)) in
      (λ v. shared-files a v (agree one).0, λ v. shared-files b v (agree one).1)
