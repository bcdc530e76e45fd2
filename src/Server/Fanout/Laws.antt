-- ===== src/Server/Fanout/Laws.antt =====
-- What a fan-out reports adds up.
use weave_fs.Base.{
  ℕ, suc, ◌+◌, List, [], ◌∷◌, Text, length, ◌≡◌, refl, arith, ap, subst, Bool, true, false,
  if◌then◌else◌,
}
use weave_fs.Exec.{Result, ok, err, World, Exec, not_stored_here}
use weave_fs.Store.Version.{VersionEntry}
use weave_fs.Store.Ops.{has}
use weave_fs.Server.Types.{FileServer, SharePlacement, ShareResult}
use weave_fs.Server.Targets.{select_peers}
use weave_fs.Server.Fanout.{
  slots, failures_of, successes_of, replicated, shared_with, send_blob, replicate, send_readable,
  share_held, share, dest_or,
}

length-slots :
    {A : Type 0} (send : Text → Exec A) (ps : List Text) (w : World)
    → length (slots send ps w).0 ≡ length ps
unfolding slots
length-slots send [] w = refl
length-slots send (p ∷ ps) w = ap suc (length-slots send ps (send p w).1)

length-successes_of :
    {A : Type 0} (rs : List (Text × Result A))
    → length (successes_of rs) + length (failures_of rs) ≡ length rs
unfolding successes_of failures_of
length-successes_of [] = refl
length-successes_of ((p, ok a) ∷ rs) = omega (arith, length-successes_of rs)
length-successes_of ((p, err e) ∷ rs) = omega (arith, length-successes_of rs)

-- A replication reports on every peer that was selected: those that stored the version and those
-- that are named as failures are as many as were tried.
pub replicate_counts :
    (srv : FileServer) (key : Text) (entry : VersionEntry) (w : World)
    → ((replicate srv key entry w).0.peers_tried
        ≡ length (select_peers srv.replication_factor srv.peers))
      × ((replicate srv key entry w).0.peers_stored + length (replicate srv key entry w).0.failures
          ≡ (replicate srv key entry w).0.peers_tried)
unfolding replicate replicated
replicate_counts srv key entry w = (
  length-slots (send_blob srv key entry) (select_peers srv.replication_factor srv.peers) w,
  length-successes_of
      (slots (send_blob srv key entry) (select_peers srv.replication_factor srv.peers) w).0,
)

Adds : ℕ → ShareResult → Type 0
Adds n r =
    (r.peers_tried ≡ n)
    × (length r.placements ≡ r.peers_stored)
    × (r.peers_stored + length r.failures ≡ r.peers_tried)

shared_with-Adds :
    (n : ℕ) (rs : List (Text × Result SharePlacement)) → length rs ≡ n → Adds n (shared_with rs)
unfolding shared_with Adds
shared_with-Adds n rs e = (e, refl, length-successes_of rs)

share_held_counts :
    (srv : FileServer) (targets : List Text) (src_key version_id dest_key message : Text)
    (w w' : World) (r : ShareResult)
    → share_held srv targets src_key version_id dest_key message w ≡ (ok r, w')
    → Adds (length targets) r
unfolding share_held
share_held_counts srv [] src_key version_id dest_key message w w' r e = absurd (cc e)
share_held_counts srv (p ∷ ps) src_key version_id dest_key message w w' r e =
    let send = send_readable srv src_key version_id (dest_or dest_key src_key) message in
    let same : shared_with (slots send (p ∷ ps) w).0 ≡ r = cc e in
    subst (Adds (suc (length ps))) same
      (shared_with-Adds (suc (length ps)) (slots send (p ∷ ps) w).0 (length-slots send (p ∷ ps) w))

share_counts_if :
    (srv : FileServer) (targets : List Text) (src_key version_id dest_key message : Text)
    (here : Bool) (w w' : World) (r : ShareResult)
    → ◌≡◌ {A = Result ShareResult × World}
        (if here
          then share_held srv targets src_key version_id dest_key message w
          else (err not_stored_here, w))
        (ok r, w')
    → Adds (length targets) r
share_counts_if srv targets src_key version_id dest_key message true w w' r e =
    share_held_counts srv targets src_key version_id dest_key message w w' r e
share_counts_if srv targets src_key version_id dest_key message false w w' r e = absurd (cc e)

-- The report of a share that returned adds up: it tried every target, it lists as many placements
-- as peers stored the file, and these and the failures are as many as the targets.
pub share_counts :
    (srv : FileServer) (targets : List Text) (src_key version_id dest_key message : Text)
    (w w' : World) (r : ShareResult)
    → share srv targets src_key version_id dest_key message w ≡ (ok r, w')
    → (r.peers_tried ≡ length targets)
      × (length r.placements ≡ r.peers_stored)
      × (r.peers_stored + length r.failures ≡ r.peers_tried)
unfolding share Adds
share_counts srv targets src_key version_id dest_key message w w' r e =
    let (here, w1) = has srv.lib srv.store srv.node_id src_key w in
    share_counts_if srv targets src_key version_id dest_key message here w1 w' r e
