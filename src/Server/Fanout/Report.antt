-- ===== src/Server/Fanout/Report.antt =====
-- What a fan-out reports, tied to the sends: each peer has its own success or its own failure.
use weave_fs.Base.{
  ◌+◌, length, ℤ, Bool, true, false, some, List, [], ◌∷◌, Text, nat_eq, list_eq, if◌then◌else◌, ◌≡◌,
  refl, ap, subst, sym,
}
use weave_fs.Exec.{guard, Error, Result, ok, err, World, Exec, peer_refused, not_stored_here}
use weave_fs.Exec.Laws.{ok-injective, >>=-eq-ok, guard-eq-ok}
use weave_fs.Disk.{Reader}
use weave_fs.Store.Version.{VersionEntry}
use weave_fs.Store.Ops.{read_version_raw, read_version, has}
use weave_fs.Proto.Messages.{ShareRequest, ShareResponse}
use weave_fs.Server.Types.{
  Dialled, FileServer, ReplicaFailure, SharePlacement, WriteResult, ShareResult,
}
use weave_fs.Server.Targets.{select_peers}
use weave_fs.Server.Fanout.Laws.{replicate_counts}
use weave_fs.Server.Fanout.{
  store_protocol, share_protocol, open_stream, exchange, slots, failures_of, successes_of,
  replicated, replicate, shared_with, dest_or, send_blob, send_readable, share_held, share,
}
use weave_fs.Server.Fanout.Exchange.{
  Exchanged, exchange-Exchanged, open_stream-eq-ok, Sent, send_blob-Sent,
}

-- The successes and the failures of a list of peers, in its order: each peer has one of either.
pub data Reported {A : Type 0} (Took : Text → A → Type 0) (Failed : Text → Error → Type 0)
    : List Text → List A → List ReplicaFailure → Type 0 where
  of_none : Reported Took Failed [] [] []
  by_success :
      {p : Text} {a : A} {ps : List Text} {got : List A} {fs : List ReplicaFailure}
      → Took p a
      → Reported Took Failed ps got fs
      → Reported Took Failed (p ∷ ps) (a ∷ got) fs
  by_failure :
      {p : Text} {e : Error} {ps : List Text} {got : List A} {fs : List ReplicaFailure}
      → Failed p e
      → Reported Took Failed ps got fs
      → Reported Took Failed (p ∷ ps) got (record { peer = p; cause = e } ∷ fs)

-- A send to the peer met the error.
abbrev pub FailedWith : {A : Type 0} → (Text → Exec A) → Text → Error → Type 0
FailedWith send p e = (w : World) × ((send p w).0 ≡ err e)

slots-Reported :
    {A : Type 0} (Took : Text → A → Type 0) (send : Text → Exec A)
    → ((p : Text) (w w' : World) (a : A) → send p w ≡ (ok a, w') → Took p a)
    → (ps : List Text) (w : World)
    → Reported Took
        (FailedWith send)
        ps
        (successes_of (slots send ps w).0)
        (failures_of (slots send ps w).0)
unfolding slots successes_of failures_of
slots-Reported Took send sound [] w = of_none
slots-Reported {A} Took send sound (p ∷ ps) w =
    go (send p w).0 refl (slots-Reported Took send sound ps (send p w).1)
  where
    rs : List (Text × Result A)
    rs = (slots send ps (send p w).1).0

    go :
        (r : Result A)
        → (send p w).0 ≡ r
        → Reported Took (FailedWith send) ps (successes_of rs) (failures_of rs)
        → Reported Took
            (FailedWith send)
            (p ∷ ps)
            (successes_of ((p, r) ∷ rs))
            (failures_of ((p, r) ∷ rs))
    go (ok a) h rest = by_success (sound p w (send p w).1 a (λ i. (h i, (send p w).1))) rest
    go (err e) h rest = by_failure (w, h) rest

-- The peer was sent the version over a stream of its own, and its answer says OK.
pub record StoredAt (srv : FileServer) (key : Text) (entry : VersionEntry) (p : Text) (u : Unit {0})
    : Type 0 where
  pub stream : Dialled
  pub opened : srv.network p store_protocol ≡ some stream
  pub met : World
  pub sent : Sent srv key entry stream met

send_blob-StoredAt :
    (srv : FileServer) (key : Text) (entry : VersionEntry) (p : Text) (w w' : World) (u : Unit {0})
    → send_blob srv key entry p w ≡ (ok u, w')
    → StoredAt srv key entry p u
unfolding send_blob
send_blob-StoredAt srv key entry p w w' u h =
    let (blob, w1, e1, h1) =
      >>=-eq-ok (read_version_raw srv.lib srv.store srv.node_id key entry.version_id) _ w tt w' h in
    let (d, w2, e2, h2) = >>=-eq-ok (open_stream srv p store_protocol) _ w1 tt w' h1 in
    let opened = (open_stream-eq-ok srv p store_protocol w1 w2 d e2).0 in
    record {
      stream = d;
      opened = opened;
      met = w;
      sent = send_blob-Sent srv key entry p d w w' opened h;
    }

-- A replication's report: it tried the peers that were selected, counts those that stored the
-- version, and has a failure for each of the others.
pub record ReportsWrite (srv : FileServer) (key : Text) (entry : VersionEntry) (r : WriteResult)
    : Type 0 where
  pub stored : List (Unit {0})
  pub tried : r.peers_tried ≡ length (select_peers srv.replication_factor srv.peers)
  pub count : r.peers_stored ≡ length stored
  pub adds : length stored + length r.failures ≡ r.peers_tried
  pub sends :
      Reported
        (StoredAt srv key entry)
        (FailedWith (send_blob srv key entry))
        (select_peers srv.replication_factor srv.peers)
        stored
        r.failures

pub replicate-ReportsWrite :
    (srv : FileServer) (key : Text) (entry : VersionEntry) (w : World)
    → ReportsWrite srv key entry (replicate srv key entry w).0
unfolding replicate replicated
replicate-ReportsWrite srv key entry w =
    let peers = select_peers srv.replication_factor srv.peers in
    record {
      stored = successes_of (slots (send_blob srv key entry) peers w).0;
      tried = (replicate_counts srv key entry w).0;
      count = refl;
      adds = (replicate_counts srv key entry w).1;
      sends =
          slots-Reported (StoredAt srv key entry) (send_blob srv key entry)
            (send_blob-StoredAt srv key entry) peers w;
    }

module _ (srv : FileServer) (src_key version_id dest_key message : Text) where
  -- The peer was sent the file's content over a stream of its own, its answer says OK, and the
  -- placement is the peer's with the version that it answered.
  pub record SharedTo (p : Text) (a : SharePlacement) : Type 0 where
    pub stream : Dialled
    pub opened : srv.network p share_protocol ≡ some stream
    pub met : World
    pub behind : World
    pub content : ℤ × Reader
    pub read :
        read_version srv.lib srv.store srv.node_id src_key version_id met ≡ (ok content, behind)
    pub resp : ShareResponse
    pub rest : Reader
    pub exchanged :
        Exchanged srv.codecs.share_request srv.codecs.share_response stream
          (record { key = dest_or dest_key src_key; message = message; size_bytes = content.0 })
          content.1
          (resp, rest)
    pub accepted : resp.is_ok ≡ true
    pub placed : a ≡ record { peer = p; version_id = resp.version_id; seq = resp.seq }

  abbrev pub sending : Text → Exec SharePlacement
  sending = send_readable srv src_key version_id (dest_or dest_key src_key) message

  send_readable-SharedTo :
      (p : Text) (w w' : World) (a : SharePlacement) → sending p w ≡ (ok a, w') → SharedTo p a
  unfolding send_readable
  send_readable-SharedTo p w w' a h =
      let (content, w1, e1, h1) =
        >>=-eq-ok (read_version srv.lib srv.store srv.node_id src_key version_id) _ w a w' h in
      let (d, w2, e2, h2) = >>=-eq-ok (open_stream srv p share_protocol) _ w1 a w' h1 in
      let req : ShareRequest = record {
        key = dest_or dest_key src_key;
        message = message;
        size_bytes = content.0;
      } in
      let (resp, w3, e3, h3) =
        >>=-eq-ok (exchange srv.codecs.share_request srv.codecs.share_response d req content.1) _ w2
          a w' h2 in
      let (u, w4, e4, h4) = >>=-eq-ok (guard resp.0.is_ok peer_refused) _ w3 a w' h3 in
      record {
        stream = d;
        opened = (open_stream-eq-ok srv p share_protocol w1 w2 d e2).0;
        met = w;
        behind = w1;
        content = content;
        read = e1;
        resp = resp.0;
        rest = resp.1;
        exchanged =
            (exchange-Exchanged srv.codecs.share_request srv.codecs.share_response d req content.1
              w2 w3 resp e3).0;
        accepted = (guard-eq-ok resp.0.is_ok peer_refused u w3 w4 e4).0;
        placed = sym (ok-injective (ap (λ x. x.0) h4));
      }

  -- A share's report of the targets.
  abbrev pub ReportsShare : List Text → ShareResult → Type 0
  ReportsShare targets r = Reported SharedTo (FailedWith sending) targets r.placements r.failures

  share_held-Reports :
      (targets : List Text) (w w' : World) (r : ShareResult)
      → share_held srv targets src_key version_id dest_key message w ≡ (ok r, w')
      → ReportsShare targets r
  unfolding share_held shared_with
  share_held-Reports [] w w' r e = absurd (cc e)
  share_held-Reports (p ∷ ps) w w' r e =
      subst (ReportsShare (p ∷ ps)) (ok-injective (ap (λ x. x.0) e))
        (slots-Reported SharedTo sending send_readable-SharedTo (p ∷ ps) w)

  share_if-Reports :
      (here : Bool) (targets : List Text) (w w' : World) (r : ShareResult)
      → ◌≡◌ {A = Result ShareResult × World}
          (if here
            then share_held srv targets src_key version_id dest_key message w
            else (err not_stored_here, w))
          (ok r, w')
      → ReportsShare targets r
  share_if-Reports true targets w w' r e = share_held-Reports targets w w' r e
  share_if-Reports false targets w w' r e = absurd (cc e)

  -- The placements and the failures of a share that returned are those of its sends to the targets.
  pub share-Reports :
      (targets : List Text) (w w' : World) (r : ShareResult)
      → share srv targets src_key version_id dest_key message w ≡ (ok r, w')
      → ReportsShare targets r
  unfolding share
  share-Reports targets w w' r e =
      let (here, w1) = has srv.lib srv.store srv.node_id src_key w in
      share_if-Reports here targets w1 w' r e
