-- ===== src/Api/Handlers/Share.antt =====
-- What a share request does: its targets are settled before anything is stored or sent.
use weave_fs.Base.{
  ◌+◌, ℤ, pos, Bool, int_beq, Option, none, some, List, [], Text, codes, length, length-map, nat_eq,
  list_eq, ◌≡◌, ◌≢◌, refl, arith, ap, ◌∙◌, subst, inl, inr, Bool-cases,
}
use weave_fs.Exec.{Result, ok, err, World}
use weave_fs.Store.Version.{VersionEntry}
use weave_fs.Server.Types.{FileServer, ShareResult}
use weave_fs.Server.Targets.{resolve_targets}
use weave_fs.Server.Targets.Laws.{AreConnected, resolve_targets-AreConnected}
use weave_fs.Server.Fanout.{share, store_local}
use weave_fs.Server.Fanout.Laws.{share_counts}
use weave_fs.Api.Http.{Request, query_get, status_ok}
use weave_fs.Api.Json.{
  shared, ShareResultJson, to_share_result_json, to_placement_json, to_failure_json,
}
use weave_fs.Server.Fanout.Report.{ReportsShare, share-Reports}
use weave_fs.Api.Handlers.{
  Libp2p, Parsed, refused, parsed, chosen, resolved, parse_targets, write_json, write_error,
  require_key, keyed, share_answer, share_stored, share_targeted, handle_share,
}

named : {A : Type 0} {a b : A} → parsed a ≡ parsed b → a ≡ b
named e = cc

resolved-AreConnected :
    (srv : FileServer) (explicit : List Text) (count : ℤ) (all : Bool) (r : Result (List Text))
    (targets : List Text)
    → resolve_targets srv.peers explicit count all ≡ r
    → resolved r ≡ parsed targets
    → (targets ≢ []) × AreConnected targets srv.peers
unfolding resolved
resolved-AreConnected srv explicit count all (err e) targets h g = absurd (cc g)
resolved-AreConnected srv explicit count all (ok ts) targets h g =
    let whole =
      resolve_targets-AreConnected srv.peers explicit targets count all (h ∙ ap ok (named g)) in
    (whole.0, whole.1)

-- Targets that a query names are connected peers, and at least one.
parse_targets-AreConnected :
    (srv : FileServer) (net : Libp2p) (q : List (Text × Text)) (targets : List Text)
    → parse_targets srv net q ≡ parsed targets
    → (targets ≢ []) × AreConnected targets srv.peers
unfolding parse_targets chosen
parse_targets-AreConnected srv net q targets = go _ _ _
  where
    go :
        (explicit : Parsed (List Text)) (count : Parsed ℤ) (all : Bool)
        → chosen srv explicit count all ≡ parsed targets
        → (targets ≢ []) × AreConnected targets srv.peers
    go (refused why) count all h = absurd (cc h)
    go (parsed ps) (refused why) all h = absurd (cc h)
    go (parsed ps) (parsed n) all h =
        resolved-AreConnected srv ps n all (resolve_targets srv.peers ps n all) targets refl h

module _ (srv : FileServer) (net : Libp2p) (req : Request) where
  -- What a share of a key that was answered with success reports of its targets: it tried all of
  -- them, its counts add up, and its placements and failures are those of the sends to the targets.
  pub record Reports (key : Text) (targets : List Text) (r : ShareResultJson) : Type 0 where
    pub result : ShareResult
    pub shape : r ≡ to_share_result_json key result
    pub tried : r.peers_tried ≡ length targets
    pub placed : length r.placements ≡ r.peers_stored
    pub adds : r.peers_stored + length r.failures ≡ r.peers_tried
    pub sends :
        ReportsShare srv key
          (query_get (codes "version") req.query)
          (query_get (codes "as") req.query)
          (query_get (codes "message") req.query)
          targets
          result

  share_answered :
      (key : Text) (targets : List Text) (w1 w' : World) (r : ShareResultJson)
      → share_answer srv net req key (
          share srv targets key
            (query_get (codes "version") req.query)
            (query_get (codes "as") req.query)
            (query_get (codes "message") req.query)
            w1)
        ≡ (write_json status_ok (shared r), w')
      → Reports key targets r
  unfolding share_answer write_error write_json to_share_result_json
  share_answered key targets w1 w' r =
      go (share srv targets key version_id dest_key message w1) refl
    where
      version_id : Text
      version_id = query_get (codes "version") req.query

      dest_key : Text
      dest_key = query_get (codes "as") req.query

      message : Text
      message = query_get (codes "message") req.query

      go :
          (run : Result ShareResult × World)
          → share srv targets key version_id dest_key message w1 ≡ run
          → share_answer srv net req key run ≡ (write_json status_ok (shared r), w')
          → Reports key targets r
      go (err e, w2) h g = absurd (cc (ap (λ x. x.0.body) g))
      go (ok result, w2) h g =
          let (tried, placed, adds) =
            share_counts srv targets key version_id dest_key message w1 w2 result h in
          let same : to_share_result_json key result ≡ r = cc (ap (λ x. x.0.body) g) in
          subst (Reports key targets) same (record {
            result = result;
            shape = refl;
            tried = tried;
            placed = rw (length-map to_placement_json result.placements) placed;
            adds = rw (length-map to_failure_json result.failures) adds;
            sends = share-Reports srv key version_id dest_key message targets w1 w2 result h;
          })

  share_run :
      (key : Text) (targets : List Text) (w w' : World) (r : ShareResultJson)
      → share_targeted srv net req key (parsed targets) w ≡ (write_json status_ok (shared r), w')
      → Reports key targets r
  unfolding share_targeted share_stored
  share_run key targets w w' r h = elim (Bool-cases (int_beq req.content_length (pos 0))) [
    | inl b ↦ share_answered key targets w w' r (rw b at h)
    | inr b ↦
        loose (store_local srv key (query_get (codes "message") req.query) req.body w) (rw b at h)
  ]
    where
      loose :
          (run : Result VersionEntry × World)
          → share_stored srv net req key targets run ≡ (write_json status_ok (shared r), w')
          → Reports key targets r
      loose (err e, w1) g = absurd (cc (ap (λ x. x.0.body) g))
      loose (ok entry, w1) g = share_answered key targets w1 w' r g

  share_keyed :
      (key : Text) (p : Parsed (List Text)) (w w' : World) (r : ShareResultJson)
      → share_targeted srv net req key p w ≡ (write_json status_ok (shared r), w')
      → (targets : List Text) × (p ≡ parsed targets) × Reports key targets r
  unfolding share_targeted write_error write_json
  share_keyed key (refused why) w w' r h = absurd (cc (ap (λ x. x.0.body) h))
  share_keyed key (parsed targets) w w' r h = (targets, refl, share_run key targets w w' r h)

  share_opened :
      (o : Option Text) (w w' : World) (r : ShareResultJson)
      → keyed o (λ key. share_targeted srv net req key (parse_targets srv net req.query)) w
        ≡ (write_json status_ok (shared r), w')
      → (key : Text) × (targets : List Text) × (o ≡ some key)
        × (parse_targets srv net req.query ≡ parsed targets)
        × Reports key targets r
  unfolding keyed write_error write_json
  share_opened none w w' r h = absurd (cc (ap (λ x. x.0.body) h))
  share_opened (some key) w w' r h =
      let (targets, chose, reports) = share_keyed key (parse_targets srv net req.query) w w' r h in
      (key, targets, refl, chose, reports)

  -- The key and the targets of a share that was answered with success, and what its answer reports.
  pub handle_share-Reports :
      (w w' : World) (r : ShareResultJson)
      → handle_share srv net req w ≡ (write_json status_ok (shared r), w')
      → (key : Text) × (targets : List Text) × (require_key req ≡ some key)
        × (parse_targets srv net req.query ≡ parsed targets)
        × Reports key targets r
  unfolding handle_share
  handle_share-Reports w w' r h = share_opened (require_key req) w w' r h

  fine_answer :
      (key : Text) (run : Result ShareResult × World)
      → (share_answer srv net req key run).0.status ≡ status_ok
      → (j : ShareResultJson) × ((share_answer srv net req key run).0
          ≡ write_json status_ok (shared j))
  unfolding share_answer write_error write_json
  fine_answer key (err e, w1) h = absurd (omega (arith, h))
  fine_answer key (ok result, w1) h = (to_share_result_json key result, refl)

  fine_stored :
      (key : Text) (targets : List Text) (run : Result VersionEntry × World)
      → (share_stored srv net req key targets run).0.status ≡ status_ok
      → (j : ShareResultJson) × ((share_stored srv net req key targets run).0
          ≡ write_json status_ok (shared j))
  unfolding share_stored write_error write_json
  fine_stored key targets (err e, w1) h = absurd (omega (arith, h))
  fine_stored key targets (ok entry, w1) h =
      fine_answer key
        (share srv targets key (query_get (codes "version") req.query)
          (query_get (codes "as") req.query) (query_get (codes "message") req.query) w1)
        h

  fine_targeted :
      (key : Text) (p : Parsed (List Text)) (w : World)
      → (share_targeted srv net req key p w).0.status ≡ status_ok
      → (j : ShareResultJson) × ((share_targeted srv net req key p w).0
          ≡ write_json status_ok (shared j))
  unfolding share_targeted write_error write_json
  fine_targeted key (refused why) w h = absurd (omega (arith, h))
  fine_targeted key (parsed targets) w h = elim (Bool-cases (int_beq req.content_length (pos 0))) [
    | inl b ↦ rw b (
        fine_answer key
          (share srv targets key (query_get (codes "version") req.query)
            (query_get (codes "as") req.query) (query_get (codes "message") req.query) w)
          (rw b at h))
    | inr b ↦ rw b (
        fine_stored key targets
          (store_local srv key (query_get (codes "message") req.query) req.body w) (rw b at h))
  ]

  -- An answer of status 200 is a report of what was shared.
  pub handle_share_fine :
      (w : World)
      → (handle_share srv net req w).0.status ≡ status_ok
      → (j : ShareResultJson) × ((handle_share srv net req w).0 ≡ write_json status_ok (shared j))
  unfolding handle_share keyed write_error write_json
  handle_share_fine w = go (require_key req)
    where
      go :
          (o : Option Text)
          → (keyed o
              (λ key. share_targeted srv net req key (parse_targets srv net req.query))
              w).0.status
            ≡ status_ok
          → (j : ShareResultJson) × ((keyed o
                (λ key. share_targeted srv net req key (parse_targets srv net req.query))
                w).0
              ≡ write_json status_ok (shared j))
      go none h = absurd (omega (arith, h))
      go (some key) h = fine_targeted key (parse_targets srv net req.query) w h

  -- A share that is answered with success went to the targets that the query names, one or more
  -- and all of them connected peers, and its report adds up: it tried every target, it lists as
  -- many placements as peers stored the file, and these and the failures are as many as the targets.
  handle_share-AreConnected :
      (w w' : World) (r : ShareResultJson)
      → handle_share srv net req w ≡ (write_json status_ok (shared r), w')
      → (targets : List Text) × (targets ≢ [])
        × AreConnected targets srv.peers
        × (r.peers_tried ≡ length targets)
        × (length r.placements ≡ r.peers_stored)
        × (r.peers_stored + length r.failures ≡ r.peers_tried)
  handle_share-AreConnected w w' r h =
      let (key, targets, named, chose, reports) = handle_share-Reports w w' r h in
      let (some_target, connected) = parse_targets-AreConnected srv net req.query targets chose in
      (targets, some_target, connected, reports.tried, reports.placed, reports.adds)
