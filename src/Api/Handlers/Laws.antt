-- ===== src/Api/Handlers/Laws.antt =====
-- What a client gets back of what it put, and what a request that is refused changes.
use weave_fs.Base.{
  ℤ, pos, Option, none, some, [], Text, codes, length, nat_eq, list_eq, ◌≡◌, ◌⊎◌, refl, arith, ap,
  ◌∙◌, sym, subst, inl, inr,
}
use weave_fs.Exec.{Result, ok, err, World, calm}
use weave_fs.Exec.Laws.{some-injective}
use weave_fs.Disk.{Reader, reader_of}
use weave_fs.Store.Version.{VersionIndex, load_index}
use weave_fs.Store.Ops.{index_file}
use weave_fs.Store.Write.{IsSound}
use weave_fs.Store.Commit.{AreApart}
use weave_fs.Store.Holds.{Holds-same}
use weave_fs.Store.ReadBack.{write_version-Holds}
use weave_fs.Server.Types.{FileServer, WriteResult}
use weave_fs.Server.Fanout.{replicate, store_version, get_version}
use weave_fs.Server.Fanout.Files.{StoredVersion, store_version-StoredVersion, get_version-Holds}
use weave_fs.Server.Fanout.Report.{ReportsWrite, replicate-ReportsWrite}
use weave_fs.Store.Ops.{write_version}
use weave_fs.Store.Version.{VersionEntry}
use weave_fs.Api.Http.{Request, query_get, status_ok}
use weave_fs.Api.Json.{written, WriteResultJson, to_write_result_json}
use weave_fs.Api.Handlers.{
  Libp2p, write_json, write_error, send_content, require_key, keyed, put_answer, handle_put,
  get_answer, handle_get,
}

module _ (srv : FileServer) (net : Libp2p) (req : Request) where
  put_answered :
      (key : Text) (e : Result WriteResult) (w1 : World) (r : WriteResultJson) (w' : World)
      → put_answer srv net req key (e, w1) ≡ (write_json status_ok (written r), w')
      → (result : WriteResult) × (e ≡ ok result) × (w1 ≡ w') × (r ≡ to_write_result_json key result)
  unfolding put_answer write_error write_json
  put_answered key (err e) w1 r w' h = absurd (cc (ap (λ x. x.0.body) h))
  put_answered key (ok result) w1 r w' h =
      (result, refl, ap (λ x. x.1) h, cc (ap (λ x. x.0.body) h))

  keyed_put :
      (o : Option Text) (w w' : World) (r : WriteResultJson)
      → keyed o
          (λ key w.
            put_answer srv net req key
              (store_version srv key (query_get (codes "message") req.query) req.body w))
          w
        ≡ (write_json status_ok (written r), w')
      → (key : Text) × (result : WriteResult) × (o ≡ some key)
        × (store_version srv key (query_get (codes "message") req.query) req.body w
            ≡ (ok result, w'))
        × (r ≡ to_write_result_json key result)
  unfolding keyed write_error write_json
  keyed_put none w w' r h = absurd (cc (ap (λ x. x.0.body) h))
  keyed_put (some key) w w' r h =
      let run = store_version srv key (query_get (codes "message") req.query) req.body w in
      let (result, ended, same, shape) = put_answered key run.0 run.1 r w' h in
      (key, result, refl, (λ i. (ended i, same i)), shape)

  -- What a put that was answered with a report stored.
  pub handle_put-StoredVersion :
      (w w' : World) (r : WriteResultJson)
      → handle_put srv net req w ≡ (write_json status_ok (written r), w')
      → (key : Text) × (result : WriteResult) × (require_key req ≡ some key)
        × (r ≡ to_write_result_json key result)
        × StoredVersion srv key (query_get (codes "message") req.query) req.body w result w'
  unfolding handle_put
  handle_put-StoredVersion w w' r h =
      let (key, result, named, ended, shape) = keyed_put (require_key req) w w' r h in
      (
        key,
        result,
        named,
        shape,
        store_version-StoredVersion srv key (query_get (codes "message") req.query) req.body w
            result w' ended,
      )

  -- An answer of status 200 is a report of what was written.
  pub handle_put_fine :
      (w : World)
      → (handle_put srv net req w).0.status ≡ status_ok
      → (j : WriteResultJson) × ((handle_put srv net req w).0 ≡ write_json status_ok (written j))
  unfolding handle_put keyed put_answer write_error write_json
  handle_put_fine w = go (require_key req)
    where
      fine :
          (key : Text) (e : Result WriteResult) (w1 : World)
          → (put_answer srv net req key (e, w1)).0.status ≡ status_ok
          → (j : WriteResultJson) × ((put_answer srv net req key (e, w1)).0
              ≡ write_json status_ok (written j))
      fine key (err e) w1 h = absurd (omega (arith, h))
      fine key (ok result) w1 h = (to_write_result_json key result, refl)

      go :
          (o : Option Text)
          → (keyed o
              (λ key w.
                put_answer srv net req key
                  (store_version srv key (query_get (codes "message") req.query) req.body w))
              w).0.status
            ≡ status_ok
          → (j : WriteResultJson) × ((keyed o
                (λ key w.
                  put_answer srv net req key
                    (store_version srv key (query_get (codes "message") req.query) req.body w))
                w).0
              ≡ write_json status_ok (written j))
      go none h = absurd (omega (arith, h))
      go (some key) h =
          let run = store_version srv key (query_get (codes "message") req.query) req.body w in
          fine key run.0 run.1 h

  -- What a put that was answered with a report wrote, and what the report says of its replication.
  pub handle_put-ReportsWrite :
      (w w' : World) (r : WriteResultJson)
      → handle_put srv net req w ≡ (write_json status_ok (written r), w')
      → (key : Text) × (entry : VersionEntry) × (there : World) × (result : WriteResult)
        × (require_key req ≡ some key)
        × (write_version srv.lib srv.store srv.node_id key
              (query_get (codes "message") req.query)
              req.body
              w
            ≡ (ok entry, there))
        × (r ≡ to_write_result_json key (record result { entry = some entry }))
        × ReportsWrite srv key entry result
  handle_put-ReportsWrite w w' r h =
      let (key, result, named, shape, put) = handle_put-StoredVersion w w' r h in
      (
        key,
        put.entry,
        put.written,
        (replicate srv key put.entry put.written).0,
        named,
        put.wrote,
        shape ∙ ap (to_write_result_json key) put.reported,
        replicate-ReportsWrite srv key put.entry put.written,
      )

get_keyed :
    (srv : FileServer) (net : Libp2p) (req : Request) (o : Option Text) (key : Text) (w : World)
    (size : ℤ) (content : Reader)
    → o ≡ some key
    → get_version srv key (query_get (codes "version") req.query) w ≡ (ok (size, content), w)
    → keyed o
        (λ key w.
          get_answer srv net req (get_version srv key (query_get (codes "version") req.query) w))
        w
      ≡ (send_content size content, w)
unfolding keyed get_answer
get_keyed srv net req none key w size content h e = absurd (cc h)
get_keyed srv net req (some k) key w size content h e = rw (some-injective h, e)

-- What a client put, a client gets: when the answer to a put reports success, whatever faults the
-- write and the replication met, a get of the same key, by the version that was reported or
-- without one, is answered with the bytes of the put's body and with their number as its length,
-- when no fault comes. The store is sound, and no version that the index listed before has its
-- blob in the same top folder.
pub handle_put-handle_get :
    (srv : FileServer) (net : Libp2p) (sound : IsSound srv.lib srv.store) (put get : Request)
    (w w' : World) (idx : VersionIndex) (r : WriteResultJson) (key : Text)
    → require_key put ≡ some key
    → (load_index srv.lib (index_file srv.lib srv.store srv.node_id key) key w).0 ≡ ok idx
    → handle_put srv net put w ≡ (write_json status_ok (written r), w')
    → AreApart srv.lib srv.store sound srv.node_id key r.version_id idx.versions
    → require_key get ≡ some key
    → (query_get (codes "version") get.query ≡ [])
      ⊎ (query_get (codes "version") get.query ≡ r.version_id)
    → (handle_get srv net get (calm w')
        ≡ (send_content (pos (length put.body.bytes)) (reader_of put.body.bytes), calm w'))
      × (r.size_bytes ≡ pos (length put.body.bytes))
unfolding handle_put handle_get to_write_result_json
handle_put-handle_get srv net sound put get w w' idx r key named loaded h apart asked_key asked =
    let (key', result, named', ended, shape) = keyed_put srv net put (require_key put) w w' r h in
    let same_key : key' ≡ key = some-injective (sym named' ∙ named) in
    let done =
      store_version-StoredVersion srv key (query_get (codes "message") put.query) put.body w result
        w'
        (ap (λ k. store_version srv k (query_get (codes "message") put.query) put.body w)
            (sym same_key)
          ∙ ended) in
    let full = shape ∙ ap (to_write_result_json key') done.reported in
    let id : r.version_id ≡ done.entry.version_id =
      ap (λ (x : WriteResultJson). x.version_id) full in
    let (size, (blob, held, opens)) =
      write_version-Holds srv.lib srv.store sound srv.node_id key
        (query_get (codes "message") put.query) put.body w idx done.entry done.written loaded
        done.wrote
        (subst (λ x. AreApart srv.lib srv.store sound srv.node_id key x idx.versions) id apart) in
    let kept =
      Holds-same srv.lib srv.store sound srv.node_id key done.entry blob done.written w' done.same
        held in
    let wanted : (query_get (codes "version") get.query ≡ [])
        ⊎ (query_get (codes "version") get.query ≡ done.entry.version_id) =
      elim asked [ inl e ↦ inl e | inr e ↦ inr (e ∙ id) ] in
    let got =
      get_version-Holds srv sound key done.entry blob w' (query_get (codes "version") get.query)
        (reader_of put.body.bytes) kept wanted opens in
    (
      get_keyed srv net get (require_key get) key (calm w') (pos (length put.body.bytes))
          (reader_of put.body.bytes) asked_key
          (got ∙ ap (λ z. (ok (z, reader_of put.body.bytes), calm w')) size),
      ap (λ (x : WriteResultJson). x.size_bytes) full ∙ size,
    )
