-- ===== src/Server/Fanout/Exchange.antt =====
-- What an exchange with a peer has done when it returned.
use weave_fs.Base.{
  nat_beq_iff, ℤ, is_negative, to_count, Bool, true, false, not, Option, none, some, ◌++◌, Bytes,
  Text, length, nat_beq, ◌≡◌, refl, ap, ◌∙◌, sym, subst, inl, inr, Bool-cases, Option-cases,
}
use weave_fs.Exec.{
  ok, World, pure, lift, guard, ◌>>◌, no_stream, send_failed, peer_refused, negative_size,
}
use weave_fs.Exec.Laws.{ok-injective, some-injective, >>=-eq-ok, guard-eq-ok}
use weave_fs.Disk.{Reader, limit_reader}
use weave_fs.Store.Version.{VersionEntry, Json}
use weave_fs.Store.Ops.{write_version_raw, read_version_raw}
use weave_fs.Proto.Codec.{frame, read_message}
use weave_fs.Proto.Messages.{VersionMeta, StoreRequest, StoreResponse, GetRequest, GetResponse}
use weave_fs.Server.Types.{Dialled, FileServer, meta_from_entry, entry_from_meta}
use weave_fs.Server.Handlers.{has_room}
use weave_fs.Server.Fanout.{
  store_protocol, get_protocol, dialled, open_stream, exchange, no_body, found_meta, send_blob,
  completed, fetch_blob,
}

not-true : (b : Bool) → not b ≡ true → b ≡ false
not-true true h = cc
not-true false h = refl

-- An exchange that returned: the request and the body went out whole, and the answer was read.
pub record Exchanged {A B : Type 0} (ask : Json A) (answer : Json B) (d : Dialled) (req : A)
    (body : Reader) (resp : B × Reader) : Type 0 where
  pub framed : Bytes
  pub printed : frame ask req ≡ ok framed
  pub whole : body.fails ≡ false
  pub answered : read_message answer (d.answer (framed ++ body.bytes)) ≡ ok resp

pub exchange-Exchanged :
    {A B : Type 0} (ask : Json A) (answer : Json B) (d : Dialled) (req : A) (body : Reader)
    (w w' : World) (resp : B × Reader)
    → exchange ask answer d req body w ≡ (ok resp, w')
    → Exchanged ask answer d req body resp × (w ≡ w')
unfolding exchange
exchange-Exchanged ask answer d req body w w' resp h =
    let (b, w1, e1, h1) =
      >>=-eq-ok (lift (frame ask req))
        (λ b.
          guard (has_room d.room (length (b ++ body.bytes))) send_failed
          >> (guard (not body.fails) send_failed
              >> (guard d.closes_write send_failed
                  >> lift (read_message answer (d.answer (b ++ body.bytes))))))
        w resp w' h in
    let (u2, w2, e2, h2) =
      >>=-eq-ok (guard (has_room d.room (length (b ++ body.bytes))) send_failed)
        (λ _.
          guard (not body.fails) send_failed
          >> (guard d.closes_write send_failed
              >> lift (read_message answer (d.answer (b ++ body.bytes)))))
        w1 resp w' h1 in
    let (u3, w3, e3, h3) =
      >>=-eq-ok (guard (not body.fails) send_failed)
        (λ _.
          guard d.closes_write send_failed
          >> lift (read_message answer (d.answer (b ++ body.bytes))))
        w2 resp w' h2 in
    let (u4, w4, e4, h4) =
      >>=-eq-ok (guard d.closes_write send_failed)
        (λ _. lift (read_message answer (d.answer (b ++ body.bytes)))) w3 resp w' h3 in
    (
      record {
        framed = b;
        printed = ap (λ x. x.0) e1;
        whole = not-true body.fails (guard-eq-ok (not body.fails) send_failed u3 w2 w3 e3).0;
        answered = ap (λ x. x.0) h4;
      },
      ap (λ x. x.1) e1
          ∙ (guard-eq-ok (has_room d.room (length (b ++ body.bytes))) send_failed u2 w1 w2 e2).1
          ∙ (guard-eq-ok (not body.fails) send_failed u3 w2 w3 e3).1
          ∙ (guard-eq-ok d.closes_write send_failed u4 w3 w4 e4).1
          ∙ ap (λ x. x.1) h4,
    )

pub open_stream-eq-ok :
    (srv : FileServer) (to protocol : Text) (w w' : World) (d : Dialled)
    → open_stream srv to protocol w ≡ (ok d, w')
    → (srv.network to protocol ≡ some d) × (w ≡ w')
unfolding open_stream dialled
open_stream-eq-ok srv to protocol w w' d h = elim (Option-cases (srv.network to protocol)) [
  | inl e ↦ absurd (cc (rw (open_stream, e) at h))
  | inr (x, e) ↦
      let (u, w1, e1, h1) =
        >>=-eq-ok (guard x.has_deadline no_stream) (λ _. pure x) w d w'
          (rw (open_stream, e) at h) in
      (
        e ∙ ap some (ok-injective (ap (λ y. y.0) h1)),
        (guard-eq-ok x.has_deadline no_stream u w w1 e1).1 ∙ ap (λ y. y.1) h1,
      )
]

-- A send that returned: the blob was read, and the peer's answer to it says OK.
pub record Sent (srv : FileServer) (key : Text) (entry : VersionEntry) (d : Dialled) (w : World)
    : Type 0 where
  pub count : ℤ
  pub blob : Reader
  pub behind : World
  pub read :
      read_version_raw srv.lib srv.store srv.node_id key entry.version_id w
      ≡ (ok (count, blob), behind)
  pub resp : StoreResponse
  pub rest : Reader
  pub exchanged :
      Exchanged srv.codecs.store_request srv.codecs.store_response d
        (record { origin_id = srv.node_id; key = key; meta = meta_from_entry entry count })
        blob
        (resp, rest)
  pub accepted : resp.is_ok ≡ true

pub send_blob-Sent :
    (srv : FileServer) (key : Text) (entry : VersionEntry) (to : Text) (d : Dialled) (w w' : World)
    → srv.network to store_protocol ≡ some d
    → send_blob srv key entry to w ≡ (ok tt, w')
    → Sent srv key entry d w
unfolding send_blob
send_blob-Sent srv key entry to d w w' net h =
    let (blob, w1, e1, h1) =
      >>=-eq-ok (read_version_raw srv.lib srv.store srv.node_id key entry.version_id) _ w tt w' h in
    let (d1, w2, e2, h2) = >>=-eq-ok (open_stream srv to store_protocol) _ w1 tt w' h1 in
    let same : d1 ≡ d =
      some-injective (sym (open_stream-eq-ok srv to store_protocol w1 w2 d1 e2).0 ∙ net) in
    let req : StoreRequest = record {
      origin_id = srv.node_id;
      key = key;
      meta = meta_from_entry entry blob.0;
    } in
    let (resp, w3, e3, h3) =
      >>=-eq-ok (exchange srv.codecs.store_request srv.codecs.store_response d1 req blob.1) _ w2 tt
        w' h2 in
    record {
      count = blob.0;
      blob = blob.1;
      behind = w1;
      read = e1;
      resp = resp.0;
      rest = resp.1;
      exchanged =
          subst
            (λ x. Exchanged srv.codecs.store_request srv.codecs.store_response x req blob.1 resp)
            same
            (exchange-Exchanged srv.codecs.store_request srv.codecs.store_response d1 req blob.1 w2
              w3 resp e3).0;
      accepted = (guard-eq-ok resp.0.is_ok peer_refused tt w3 w' h3).0;
    }

-- A fetch that returned: the peer's answer was found, and what came with it was stored whole.
pub record Fetched (srv : FileServer) (key version_id : Text) (d : Dialled) (w w' : World)
    : Type 0 where
  pub resp : GetResponse
  pub rest : Reader
  pub meta : VersionMeta
  pub exchanged :
      Exchanged srv.codecs.get_request srv.codecs.get_response d
        (record { origin_id = srv.node_id; key = key; version_id = version_id })
        no_body
        (resp, rest)
  pub found : resp.found ≡ true
  pub carried : resp.meta ≡ some meta
  pub counted : is_negative meta.blob_bytes ≡ false
  pub complete :
      length (limit_reader rest (to_count meta.blob_bytes)).bytes ≡ to_count meta.blob_bytes
  pub wrote :
      write_version_raw srv.lib srv.store srv.node_id key
        (entry_from_meta meta)
        (limit_reader rest (to_count meta.blob_bytes))
        w
      ≡ (ok tt, w')

found_meta-eq-ok :
    (o : Option VersionMeta) (m : VersionMeta) (w w' : World)
    → found_meta o w ≡ (ok m, w')
    → (o ≡ some m) × (w ≡ w')
unfolding found_meta
found_meta-eq-ok none m w w' h = absurd (cc h)
found_meta-eq-ok (some x) m w w' h = (ap some (ok-injective (ap (λ y. y.0) h)), ap (λ y. y.1) h)

completed-eq-ok :
    (srv : FileServer) (key : Text) (meta : VersionMeta) (body : Reader) (w w' : World)
    → completed srv key meta body w ≡ (ok tt, w')
    → (length body.bytes ≡ to_count meta.blob_bytes) × (w ≡ w')
unfolding completed
completed-eq-ok srv key meta body w w' h =
    elim (Bool-cases (nat_beq (length body.bytes) (to_count meta.blob_bytes))) [
      | inl all ↦ (
        (nat_beq_iff (length body.bytes) (to_count meta.blob_bytes)).0 all,
        ap (λ y. y.1) (rw (completed, all) at h),
      )
      | inr part ↦ absurd (cc (rw (completed, part) at h))
    ]

pub fetch_blob-Fetched :
    (srv : FileServer) (key version_id from : Text) (d : Dialled) (w w' : World)
    → srv.network from get_protocol ≡ some d
    → fetch_blob srv key version_id from w ≡ (ok tt, w')
    → Fetched srv key version_id d w w'
unfolding fetch_blob
fetch_blob-Fetched srv key version_id from d w w' net h =
    let (d1, w1, e1, h1) = >>=-eq-ok (open_stream srv from get_protocol) _ w tt w' h in
    let (here, same_w) = open_stream-eq-ok srv from get_protocol w w1 d1 e1 in
    let same : d1 ≡ d = some-injective (sym here ∙ net) in
    let req : GetRequest = record { origin_id = srv.node_id; key = key; version_id = version_id } in
    let (resp, w2, e2, h2) =
      >>=-eq-ok (exchange srv.codecs.get_request srv.codecs.get_response d1 req no_body) _ w1 tt w'
        h1 in
    let (exchanged, same_w2) =
      exchange-Exchanged srv.codecs.get_request srv.codecs.get_response d1 req no_body w1 w2 resp
        e2 in
    let (u3, w3, e3, h3) = >>=-eq-ok (guard resp.0.found peer_refused) _ w2 tt w' h2 in
    let (meta, w4, e4, h4) = >>=-eq-ok (found_meta resp.0.meta) _ w3 tt w' h3 in
    let (u5, w5, e5, h5) =
      >>=-eq-ok (guard (not (is_negative meta.blob_bytes)) negative_size) _ w4 tt w' h4 in
    let body = limit_reader resp.1 (to_count meta.blob_bytes) in
    let (u6, w6, e6, h6) =
      >>=-eq-ok (write_version_raw srv.lib srv.store srv.node_id key (entry_from_meta meta) body) _
        w5 tt w' h5 in
    let (complete, same_end) = completed-eq-ok srv key meta body w6 w' h6 in
    let same_start : w ≡ w5 =
      same_w
      ∙ same_w2
      ∙ (guard-eq-ok resp.0.found peer_refused u3 w2 w3 e3).1
      ∙ (found_meta-eq-ok resp.0.meta meta w3 w4 e4).1
      ∙ (guard-eq-ok (not (is_negative meta.blob_bytes)) negative_size u5 w4 w5 e5).1 in
    record {
      resp = resp.0;
      rest = resp.1;
      meta = meta;
      exchanged =
          subst (λ x. Exchanged srv.codecs.get_request srv.codecs.get_response x req no_body resp)
            same exchanged;
      found = (guard-eq-ok resp.0.found peer_refused u3 w2 w3 e3).0;
      carried = (found_meta-eq-ok resp.0.meta meta w3 w4 e4).0;
      counted =
          not-true (is_negative meta.blob_bytes)
            (guard-eq-ok (not (is_negative meta.blob_bytes)) negative_size u5 w4 w5 e5).0;
      complete = complete;
      wrote =
          ap (write_version_raw srv.lib srv.store srv.node_id key (entry_from_meta meta) body)
            same_start
          ∙ e6
          ∙ ap (λ x. (ok tt, x)) same_end;
    }
