-- ===== src/Server/Handlers/Stored.antt =====
-- What a store request has done when its answer says OK.
use weave_fs.Base.{nat_beq_iff}
use weave_fs.Proto.Codec.Laws.{read_message_empty}
use weave_fs.Base.{
  is_negative, to_count, Bool, true, false, Option, none, some, [], Text, length, nat_beq, ◌≡◌,
  refl, inl, inr, Bool-cases,
}
use weave_fs.Exec.{Result, ok, err, World}
use weave_fs.Disk.{Reader, limit_reader}
use weave_fs.Store.Version.{IsRoundTrip}
use weave_fs.Store.Ops.{write_version_raw}
use weave_fs.Proto.Codec.{read_message}
use weave_fs.Proto.Messages.{StoreRequest, StoreResponse}
use weave_fs.Server.Types.{FileServer, entry_from_meta}
use weave_fs.Server.Handlers.{Stream, store_ended, store_allowed, store_requested, handle_store}
use weave_fs.Server.Handlers.Replies.{read_message-reply}

-- A request whose answer says OK was stored whole.
pub record StoredWhole (srv : FileServer) (req : StoreRequest) (rest : Reader) (w w' : World)
    : Type 0 where
  pub counted : is_negative req.meta.blob_bytes ≡ false
  pub complete :
      length (limit_reader rest (to_count req.meta.blob_bytes)).bytes ≡ to_count req.meta.blob_bytes
  pub wrote :
      write_version_raw srv.lib srv.store req.origin_id req.key
        (entry_from_meta req.meta)
        (limit_reader rest (to_count req.meta.blob_bytes))
        w
      ≡ (ok tt, w')

module _ (srv : FileServer) (st : Stream) (trip : IsRoundTrip srv.codecs.store_response) where
  store_ended_ok :
      (req : StoreRequest) (rest body : Reader) (r : Result (Unit {0}) × World)
      (resp : StoreResponse) (f : Bool) (behind : Reader)
      → read_message srv.codecs.store_response
          (record { bytes = (store_ended srv st req body r).0.sent; fails = f })
        ≡ ok (resp, behind)
      → resp.is_ok ≡ true
      → (length body.bytes ≡ to_count req.meta.blob_bytes)
        × (r ≡ (ok tt, (store_ended srv st req body r).1))
  unfolding store_ended
  store_ended_ok req rest body (err e, w) resp f behind h yes_ok =
      absurd (cc (read_message-reply srv.codecs.store_response trip st _ resp f behind h, yes_ok))
  store_ended_ok req rest body (ok u, w) resp f behind h yes_ok =
      elim (Bool-cases (nat_beq (length body.bytes) (to_count req.meta.blob_bytes))) [
        | inl all ↦ ((nat_beq_iff (length body.bytes) (to_count req.meta.blob_bytes)).0 all, rw all)
        | inr part ↦ absurd (
            cc (
              read_message-reply srv.codecs.store_response trip st _ resp f behind (rw part at h),
              yes_ok,
            ))
      ]

  store_allowed_ok :
      (req : StoreRequest) (rest : Reader) (o : Option Text) (w : World) (resp : StoreResponse)
      (f : Bool) (behind : Reader)
      → read_message srv.codecs.store_response
          (record { bytes = (store_allowed srv st req rest o w).0.sent; fails = f })
        ≡ ok (resp, behind)
      → resp.is_ok ≡ true
      → StoredWhole srv req rest w (store_allowed srv st req rest o w).1
  unfolding store_allowed
  store_allowed_ok req rest (some why) w resp f behind h yes_ok =
      absurd (cc (read_message-reply srv.codecs.store_response trip st _ resp f behind h, yes_ok))
  store_allowed_ok req rest none w resp f behind h yes_ok =
      elim (Bool-cases (is_negative req.meta.blob_bytes)) [
        | inl neg ↦ absurd (
            cc (
              read_message-reply srv.codecs.store_response trip st _ resp f behind (rw neg at h),
              yes_ok,
            ))
        | inr count ↦
            let body = limit_reader rest (to_count req.meta.blob_bytes) in
            let run =
              write_version_raw srv.lib srv.store req.origin_id req.key (entry_from_meta req.meta)
                body w in
            let done = store_ended_ok req rest body run resp f behind (rw count at h) yes_ok in
            record { counted = count; complete = done.0; wrote = rw count done.1 }
      ]

  store_requested_ok :
      (r : Result (StoreRequest × Reader)) (w : World) (resp : StoreResponse) (f : Bool)
      (behind : Reader)
      → read_message srv.codecs.store_response
          (record { bytes = (store_requested srv st r w).0.sent; fails = f })
        ≡ ok (resp, behind)
      → resp.is_ok ≡ true
      → (req : StoreRequest) × (rest : Reader) × (r ≡ ok (req, rest))
        × StoredWhole srv req rest w (store_requested srv st r w).1
  unfolding store_requested
  store_requested_ok (err e) w resp f behind h yes_ok =
      absurd
        (cc (h, read_message_empty srv.codecs.store_response (record { bytes = []; fails = f })))
  store_requested_ok (ok (req, rest)) w resp f behind h yes_ok = (
    req,
    rest,
    refl,
    store_allowed_ok req rest (srv.authorizer.allow_store st.remote_peer req.origin_id req.key) w
        resp f behind h yes_ok,
  )

  -- When what was sent on the stream reads as a response that says OK, the request was read, and
  -- its blob was stored whole.
  pub handle_store-StoredWhole :
      (w : World) (resp : StoreResponse) (f : Bool) (behind : Reader)
      → read_message srv.codecs.store_response
          (record { bytes = (handle_store srv st w).0.sent; fails = f })
        ≡ ok (resp, behind)
      → resp.is_ok ≡ true
      → (req : StoreRequest) × (rest : Reader) × (read_message srv.codecs.store_request st.incoming
          ≡ ok (req, rest))
        × StoredWhole srv req rest w (handle_store srv st w).1
  unfolding handle_store
  handle_store-StoredWhole w resp f behind h yes_ok = elim (Bool-cases st.has_deadline) [
    | inl d ↦ simp (d) (
        store_requested_ok (read_message srv.codecs.store_request st.incoming) w resp f behind
          (simp (d) at h) yes_ok)
    | inr d ↦ absurd (
        cc (
          simp (d) at h,
          read_message_empty srv.codecs.store_response (record { bytes = []; fails = f }),
        ))
  ]
