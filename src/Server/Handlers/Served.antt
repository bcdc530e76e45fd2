-- ===== src/Server/Handlers/Served.antt =====
-- What a get request is answered from a store that holds the version.
use weave_fs.Base.{
  ℕ, pos, Bool, true, Option, none, some, [], Bytes, Text, length, ◌≡◌, ◌⊎◌, ap, inl, inr,
  Bool-cases,
}
use weave_fs.Exec.{ok, World, calm}
use weave_fs.Disk.{Reader, reader_of}
use weave_fs.Store.Version.{VersionEntry, IsRoundTrip}
use weave_fs.Store.Write.{IsSound}
use weave_fs.Store.Holds.{Holds, Holds-version_info, Holds-read_version_raw}
use weave_fs.Proto.Codec.{frame, read_message}
use weave_fs.Proto.Codec.Laws.{read_message_empty}
use weave_fs.Proto.Messages.{GetRequest, GetResponse}
use weave_fs.Server.Types.{FileServer, meta_from_entry}
use weave_fs.Server.Handlers.{
  Stream, Outcome, fitting, get_answered, get_opened, get_resolved, get_allowed, get_requested,
  handle_get,
}
use weave_fs.Server.Handlers.Replies.{
  room_behind, read_message-fitting, read_message-reply, Result-cases,
}

-- The bytes as the first of a reader that ends so.
abbrev ending : Bytes → Bool → Reader
ending b f = record { bytes = b; fails = f }

-- What an answer that found the version carries.
pub record Supplied (entry : VersionEntry) (blob : Bytes) (resp : GetResponse) (rest : Reader)
    (f : Bool) : Type 0 where
  pub named : resp.meta ≡ some (meta_from_entry entry (pos (length blob)))
  pub room : Option ℕ
  pub behind : rest ≡ record { bytes = fitting room blob; fails = f }

module _ (srv : FileServer) (st : Stream) (trip : IsRoundTrip srv.codecs.get_response)
    (sound : IsSound srv.lib srv.store) (entry : VersionEntry) (blob : Bytes) (wb : World)
    (resp : GetResponse) (f : Bool) (rest : Reader) (found : resp.found ≡ true) where
  -- The answer, read as a message.
  abbrev Reads : Outcome → Type 0
  Reads o = read_message srv.codecs.get_response (ending o.sent f) ≡ ok (resp, rest)

  abbrev answer : GetResponse
  answer = record {
    found = true;
    error = [];
    meta = some (meta_from_entry entry (pos (length blob)));
  }

  get_answered_lem :
      Reads (get_answered srv st (reader_of blob) (frame srv.codecs.get_response answer))
      → Supplied entry blob resp rest f
  unfolding get_answered
  get_answered_lem h = elim (Result-cases (frame srv.codecs.get_response answer)) [
    | inl (b, e) ↦
        let (msg, behind) =
          read_message-fitting srv.codecs.get_response trip answer resp b blob st.room f rest e
            (rw e at h) in
        record {
          named = ap (λ (m : GetResponse). m.meta) msg;
          room = room_behind st.room (length b);
          behind = behind;
        }
    | inr (x, e) ↦ absurd (cc (rw e at h, read_message_empty srv.codecs.get_response (ending [] f)))
  ]

  get_allowed_lem :
      (req : GetRequest) (o : Option Text)
      → Holds srv.lib srv.store sound req.origin_id req.key entry blob wb
      → (req.version_id ≡ []) ⊎ (req.version_id ≡ entry.version_id)
      → Reads (get_allowed srv st req o (calm wb)).0
      → Supplied entry blob resp rest f
  unfolding get_allowed get_resolved get_opened
  get_allowed_lem req (some why) holds asked h = absurd (
      cc (
        ap (λ (m : GetResponse). m.found)
            (read_message-reply srv.codecs.get_response trip st _ resp f rest h),
        found,
      ))
  get_allowed_lem req none holds asked h = get_answered_lem (
      rw
        (
          Holds-version_info srv.lib srv.store sound req.origin_id req.key holds req.version_id
              asked,
          Holds-read_version_raw srv.lib srv.store sound req.origin_id req.key holds req.version_id
              asked,
        )
        at h)

  -- What is read of the answer, where it found the version: its entry, and as much of its blob as
  -- came through.
  pub handle_get-Supplied :
      (req : GetRequest) (behind : Reader)
      → read_message srv.codecs.get_request st.incoming ≡ ok (req, behind)
      → Holds srv.lib srv.store sound req.origin_id req.key entry blob wb
      → (req.version_id ≡ []) ⊎ (req.version_id ≡ entry.version_id)
      → Reads (handle_get srv st (calm wb)).0
      → Supplied entry blob resp rest f
  unfolding handle_get get_requested
  handle_get-Supplied req behind read holds asked h = elim (Bool-cases st.has_deadline) [
    | inl d ↦
        get_allowed_lem req (srv.authorizer.allow_get st.remote_peer req.origin_id req.key) holds
          asked (simp (d, read) at h)
    | inr d ↦ absurd (cc (simp (d) at h, read_message_empty srv.codecs.get_response (ending [] f)))
  ]
