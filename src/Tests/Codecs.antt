-- ===== src/Tests/Codecs.antt =====
-- Small stand-ins for the JSON of the messages.
use weave_fs.Base.{
  suc, Bool, true, false, Option, none, some, [], ◌∷◌, Bytes, Text, drop, ◌≡◌, refl, ap,
  take-append, drop-append, nat_eq, list_eq,
}
use weave_fs.Store.Version.{Json, IsRoundTrip}
use weave_fs.Server.Types.{Codecs}
use weave_fs.Proto.Messages.{VersionMeta, StoreRequest, StoreResponse, GetRequest, GetResponse}
use weave_fs.Tests.Library.{put_text, get_text, put_int, get_int, get_number, get_int-put_int}

abbrev put_bool : Bool → Bytes → Bytes
put_bool true r = 1 ∷ r
put_bool false r = 0 ∷ r

abbrev get_bool : Bytes → Bool × Bytes
get_bool (suc n ∷ r) = (true, r)
get_bool other = (false, drop 1 other)

abbrev put_meta : VersionMeta → Bytes → Bytes
put_meta m r = put_text m.version_id (
    put_int m.seq
      (m.created_at ∷ put_int m.size_bytes (put_int m.blob_bytes (put_text m.message r))))

abbrev get_meta : Bytes → VersionMeta × Bytes
get_meta b =
    let (id, r1) = get_text b in
    let (seq, r2) = get_int r1 in
    let (at, r3) = get_number r2 in
    let (size, r4) = get_int r3 in
    let (blob, r5) = get_int r4 in
    let (message, r6) = get_text r5 in
    (
      record {
        version_id = id;
        seq = seq;
        created_at = at;
        size_bytes = size;
        blob_bytes = blob;
        message = message;
      },
      r6,
    )

get_meta-put_meta : (m : VersionMeta) (r : Bytes) → get_meta (put_meta m r) ≡ (m, r)
get_meta-put_meta m r =
    let end = put_text m.message r in
    let blobbed = put_int m.blob_bytes end in
    let sized = m.created_at ∷ put_int m.size_bytes blobbed in
    let numbered = put_int m.seq sized in
    rw (
      take-append m.version_id numbered,
      drop-append m.version_id numbered,
      get_int-put_int m.seq sized,
      get_int-put_int m.size_bytes blobbed,
      get_int-put_int m.blob_bytes end,
      take-append m.message r,
      drop-append m.message r,
    )

abbrev pub store_request_json : Json StoreRequest
store_request_json = record {
  marshal = λ q. some (put_text q.origin_id (put_text q.key (put_meta q.meta [])));
  unmarshal = λ b.
      let (origin, r1) = get_text b in
      let (key, r2) = get_text r1 in
      some (record { origin_id = origin; key = key; meta = (get_meta r2).0 });
}

pub store_request-IsRoundTrip : IsRoundTrip store_request_json
store_request-IsRoundTrip = record { unmarshal-marshal = λ q b e. cc (read q, e) }
  where
    read :
        (q : StoreRequest)
        → store_request_json.unmarshal (put_text q.origin_id (put_text q.key (put_meta q.meta [])))
          ≡ some q
    read q =
        let end = put_meta q.meta [] in
        let rest = put_text q.key end in
        rw
          (
            take-append q.origin_id rest,
            drop-append q.origin_id rest,
            take-append q.key end,
            drop-append q.key end,
          )
          (ap (λ m. some (record q { meta = m.0 })) (get_meta-put_meta q.meta []))

abbrev pub store_response_json : Json StoreResponse
store_response_json = record {
  marshal = λ a. some (put_bool a.is_ok (put_text a.error []));
  unmarshal =
      λ b. let (said, r) = get_bool b in some (record { is_ok = said; error = (get_text r).0 });
}

pub store_response-IsRoundTrip : IsRoundTrip store_response_json
store_response-IsRoundTrip = record { unmarshal-marshal = λ a b e. cc (read a.is_ok a.error, e) }
  where
    read :
        (said : Bool) (t : Text)
        → store_response_json.unmarshal (put_bool said (put_text t []))
          ≡ some (record { is_ok = said; error = t })
    read true t = rw (take-append t [])
    read false t = rw (take-append t [])

abbrev pub get_request_json : Json GetRequest
get_request_json = record {
  marshal = λ q. some (put_text q.origin_id (put_text q.key (put_text q.version_id [])));
  unmarshal = λ b.
      let (origin, r1) = get_text b in
      let (key, r2) = get_text r1 in
      some (record { origin_id = origin; key = key; version_id = (get_text r2).0 });
}

pub get_request-IsRoundTrip : IsRoundTrip get_request_json
get_request-IsRoundTrip = record { unmarshal-marshal = λ q b e. cc (read q, e) }
  where
    read :
        (q : GetRequest)
        → get_request_json.unmarshal
            (put_text q.origin_id (put_text q.key (put_text q.version_id [])))
          ≡ some q
    read q =
        let end = put_text q.version_id [] in
        let rest = put_text q.key end in
        rw (
          take-append q.origin_id rest,
          drop-append q.origin_id rest,
          take-append q.key end,
          drop-append q.key end,
          take-append q.version_id [],
        )

abbrev put_found : Option VersionMeta → Bytes
put_found none = 0 ∷ []
put_found (some m) = 1 ∷ put_meta m []

abbrev get_found : Bytes → Option VersionMeta
get_found (suc n ∷ r) = some (get_meta r).0
get_found other = none

abbrev pub get_response_json : Json GetResponse
get_response_json = record {
  marshal = λ a. some (put_bool a.found (put_text a.error (put_found a.meta)));
  unmarshal = λ b.
      let (found, r1) = get_bool b in
      let (error, r2) = get_text r1 in
      some (record { found = found; error = error; meta = get_found r2 });
}

get_found-put_found : (o : Option VersionMeta) → get_found (put_found o) ≡ o
get_found-put_found none = refl
get_found-put_found (some m) = ap (λ x. some x.0) (get_meta-put_meta m [])

pub get_response-IsRoundTrip : IsRoundTrip get_response_json
get_response-IsRoundTrip = record {
  unmarshal-marshal = λ a b e. cc (read a.found a.error a.meta, e);
}
  where
    read :
        (said : Bool) (t : Text) (o : Option VersionMeta)
        → get_response_json.unmarshal (put_bool said (put_text t (put_found o)))
          ≡ some (record { found = said; error = t; meta = o })
    read true t o =
        rw (take-append t (put_found o), drop-append t (put_found o), get_found-put_found o)
    read false t o =
        rw (take-append t (put_found o), drop-append t (put_found o), get_found-put_found o)

-- What a server prints and reads: shares are not used here.
abbrev pub codecs : Codecs
codecs = record {
  store_request = store_request_json;
  store_response = store_response_json;
  get_request = get_request_json;
  get_response = get_response_json;
  share_request = record { marshal = λ q. none; unmarshal = λ b. none };
  share_response = record { marshal = λ q. none; unmarshal = λ b. none };
}
