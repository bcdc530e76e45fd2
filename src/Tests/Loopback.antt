-- ===== src/Tests/Loopback.antt =====
-- A small stand-in for HTTP on the loopback interface and for the JSON of the answers. It carries
-- the answers that the runs need, and drops the others like a connection that breaks.
use weave_fs.Base.{
  ℕ, ℤ, pos, true, false, Option, none, some, List, [], ◌∷◌, Bytes, Text, codes, length, int_beq,
  int_beq_iff, take-append, drop-append, if◌then◌else◌, ◌≡◌, refl, ap, ◌∙◌, sym, Bool-cases, inl,
  inr,
}
use weave_fs.Exec.{not_exist}
use weave_fs.Exec.Laws.{some-injective}
use weave_fs.Disk.{Reader, reader_of}
use weave_fs.Api.Http.{status_ok}
use weave_fs.Api.Json.{
  Refusal, failed, FailureJson, PlacementJson, VersionJson, written, shared, deleted, versions_of,
  WriteResultJson,
}
use weave_fs.Api.Handlers.{Body, json_value, content, write_json, send_content}
use weave_fs.Cli.Client.{Transport, replied, other_failed, Reply}
use weave_fs.Cli.Run.{Http, WriteReport, ShareReport}
use weave_fs.Cli.Commands.Loopback.{Carrier, IsFaithful, report_of}
use weave_fs.Tests.Library.{put_text, get_text, put_int, get_int, get_int-put_int, get_number}

-- The JSON of a put's answer without failures.
abbrev pub write_bytes : WriteResultJson → List FailureJson → Option Bytes
write_bytes j [] = some (
    put_text j.key (
      put_text j.version_id (
        put_int j.seq (put_int j.size_bytes (j.created_at ∷ j.peers_tried ∷ j.peers_stored ∷ [])))))
write_bytes j (f ∷ fs) = none

abbrev pub get_report : Bytes → WriteReport
get_report b =
    let (key, r1) = get_text b in
    let (id, r2) = get_text r1 in
    let (seq, r3) = get_int r2 in
    let (size, r4) = get_int r3 in
    let (at, r5) = get_number r4 in
    let (tried, r6) = get_number r5 in
    let (stored, r7) = get_number r6 in
    record {
      key = key;
      version_id = id;
      seq = seq;
      size_bytes = size;
      created_at = at;
      peers_tried = tried;
      peers_stored = stored;
      failures = [];
    }

write_bytes_lem :
    (j : WriteResultJson) (fs : List FailureJson) (b : Bytes)
    → j.failures ≡ fs
    → write_bytes j fs ≡ some b
    → get_report b ≡ report_of j
write_bytes_lem j [] b none_failed e =
    let r4 : Bytes = j.created_at ∷ j.peers_tried ∷ j.peers_stored ∷ [] in
    let r3 = put_int j.size_bytes r4 in
    let r2 = put_int j.seq r3 in
    let r1 = put_text j.version_id r2 in
    ap get_report (sym (some-injective e))
    ∙ rw
        (
          take-append j.key r1,
          drop-append j.key r1,
          take-append j.version_id r2,
          drop-append j.version_id r2,
          get_int-put_int j.seq r3,
          get_int-put_int j.size_bytes r4,
          none_failed,
        )
        refl
write_bytes_lem j (f ∷ fs) b some_failed e = absurd (cc e)

-- The JSON of a share's answer, of one send whose blob was missing.
abbrev pub missing : Text → ℕ → ℕ → Text → Refusal → Option Bytes
missing key tried stored peer (failed not_exist) =
    some (put_text key (put_text peer (tried ∷ stored ∷ [])))
missing key tried stored peer _ = none

abbrev pub share_bytes : Text → ℕ → ℕ → List PlacementJson → List FailureJson → Option Bytes
share_bytes key tried stored [] [] = none
share_bytes key tried stored [] (f ∷ []) = missing key tried stored f.peer f.error
share_bytes key tried stored [] (f ∷ g ∷ fs) = none
share_bytes key tried stored (p ∷ ps) fs = none

abbrev pub get_share : Bytes → ShareReport
get_share b =
    let (key, r1) = get_text b in
    let (peer, r2) = get_text r1 in
    let (tried, r3) = get_number r2 in
    let (stored, r4) = get_number r3 in
    record {
      key = key;
      peers_tried = tried;
      peers_stored = stored;
      placements = [];
      failures = record { peer = peer; error = failed not_exist } ∷ [];
    }

missing_lem :
    (key : Text) (tried stored : ℕ) (peer : Text) (why : Refusal) (b : Bytes)
    → missing key tried stored peer why ≡ some b
    → get_share b ≡ record {
      key = key;
      peers_tried = tried;
      peers_stored = stored;
      placements = [];
      failures = record { peer = peer; error = why } ∷ [];
    }
missing_lem key tried stored peer (failed not_exist) b e =
    let r2 : Bytes = tried ∷ stored ∷ [] in
    let r1 = put_text peer r2 in
    ap get_share (sym (some-injective e))
    ∙ rw (take-append key r1, drop-append key r1, take-append peer r2, drop-append peer r2) refl
missing_lem key tried stored peer _ b e = absurd (cc e)

share_bytes_lem :
    (key : Text) (tried stored : ℕ) (ps : List PlacementJson) (fs : List FailureJson) (b : Bytes)
    → share_bytes key tried stored ps fs ≡ some b
    → get_share b ≡ record {
      key = key;
      peers_tried = tried;
      peers_stored = stored;
      placements = ps;
      failures = fs;
    }
share_bytes_lem key tried stored [] [] b e = absurd (cc e)
share_bytes_lem key tried stored [] (f ∷ []) b e = missing_lem key tried stored f.peer f.error b e
share_bytes_lem key tried stored [] (f ∷ g ∷ fs) b e = absurd (cc e)
share_bytes_lem key tried stored (p ∷ ps) fs b e = absurd (cc e)

abbrev pub came : ℕ → Option Bytes → Transport Reply
came status none = other_failed
came status (some b) =
    replied (record { status = status; status_line = codes "200 OK"; body = reader_of b })

-- Content that is not as long as it was announced ends in an error.
abbrev pub arrived : Option ℤ → Reader → Reader
arrived none rc = record rc { fails = true }
arrived (some n) rc = if int_beq n (pos (length rc.bytes)) then rc else record rc { fails = true }

-- A removal is answered without a body, and so is a listing without versions.
abbrev pub empty_reply : ℕ → Transport Reply
empty_reply status =
    replied (record { status = status; status_line = codes "200 OK"; body = reader_of [] })

abbrev pub carried : ℕ → Option ℤ → Body → Transport Reply
carried status n (json_value (written j)) = came status (write_bytes j j.failures)
carried status n (json_value (shared j)) =
    came status (share_bytes j.key j.peers_tried j.peers_stored j.placements j.failures)
carried status n (json_value (deleted key)) = empty_reply status
carried status n (json_value (versions_of key [])) = empty_reply status
carried status n (json_value (versions_of key (v ∷ vs))) = other_failed
carried status n (content rc) =
    replied (record { status = status; status_line = codes "200 OK"; body = arrived n rc })
carried status n _ = other_failed

abbrev pub small_carrier : Carrier
small_carrier = record {
  carry = λ resp. carried resp.status resp.content_length resp.body;
  unmatched = λ req. other_failed;
}

abbrev pub small_http : Http
small_http = record {
  parses = λ base. true;
  unknown_length = λ b. pos (length b);
  error_in = λ b. none;
  write_report = λ b. some (get_report b);
  share_report = λ b. some (get_share b);
  version_list = λ b. some [];
}

came_lem :
    (status : ℕ) (o : Option Bytes) (r : Reply)
    → came status o ≡ replied r
    → (r.status ≡ status) × (o ≡ some r.body.bytes)
came_lem status none r e = absurd (cc e)
came_lem status (some b) r e = (cc e, cc e)

carried_status :
    (status : ℕ) (n : Option ℤ) (body : Body) (r : Reply)
    → carried status n body ≡ replied r
    → r.status ≡ status
carried_status status n (json_value (written j)) r e =
    (came_lem status (write_bytes j j.failures) r e).0
carried_status status n (json_value (shared j)) r e =
    (came_lem status (share_bytes j.key j.peers_tried j.peers_stored j.placements j.failures) r e).0
carried_status status n (json_value (deleted key)) r e = cc e
carried_status status n (json_value (versions_of key [])) r e = cc e
carried_status status n (json_value (versions_of key (v ∷ vs))) r e = absurd (cc e)
carried_status status n (content rc) r e = cc e
carried_status status n (json_value _) r e = absurd (cc e)

arrived_lem :
    (n : ℤ) (rc : Reader) (r : Reply)
    → carried status_ok (some n) (content rc) ≡ replied r
    → r.body.fails ≡ false
    → (r.body.bytes ≡ rc.bytes) × (n ≡ pos (length rc.bytes))
arrived_lem n rc r e whole =
    let same : arrived (some n) rc ≡ r.body = cc e in
    elim (Bool-cases (int_beq n (pos (length rc.bytes)))) [
      | inl b ↦ (ap (λ (x : Reader). x.bytes) (sym (rw b at same)), (int_beq_iff n _).0 b)
      | inr b ↦ absurd (cc (ap (λ (x : Reader). x.fails) (rw b at same), whole))
    ]

no_versions_lem :
    (key : Text) (vs : List VersionJson) (r : Reply)
    → carried status_ok none (json_value (versions_of key vs)) ≡ replied r
    → [] ≡ vs
no_versions_lem key [] r e = refl
no_versions_lem key (v ∷ vs) r e = absurd (cc e)

pub small_http-IsFaithful : IsFaithful small_http small_carrier
unfolding write_json send_content
small_http-IsFaithful = record {
  carry-status = λ resp r e. carried_status resp.status resp.content_length resp.body r e;
  carry-written = λ j r x e d.
      sym (some-injective d)
      ∙ write_bytes_lem j j.failures r.body.bytes refl
          (came_lem status_ok (write_bytes j j.failures) r e).1;
  carry-shared = λ j r x e d.
      sym (some-injective d)
      ∙ share_bytes_lem j.key j.peers_tried j.peers_stored j.placements j.failures r.body.bytes
          (came_lem status_ok
            (share_bytes j.key j.peers_tried j.peers_stored j.placements j.failures) r e).1;
  carry-versions = λ key vs r x e d. sym (some-injective d) ∙ no_versions_lem key vs r e;
  carry-content = λ n rc r e whole. arrived_lem n rc r e whole;
}
