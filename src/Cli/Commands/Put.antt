-- ===== src/Cli/Commands/Put.antt =====
-- What a put that ended well did, at the client and at the node.
use weave_fs.Base.{
  ℤ, false, some, List, [], ◌∷◌, Bytes, Text, codes, ◌==◌, nat_eq, list_eq, ◌≡◌, refl, ap, ◌∙◌, sym,
  list_beq, eq_iff, arith,
}
use weave_fs.Exec.{World, calm}
use weave_fs.Disk.{reader_of, read_file}
use weave_fs.Disk.Resolve.{resolve}
use weave_fs.Store.Version.{Json}
use weave_fs.Server.Types.{FileServer}
use weave_fs.Api.Http.{Request, query_get, status_ok}
use weave_fs.Api.Json.{written, WriteResultJson}
use weave_fs.Api.Handlers.{Libp2p, write_json, require_key, handle_put}
use weave_fs.Api.Handlers.Laws.{handle_put_fine}
use weave_fs.Cli.Aliases.{Aliases, load_aliases}
use weave_fs.Cli.Client.{done, Client, replied, query_of, new_client}
use weave_fs.Cli.Print.{Line, print_write_result}
use weave_fs.Cli.Run.{
  Http, Web, ◌>>=◌, Command, calling, length_of, checked_base, asked, WriteReport,
}
use weave_fs.Cli.Run.Laws.{
  >>=-eq-done, >>=_done, done-injective, load_aliases-machine, calling-read_file,
  read_file-LeavesMachine, new_client-LeavesMachine, length_of-LeavesMachine,
  checked_base-LeavesMachine, Answered, asked-Answered,
}
use weave_fs.Cli.Commands.{with_aliases, put_path, run_put}
use weave_fs.Cli.Commands.Get.{get_request}
use weave_fs.Cli.Commands.Loopback.{Carrier, served, IsFaithful, report_of}

-- The request of a put.
abbrev pub put_request : Text → Text → ℤ → Bytes → Request
put_request key message n b = record {
  method = codes "PUT";
  path = codes "/v1/files";
  query = query_of ((codes "key", key) ∷ (codes "message", message) ∷ []);
  content_length = n;
  body = reader_of b;
}

module _ (web : Web) (http : Http) (json : Json Aliases) (dir : Text) where
  -- A put that ended well: the file's bytes, the report, and the machine that the node met.
  pub record Put (message key path : Text) (w : World) (lines : List Line) (w' : World)
      : Type 0 where
    pub bytes : Bytes
    pub file : w.files (resolve path) ≡ some bytes
    pub client : Client
    pub length : ℤ
    pub report : WriteReport
    pub met : World
    pub left : World
    pub as_before : calm met ≡ calm w
    pub answered :
        Answered web client http.write_report (put_request key message length bytes) met report left
    pub as_left : calm w' ≡ calm left
    pub printed : lines ≡ print_write_result report (load_aliases json dir left).0

  -- What a put does with the bytes of its file.
  abbrev pub put_reported : WriteReport → Command (List Line)
  put_reported r = with_aliases json dir (print_write_result r)

  abbrev put_sent : Text → Text → Bytes → Client → ℤ → Command (List Line)
  put_sent message key b c n =
      asked web http c http.write_report (put_request key message n b) >>= put_reported

  abbrev put_measured : Text → Text → Text → Bytes → Client → Command (List Line)
  put_measured message key path b c = length_of http path b >>= put_sent message key b c

  abbrev put_located : Text → Text → Text → Bytes → Client → Command (List Line)
  put_located message key path b c = checked_base http c >>= λ _. put_measured message key path b c

  pub run_put-Put :
      (message key path : Text) (w w' : World) (lines : List Line)
      → run_put web http json dir message (key ∷ path ∷ []) w ≡ (done lines, w')
      → Put message key path w lines w'
  unfolding run_put put_path with_aliases
  run_put-Put message key path w w' lines h =
      let (b, opened, h1) =
        >>=-eq-done (calling (read_file path))
          (λ (b : Bytes). new_client dir >>= put_located message key path b) w lines w' h in
      let w1 = (calling (read_file path) w).1 in
      let (c, found, h2) =
        >>=-eq-done (new_client dir) (put_located message key path b) w1 lines w' h1 in
      let w2 = (new_client dir w1).1 in
      let (u, good, h3) =
        >>=-eq-done (checked_base http c) (λ (u : Unit {0}). put_measured message key path b c) w2
          lines w' h2 in
      let w3 = (checked_base http c w2).1 in
      let (n, counted, h4) =
        >>=-eq-done (length_of http path b) (put_sent message key b c) w3 lines w' h3 in
      let w4 = (length_of http path b w3).1 in
      let req = put_request key message n b in
      let (r, came, h5) =
        >>=-eq-done (asked web http c http.write_report req) put_reported w4 lines w' h4 in
      let w5 = (asked web http c http.write_report req w4).1 in
      record {
        bytes = b;
        file = calling-read_file path w b opened;
        client = c;
        length = n;
        report = r;
        met = w4;
        left = w5;
        as_before =
            length_of-LeavesMachine http path b w3
            ∙ checked_base-LeavesMachine http c w2
            ∙ new_client-LeavesMachine dir w1
            ∙ read_file-LeavesMachine path w;
        answered =
            asked-Answered web http c http.write_report req w4 w5 r
              (ap (λ x. (x, (asked web http c http.write_report req w4).1)) came);
        as_left = ap (λ x. calm x.1) (sym h5) ∙ load_aliases-machine json dir w5;
        printed = done-injective (ap (λ x. x.0) (sym h5));
      }

  -- A put whose steps all ended well, from the file to the report.
  pub run_put_steps :
      (message key path : Text) (b : Bytes) (c : Client) (n : ℤ) (r : WriteReport)
      (w w1 w2 w3 w4 w5 : World)
      → calling (read_file path) w ≡ (done b, w1)
      → new_client dir w1 ≡ (done c, w2)
      → checked_base http c w2 ≡ (done tt, w3)
      → length_of http path b w3 ≡ (done n, w4)
      → asked web http c http.write_report (put_request key message n b) w4 ≡ (done r, w5)
      → run_put web http json dir message (key ∷ path ∷ []) w ≡ put_reported r w5
  unfolding run_put put_path with_aliases
  run_put_steps message key path b c n r w w1 w2 w3 w4 w5 read found good counted came =
      >>=_done (calling (read_file path))
        (λ (b : Bytes). new_client dir >>= put_located message key path b) w w1 b read
      ∙ >>=_done (new_client dir) (put_located message key path b) w1 w2 c found
      ∙ >>=_done (checked_base http c) (λ (u : Unit {0}). put_measured message key path b c) w2 w3
          tt good
      ∙ >>=_done (length_of http path b) (put_sent message key b c) w3 w4 n counted
      ∙ >>=_done (asked web http c http.write_report (put_request key message n b)) put_reported w4
          w5 r came

-- What the node did for a put that ended well.
pub record Accepted (srv : FileServer) (net : Libp2p) (req : Request) (report : WriteReport)
    (met left : World) : Type 0 where
  pub stored : WriteResultJson
  pub handled : handle_put srv net req met ≡ (write_json status_ok (written stored), left)
  pub reported : report ≡ report_of stored

module _ (http : Http) (cr : Carrier) (faithful : IsFaithful http cr) (srv : FileServer)
    (net : Libp2p) where
  served-put :
      (base key message : Text) (n : ℤ) (b : Bytes) (w : World)
      → served cr srv net base (put_request key message n b) w ≡ (
        cr.carry (handle_put srv net (put_request key message n b) w).0,
        (handle_put srv net (put_request key message n b) w).1,
      )
  unfolding served list_beq
  served-put base key message n b w = refl

  pub put-Accepted :
      (c : Client) (key message : Text) (n : ℤ) (b : Bytes) (met left : World)
      (report : WriteReport)
      → Answered
          (served cr srv net)
          c
          http.write_report
          (put_request key message n b)
          met
          report
          left
      → Accepted srv net (put_request key message n b) report met left
  put-Accepted c key message n b met left report h =
      let req = put_request key message n b in
      let came = sym (served-put c.base key message n b met) ∙ h.came in
      let carried : cr.carry (handle_put srv net req met).0 ≡ replied h.reply =
        ap (λ x. x.0) came in
      let (j, said) =
        handle_put_fine srv net req met
          (sym (faithful.carry-status (handle_put srv net req met).0 h.reply carried) ∙ h.fine) in
      record {
        stored = j;
        handled = λ i. (said i, (came i).1);
        reported =
            faithful.carry-written j h.reply report (ap cr.carry (sym said) ∙ carried) h.decoded;
      }

-- The key comes through a query.
query_get-query_of :
    (name value : Text) (params : List (Text × Text))
    → query_get name (query_of params) ≡ []
    → query_get name (query_of ((name, value) ∷ params)) ≡ value
unfolding query_get query_of
query_get-query_of name value params lacks = ground (arith, eq_iff value [], eq_iff name name)

query_get-query_of_other :
    (name other value : Text)
    → (other == name) ≡ false
    → query_get name (query_of ((other, value) ∷ [])) ≡ []
unfolding query_get query_of
query_get-query_of_other name other value differ = ground arith

pub put_key :
    (key message : Text) (n : ℤ) (b : Bytes)
    → query_get (codes "key") (put_request key message n b).query ≡ key
unfolding list_beq
put_key key message n b =
    query_get-query_of (codes "key") key ((codes "message", message) ∷ [])
      (query_get-query_of_other (codes "key") (codes "message") message refl)

query_get-query_of_skip :
    (name other value : Text) (params : List (Text × Text))
    → (other == name) ≡ false
    → query_get name (query_of ((other, value) ∷ params)) ≡ query_get name (query_of params)
unfolding query_get query_of
query_get-query_of_skip name other value params differ = ground arith

pub put_message :
    (key message : Text) (n : ℤ) (b : Bytes)
    → query_get (codes "message") (put_request key message n b).query ≡ message
unfolding list_beq
put_message key message n b =
    query_get-query_of_skip (codes "message") (codes "key") key ((codes "message", message) ∷ [])
      refl
    ∙ query_get-query_of (codes "message") message [] (unfold query_get query_of in refl)

key_named :
    (req : Request) (k : Text) → require_key req ≡ some k → query_get (codes "key") req.query ≡ k
unfolding require_key
key_named req k h = ground arith

-- The key that a put names is the one of the command line.
pub put_key_named :
    (key k message : Text) (n : ℤ) (b : Bytes)
    → require_key (put_request key message n b) ≡ some k
    → k ≡ key
put_key_named key k message n b h =
    sym (key_named (put_request key message n b) k h) ∙ put_key key message n b

pub get_key : (key : Text) → query_get (codes "key") (get_request key []).query ≡ key
unfolding list_beq
get_key key =
    query_get-query_of (codes "key") key ((codes "version", []) ∷ [])
      (query_get-query_of_other (codes "key") (codes "version") [] refl)

-- A request names a key whenever another with the same key does.
pub require_key_same :
    (req req' : Request) (key k : Text)
    → query_get (codes "key") req.query ≡ key
    → query_get (codes "key") req'.query ≡ key
    → require_key req ≡ some k
    → (k ≡ key) × (require_key req' ≡ some key)
unfolding require_key
require_key_same req req' key k e e' h = ground (arith, eq_iff key [])

pub get_version_param : (key : Text) → query_get (codes "version") (get_request key []).query ≡ []
unfolding query_get query_of list_beq
get_version_param key = ground arith
