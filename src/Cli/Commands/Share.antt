-- ===== src/Cli/Commands/Share.antt =====
-- What a send that ended well did.
use weave_fs.Base.{ℤ, pos, Bool, none, List, [], ◌∷◌, Text, codes, nat_eq, list_eq, ◌≡◌, refl, ◌∙◌}
use weave_fs.Exec.{World}
use weave_fs.Disk.{Reader}
use weave_fs.Store.Version.{Json}
use weave_fs.Api.Http.{Request}
use weave_fs.Cli.Aliases.{Aliases, load_aliases}
use weave_fs.Cli.Client.{done, Client, new_client}
use weave_fs.Cli.Print.{Line, print_share_result}
use weave_fs.Cli.Send.{check_one_target, send_query}
use weave_fs.Cli.Run.{Http, Web, ◌>>=◌, Command, ShareReport, checked_base, asked, no_body}
use weave_fs.Cli.Run.Laws.{>>=_done, Answered}
use weave_fs.Cli.Commands.{with_aliases, checked_target, send_body, send_key, run_send}

module _ (web : Web) (http : Http) (json : Json Aliases) (dir : Text)
    (message version as_key : Text) (peers : List Text) (count : ℤ) (all : Bool) where
  -- The request of a send, of its key and its body.
  abbrev pub send_request : Text → ℤ × Reader → Request
  send_request key body = record {
    method = codes "POST";
    path = codes "/v1/share";
    query = send_query key message version as_key peers count all;
    content_length = body.0;
    body = body.1;
  }

  -- A send that ended well: its choice of targets was one, and the node answered.
  pub record Sent (args : List Text) (lines : List Line) : Type 0 where
    pub key : Text
    pub files : List Text
    pub given : args ≡ key ∷ files
    pub body : ℤ × Reader
    pub client : Client
    pub report : ShareReport
    pub met : World
    pub left : World
    pub one : check_one_target peers count all ≡ none
    pub answered : Answered web client http.share_report (send_request key body) met report left
    pub printed : lines ≡ print_share_result report (load_aliases json dir left).0

  abbrev pub send_reported : ShareReport → Command (List Line)
  send_reported r = with_aliases json dir (print_share_result r)

  abbrev send_asked : Text → Client → ℤ × Reader → Command (List Line)
  send_asked key c body =
      asked web http c http.share_report (send_request key body) >>= send_reported

  abbrev send_checked : Text → Client → ℤ × Reader → Command (List Line)
  send_checked key c body = checked_base http c >>= λ _. send_asked key c body

  abbrev send_located : Text → List Text → Client → Command (List Line)
  send_located key files c = send_body web http json dir files >>= send_checked key c

  -- A send of a stored file whose steps all ended well, from the node's address to the report.
  pub send_key_steps :
      (key : Text) (c : Client) (r : ShareReport) (w w1 w2 w3 : World)
      → check_one_target peers count all ≡ none
      → new_client dir w ≡ (done c, w1)
      → checked_base http c w1 ≡ (done tt, w2)
      → asked web http c http.share_report (send_request key (pos 0, no_body)) w2 ≡ (done r, w3)
      → run_send web http json dir message version as_key peers count all (key ∷ []) w
        ≡ send_reported r w3
  unfolding run_send send_key with_aliases checked_target send_body
  send_key_steps key c r w w1 w2 w3 one found good came =
      >>=_done (checked_target web http json dir peers count all)
        (λ (u : Unit {0}). new_client dir >>= send_located key []) w w tt (rw one refl)
      ∙ >>=_done (new_client dir) (send_located key []) w w1 c found
      ∙ >>=_done (checked_base http c) (λ (v : Unit {0}). send_asked key c (pos 0, no_body)) w1 w2
          tt good
      ∙ >>=_done (asked web http c http.share_report (send_request key (pos 0, no_body)))
          send_reported w2 w3 r came
