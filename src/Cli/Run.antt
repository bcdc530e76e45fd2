-- ===== src/Cli/Run.antt =====
-- cmd/weavefs/client.go and commands.go: what the client commands share. A command takes the
-- machine that it runs on, which is also the node's, to an outcome and a machine.
pub mod Laws
use weave_fs.Base.{
  ℕ, ℤ, pos, zero, suc, ltb, not, Bool, true, false, Option, none, some, List, [], ◌∷◌, Bytes, Text,
  codes, nat_beq, if◌then◌else◌,
}
use weave_fs.Exec.{Result, ok, err, World, Exec}
use weave_fs.Disk.{Reader, reader_of, stat}
use weave_fs.Api.Http.{Request}
use weave_fs.Api.Json.{FailureJson, PlacementJson, VersionJson}
use weave_fs.Cli.Client.{
  Failure, usage, io_failed, Outcome, done, failed, Client, Transport, Reply, do_request, result_in,
}

abbrev pub Command : Type 0 → Type 0
Command A = World → Outcome A × World

module _ {A : Type 0} where
  abbrev pub finish : A → Command A
  finish a w = (done a, w)

  abbrev pub fail : Failure → Command A
  fail why w = (failed why, w)

  from_result : Result A → Outcome A
  from_result (ok a) = done a
  from_result (err e) = failed (io_failed e)

  -- A call of the operating system whose error ends the command.
  unfoldable pub calling : Exec A → Command A
  unfolding from_result
  calling m w = let (r, w') = m w in (from_result r, w')

module _ {A B : Type 0} where
  abbrev pub onward : Outcome A → (A → Command B) → Command B
  onward (done a) f w = f a w
  onward (failed why) f w = (failed why, w)

  infixl 5 ◌>>=◌
  abbrev pub ◌>>=◌ : Command A → (A → Command B) → Command B
  ◌>>=◌ m f w = let (r, w') = m w in onward r f w'

-- `writeResult`.
pub record WriteReport : Type 0 where
  pub key : Text
  pub version_id : Text
  pub seq : ℤ
  pub size_bytes : ℤ
  pub created_at : ℕ
  pub peers_tried : ℕ
  pub peers_stored : ℕ
  pub failures : List FailureJson

-- `shareResult`.
pub record ShareReport : Type 0 where
  pub key : Text
  pub peers_tried : ℕ
  pub peers_stored : ℕ
  pub placements : List PlacementJson
  pub failures : List FailureJson

-- What the commands use of `net/http` and `encoding/json`: whether a base makes a URL, the length
-- that a server is told of a body whose client announces none, and the replies that are read.
pub record Http : Type 0 where
  pub parses : Text → Bool
  pub unknown_length : Bytes → ℤ
  pub error_in : Bytes → Option Text
  pub write_report : Bytes → Option WriteReport
  pub share_report : Bytes → Option ShareReport
  pub version_list : Bytes → Option (List VersionJson)

-- What answers under a base, while the machine goes on.
abbrev pub Web : Type 0
Web = Text → Request → World → Transport Reply × World

-- The length of a request's body, of a file: a length of 0 counts as not announced.
announced : Http → Bytes → Result ℕ → ℤ
announced http b (ok (suc n)) = pos (suc n)
announced http b (ok zero) = http.unknown_length b
announced http b (err e) = http.unknown_length b

-- `Stat` on a file that is open, whose failure is no error.
unfoldable pub length_of : Http → Text → Bytes → Command ℤ
unfolding announced
length_of http path b w = let (r, w') = stat path w in (done (announced http b r), w')

-- `http.NewRequest`.
unfoldable pub checked_base : Http → Client → Command (Unit {0})
checked_base http c w = (if http.parses c.base then done tt else failed Failure.bad_url, w)

-- A request, and what is read of its reply: an error unless the status is 200.
unfoldable pub asked : {A : Type 0} → Web → Http → Client → (Bytes → Option A) → Request → Command A
unfolding do_request result_in
asked web http c decode req w =
    let (t, w') = web c.base req w in (result_in http.error_in decode (do_request c t), w')

abbrev pub no_body : Reader
no_body = reader_of []
