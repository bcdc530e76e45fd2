-- ===== src/Cli/Client.antt =====
-- cmd/weavefs/client.go: finding the node that runs, and asking it.
use weave_fs.Base.{
  ℕ, ◌*◌, Option, none, some, List, [], ◌∷◌, ◌++◌, Bytes, Text, codes, ◌==◌, nat_eq, list_eq,
  nat_beq, if◌then◌else◌,
}
use weave_fs.Exec.{Error, Result, ok, err, World}
use weave_fs.Disk.{Reader, limit_reader}
use weave_fs.Store.Version.{is_not_exist}
use weave_fs.Api.AddrFile.{read_addr_file}
use weave_fs.Api.Http.{status_ok}

-- What a command ends with when it does not succeed: there is no node, or another error, or what
-- the node said.
pub data Failure : Type 0 where
  usage no_target many_targets : Failure
  not_running : Text → Failure
  io_failed : Error → Failure
  talking : Text → Failure
  said answered : Text → Failure
  unreadable_reply bad_url broken_reply : Failure

pub data Outcome (A : Type 0) : Type 0 where
  done : A → Outcome A
  failed : Failure → Outcome A

pub record Client : Type 0 where
  pub base : Text
  pub dir : Text

client_at : Text → Result Text → Outcome Client
client_at dir (err e) = if is_not_exist e then failed (not_running dir) else failed (io_failed e)
client_at dir (ok addr) = done (record { base = codes "http://" ++ addr; dir = dir })

unfoldable pub new_client : Text → World → Outcome Client × World
unfolding client_at
new_client dir w = let (r, w') = read_addr_file dir w in (client_at dir r, w')

-- How a request over HTTP ends: an answer, a dial that did not complete, another failure.
pub data Transport (A : Type 0) : Type 0 where
  replied : A → Transport A
  dial_failed other_failed : Transport A

unfoldable pub do_request : {A : Type 0} → Client → Transport A → Outcome A
do_request c (replied a) = done a
do_request c dial_failed = failed (not_running c.dir)
do_request c other_failed = failed (talking c.dir)

-- `Values.Set` under a name that the values lack, for each parameter that is not empty.
unfoldable pub query_of : List (Text × Text) → List (Text × Text)
query_of [] = []
query_of ((k, v) ∷ params) = let rest = query_of params in if v == [] then rest else (k, v) ∷ rest

-- An answer of a node: its status, the status line, and its body.
pub record Reply : Type 0 where
  pub status : ℕ
  pub status_line : Text
  pub body : Reader

-- The message of an error's JSON, or the status line without one.
said_or_status : Text → Option Text → Failure
said_or_status line none = answered line
said_or_status line (some t) = if t == [] then answered line else said t

-- The body is read up to 64 KiB.
unfoldable pub error_from_response : (Bytes → Option Text) → Reply → Failure
unfolding said_or_status limit_reader
error_from_response error_in resp =
    said_or_status resp.status_line (error_in (limit_reader resp.body (64 * 1024)).bytes)

decoded : {A : Type 0} → Option A → Outcome A
decoded none = failed unreadable_reply
decoded (some a) = done a

-- What a command makes of a reply: an error unless its status is 200, else the value in its body.
unfoldable pub result_in :
    {A : Type 0} → (Bytes → Option Text) → (Bytes → Option A) → Outcome Reply → Outcome A
unfolding error_from_response decoded
result_in error_in decode (failed why) = failed why
result_in error_in decode (done resp) =
    if nat_beq resp.status status_ok
    then decoded (decode resp.body.bytes)
    else failed (error_from_response error_in resp)
