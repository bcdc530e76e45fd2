-- ===== src/Server/Config.antt =====
-- internal/server/server.go: the configuration of a file server, the life of its handlers, and the
-- calls that only pass on to the store.
use weave_fs.Base.{
  ℤ, pos, is_negative, to_count, Bool, true, false, ltb, ◌∷◌, Option, none, some, List, [], Text,
  if◌then◌else◌, ◌≡◌, refl, ◌∙◌, ap,
}
use weave_fs.Exec.{no_node, no_store, negative_factor, Result, ok, err, World, Exec}
use weave_fs.Disk.{Reader}
use weave_fs.Store.Version.{VersionEntry, Library}
use weave_fs.Store.Paths.{Store}
use weave_fs.Store.Ops.{delete, has, list_versions}
use weave_fs.Server.Types.{Authorizer, allow_all, Codecs, Network, FileServer, WriteResult}
use weave_fs.Server.Fanout.{
  store_protocol, get_protocol, share_protocol, store_version, get_version,
}

-- Five minutes, in nanoseconds.
abbrev pub default_request_timeout : ℤ
default_request_timeout = pos 300000000000

-- A node, as the server uses it: its ID, its connections and the libraries.
pub record Joined : Type 0 where
  pub id : Text
  pub peers : List Text
  pub network : Network
  pub lib : Library
  pub codecs : Codecs

pub record Config : Type 0 where
  pub node : Option Joined
  pub store : Option Store
  pub replication_factor : ℤ
  pub request_timeout : ℤ
  pub authorizer : Option Authorizer

-- The limit for one request.
timeout_or_default : ℤ → ℤ
timeout_or_default t = if ltb 0 (to_count t) then t else default_request_timeout

authorizer_or_default : Option Authorizer → Authorizer
unfolding allow_all
authorizer_or_default none = allow_all
authorizer_or_default (some a) = a

built : Joined → Store → Config → Result FileServer
unfolding authorizer_or_default timeout_or_default
built n s cfg =
    if is_negative cfg.replication_factor
    then err negative_factor
    else ok (record {
      node_id = n.id;
      store = s;
      replication_factor = cfg.replication_factor;
      request_timeout = timeout_or_default cfg.request_timeout;
      authorizer = authorizer_or_default cfg.authorizer;
      peers = n.peers;
      network = n.network;
      lib = n.lib;
      codecs = n.codecs;
    })

with_store : Joined → Option Store → Config → Result FileServer
unfolding built
with_store n none cfg = err no_store
with_store n (some s) cfg = built n s cfg

with_node : Option Joined → Config → Result FileServer
unfolding with_store
with_node none cfg = err no_node
with_node (some n) cfg = with_store n cfg.store cfg

unfoldable pub new : Config → Result FileServer
unfolding with_node
new cfg = with_node cfg.node cfg

-- `startOnce` and `closeOnce`, and the protocols that the host answers.
pub record Life : Type 0 where
  pub has_started : Bool
  pub has_closed : Bool
  pub handled : List Text

abbrev pub fresh : Life
fresh = record { has_started = false; has_closed = false; handled = [] }

unfoldable pub start : Life → Life
start l = if l.has_started then l else record l {
  has_started = true;
  handled = store_protocol ∷ get_protocol ∷ share_protocol ∷ [];
}

unfoldable pub close : Life → Life
close l = if l.has_closed then l else record l { has_closed = true; handled = [] }

-- A call that changes the life of the handlers.
pub data Call : Type 0 where
  to_start to_close : Call

abbrev pub call : Call → Life → Life
call to_start l = start l
call to_close l = close l

abbrev pub calls : List Call → Life → Life
calls [] l = l
calls (c ∷ cs) l = calls cs (call c l)

-- `Store`, `Get`, `Delete`, `Has` and `ListVersions`.
module _ (srv : FileServer) where
  unfoldable pub store : Text → Reader → Exec WriteResult
  store key r = store_version srv key [] r

  unfoldable pub get : Text → Exec (ℤ × Reader)
  get key = get_version srv key []

  unfoldable pub delete_key : Text → Exec (Unit {0})
  delete_key key = delete srv.lib srv.store srv.node_id key

  unfoldable pub has_key : Text → World → Bool × World
  has_key key = has srv.lib srv.store srv.node_id key

  unfoldable pub versions_of : Text → Exec (List VersionEntry)
  versions_of key = list_versions srv.lib srv.store srv.node_id key

-- Once both have been called, no call of either changes anything any more.
settled : (cs : List Call) (l : Life) → l.has_started ≡ true → l.has_closed ≡ true → calls cs l ≡ l
unfolding start close
settled [] l s c = refl
settled (to_start ∷ cs) l s c = ap (calls cs) (simp (s)) ∙ settled cs l s c
settled (to_close ∷ cs) l s c = ap (calls cs) (simp (c)) ∙ settled cs l s c

-- Each of start and close counts once, for good: a server that was started and then closed answers
-- no protocol, and one that was closed before it was started answers all three, whatever calls of
-- either follow.
pub calls_settle :
    (cs : List Call)
    → ((calls (to_start ∷ to_close ∷ cs) fresh).handled ≡ [])
      × ((calls (to_close ∷ to_start ∷ cs) fresh).handled
          ≡ store_protocol ∷ get_protocol ∷ share_protocol ∷ [])
unfolding start close
calls_settle cs = (
  ap (λ (l : Life). l.handled) (settled cs (close (start fresh)) refl refl),
  ap (λ (l : Life). l.handled) (settled cs (start (close fresh)) refl refl),
)
