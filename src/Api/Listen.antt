-- ===== src/Api/Listen.antt =====
-- internal/api/api.go: the API's life, from its configuration over listening to its end.
use weave_fs.Base.{
  Option, none, some, [], Text, codes, ◌==◌, nat_eq, list_eq, if◌then◌else◌, ◌≡◌, ◌≢◌, ap, ◌∙◌, sym,
}
use weave_fs.Strings.Laws.{HasNoSpace}
use weave_fs.Exec.{
  Error, no_file_server, no_data_dir, listen_failed, not_exist, Result, ok, err, World, Exec, pure,
  raise, calm, ◌>>=◌, ◌>>◌,
}
use weave_fs.Exec.Laws.{>>=-eq-ok, >>-pure-eq-ok}
use weave_fs.Server.Types.{FileServer}
use weave_fs.Api.AddrFile.{read_addr_file, write_addr_file, remove_addr_file}
use weave_fs.Api.AddrFile.Laws.{write_addr_file-read_addr_file, remove_addr_file-read_addr_file}

abbrev pub default_addr : Text
default_addr = codes "127.0.0.1:0"

pub record Config : Type 0 where
  pub file_server : Option FileServer
  pub data_dir : Text
  pub addr : Text

-- An API that was made: its address to bind, and the one that it got, once it listens.
pub record Api : Type 0 where
  pub server : FileServer
  pub data_dir : Text
  pub addr : Text
  pub listener : Option Text

made : FileServer → Text → Text → Result Api
made srv data_dir addr =
    if data_dir == []
    then err no_data_dir
    else ok (record {
      server = srv;
      data_dir = data_dir;
      addr = if addr == [] then default_addr else addr;
      listener = none;
    })

made_from : Option FileServer → Text → Text → Result Api
unfolding made
made_from none data_dir addr = err no_file_server
made_from (some srv) data_dir addr = made srv data_dir addr

unfoldable pub new : Config → Result Api
unfolding made_from
new cfg = made_from cfg.file_server cfg.data_dir cfg.addr

-- `net.Listen`: the address that was bound, if one could be.
abbrev pub Listen : Type 0
Listen = Text → Option Text

bound : Option Text → Exec Text
bound none = raise listen_failed
bound (some addr) = pure addr

-- The listener stays set also where the address file could not be written, and is closed then.
unfoldable pub start : Listen → Api → Exec Api
unfolding bound
start listen a = do
  ln ← bound (listen a.addr)
  write_addr_file a.data_dir ln
  pure (record a { listener = some ln })

-- `Addr`.
unfoldable pub addr_of : Api → Text
addr_of a = elim a.listener [ none ↦ [] | some ln ↦ ln ]

-- How `Shutdown` of the HTTP server ends is left to `shuts_down`.
unfoldable pub close : Option Error → Api → Exec (Unit {0})
close shuts_down a = do
  remove_addr_file a.data_dir
  elim shuts_down [ none ↦ pure tt | some e ↦ raise e ]

started :
    (a : Api) (ln : Text) (w w' : World) (a' : Api)
    → (write_addr_file a.data_dir ln >> pure (record a { listener = some ln })) w ≡ (ok a', w')
    → addr_of a' ≢ []
    → HasNoSpace (addr_of a')
    → read_addr_file a.data_dir (calm w') ≡ (ok (addr_of a'), calm w')
unfolding addr_of
started a ln w w' a' h given plain =
    let (same, wrote) =
      >>-pure-eq-ok (write_addr_file a.data_dir ln) (record a { listener = some ln }) w a' w' h in
    let there : addr_of a' ≡ ln = ap addr_of (sym same) in
    write_addr_file-read_addr_file a.data_dir (addr_of a') w w' given plain
      (ap (λ t. write_addr_file a.data_dir t w) there ∙ wrote)

-- A client that looks into the node's directory after a start that returned finds the address that
-- the API is bound to, whatever faults the start met, if the client's read meets none. The address
-- of the listener is some text without a space.
pub start-read_addr_file :
    (listen : Listen) (a a' : Api) (w w' : World)
    → start listen a w ≡ (ok a', w')
    → addr_of a' ≢ []
    → HasNoSpace (addr_of a')
    → read_addr_file a.data_dir (calm w') ≡ (ok (addr_of a'), calm w')
unfolding start bound
start-read_addr_file listen a a' w w' = go (listen a.addr)
  where
    go :
        (o : Option Text)
        → (bound o >>= λ ln.
              write_addr_file a.data_dir ln >> pure (record a { listener = some ln }))
            w
          ≡ (ok a', w')
        → addr_of a' ≢ []
        → HasNoSpace (addr_of a')
        → read_addr_file a.data_dir (calm w') ≡ (ok (addr_of a'), calm w')
    go none h given plain = absurd (cc h)
    go (some ln) h given plain = started a ln w w' a' h given plain

-- An API that started stands in the directory that it was made for.
pub start-data_dir :
    (listen : Listen) (a a' : Api) (w w' : World)
    → start listen a w ≡ (ok a', w')
    → a'.data_dir ≡ a.data_dir
unfolding start
start-data_dir listen a a' w w' h =
    let (ln, w1, e, h1) = >>=-eq-ok (bound (listen a.addr)) _ w a' w' h in
    ap (λ (x : Api). x.data_dir)
      (sym
        (>>-pure-eq-ok (write_addr_file a.data_dir ln) (record a { listener = some ln }) w1 a' w'
          h1).0)

-- Behind a close that met no fault on disk a client is told that there is no address file, however
-- the shutdown of the HTTP server ended.
pub close-read_addr_file :
    (shuts_down : Option Error) (a : Api) (w : World)
    → w.faults ≡ []
    → (read_addr_file a.data_dir (close shuts_down a w).1).0 ≡ err not_exist
unfolding close remove_addr_file
close-read_addr_file none a w calm = remove_addr_file-read_addr_file a.data_dir w calm
close-read_addr_file (some e) a w calm = remove_addr_file-read_addr_file a.data_dir w calm
