-- ===== src/Cli/Serve/Laws.antt =====
-- Clients find a node while it serves, and not afterwards.
use weave_fs.Base.{
  Option, some, [], ◌∷◌, ◌++◌, Text, codes, nat_eq, list_eq, ◌≡◌, ◌≢◌, refl, ap, ◌∙◌, arith, subst,
}
use weave_fs.Strings.Laws.{HasNoSpace}
use weave_fs.Exec.{Error, not_exist, ok, err, World, lift, calm}
use weave_fs.Exec.Laws.{>>=-eq-ok}
use weave_fs.Server.Types.{FileServer}
use weave_fs.Api.AddrFile.{read_addr_file}
use weave_fs.Api.Listen
use weave_fs.Api.Listen.{
  Listen, Api, addr_of, start-data_dir, start-read_addr_file, close-read_addr_file,
}
use weave_fs.Cli.Client.{done, failed, not_running, new_client}
use weave_fs.Cli.Main.{Platform, start_node}
use weave_fs.Cli.Serve.{Dialler, ServeFlags, Running, serve_up, run_serve}

-- An API that was made stands in the directory of its configuration.
new-data_dir :
    (srv : FileServer) (data_dir addr : Text) (a : Api)
    → Listen.new (record { file_server = some srv; data_dir = data_dir; addr = addr }) ≡ ok a
    → a.data_dir ≡ data_dir
unfolding Listen.new
new-data_dir srv data_dir addr a h = ground arith

client_found :
    (dir addr : Text) (w : World)
    → read_addr_file dir w ≡ (ok addr, w)
    → (new_client dir w).0 ≡ done (record { base = codes "http://" ++ addr; dir = dir })
unfolding new_client
client_found dir addr w h = rw h refl

client_lost :
    (dir : Text) (w : World)
    → (read_addr_file dir w).0 ≡ err not_exist
    → (new_client dir w).0 ≡ failed (not_running dir)
unfolding new_client
client_lost dir w h = rw h refl

module _ {Key : Type 0} (p : Platform Key) (listen : Listen) (d : Dialler) where
  -- What a node that came up started.
  record Up (flags : ServeFlags) (r : Running) (w' : World) : Type 0 where
    pub made : Api
    pub before : World
    pub started : Listen.start listen made before ≡ (ok r.api, w')
    pub here : made.data_dir ≡ flags.data_dir

  serve_up-Up :
      (flags : ServeFlags) (w w' : World) (r : Running)
      → serve_up p listen d flags w ≡ (ok r, w')
      → Up flags r w'
  unfolding serve_up
  serve_up-Up flags w w' r h =
      let (n, w1, e1, h1) =
        >>=-eq-ok (start_node p flags.data_dir (flags.listen ∷ []) flags.no_mdns) _ w r w' h in
      let cfg : Listen.Config = record {
        file_server = some n.server;
        data_dir = flags.data_dir;
        addr = flags.api_addr;
      } in
      let (a, w2, e2, h2) = >>=-eq-ok (lift (Listen.new cfg)) _ w1 r w' h1 in
      let (a', w3, e3, h3) = >>=-eq-ok (Listen.start listen a) _ w2 r w' h2 in
      let same : a' ≡ r.api = cc (ap (λ x. x.0) h3) in
      record {
        made = a;
        before = w2;
        started = e3 ∙ (λ i. (ok (same i), (h3 i).1));
        here = new-data_dir n.server flags.data_dir flags.api_addr a (ap (λ x. x.0) e2);
      }

  -- A node that came up, whatever faults came on the way, is found in its directory by a client
  -- that meets none, at the address that its API is bound to. Once the command was interrupted,
  -- with no fault to come and whatever else happened meanwhile, a client is told that no node runs,
  -- however the shutdown of the HTTP server ended. The address is some text without a space.
  pub run_serve-new_client :
      (flags : ServeFlags) (meanwhile : World → World) (shuts_down : Option Error) (w w' : World)
      (r : Running)
      → serve_up p listen d flags w ≡ (ok r, w')
      → addr_of r.api ≢ []
      → HasNoSpace (addr_of r.api)
      → (meanwhile w').faults ≡ []
      → ((new_client flags.data_dir (calm w')).0
          ≡ done (record { base = codes "http://" ++ addr_of r.api; dir = flags.data_dir }))
        × ((run_serve p listen d flags meanwhile shuts_down w).0 ≡ ok tt)
        × ((new_client flags.data_dir (run_serve p listen d flags meanwhile shuts_down w).1).0
            ≡ failed (not_running flags.data_dir))
  unfolding run_serve
  run_serve-new_client flags meanwhile shuts_down w w' r h given plain quiet =
      let up = serve_up-Up flags w w' r h in
      let here : r.api.data_dir ≡ flags.data_dir =
        start-data_dir listen up.made r.api up.before w' up.started ∙ up.here in
      (
        client_found flags.data_dir (addr_of r.api) (calm w') (
            subst (λ t. read_addr_file t (calm w') ≡ (ok (addr_of r.api), calm w')) up.here
              (start-read_addr_file listen up.made r.api up.before w' up.started given plain)),
        rw h refl,
        rw h (
            client_lost flags.data_dir (Listen.close shuts_down r.api (meanwhile w')).1 (
              subst
                (λ t.
                  (read_addr_file t (Listen.close shuts_down r.api (meanwhile w')).1).0
                  ≡ err not_exist)
                here (close-read_addr_file shuts_down r.api (meanwhile w') quiet))),
      )
