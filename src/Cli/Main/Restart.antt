-- ===== src/Cli/Main/Restart.antt =====
-- A node that is started again is the same node.
use weave_fs.Base.{
  length, Bool, List, [], ◌∷◌, ◌++◌, Text, codes, ◌≡◌, ◌≢◌, arith, ap, ◌∙◌, sym, subst,
}
use weave_fs.Strings.{slash}
use weave_fs.Strings.Laws.{Lacks, split_of_Lacks}
use weave_fs.Hex.Laws.{AreBytes}
use weave_fs.Exec.{ok, World, calm, lift, ◌>>=◌}
use weave_fs.Exec.Laws.{>>=-eq-ok, bind_ok}
use weave_fs.Disk.Files.{append_left_injective}
use weave_fs.Disk.Resolve.{IsPlain, resolve, resolve-append}
use weave_fs.Fsutil.{tmp_path}
use weave_fs.Crypto.Key.{key_file_name, key_path, load_or_create_key}
use weave_fs.Crypto.Key.Laws.{load_or_create_key_stable}
use weave_fs.Crypto.Key.Others.{load_or_create_key_others}
use weave_fs.Node
use weave_fs.Node.Identity.{IsFaithful, identity_file_name, identity_path}
use weave_fs.Node.Laws.{new_stable}
use weave_fs.Base.{append_assoc}
use weave_fs.Cli.Main.{WeaveNode, Platform, node_config, assembled, start_node}

-- A file with a plain name lies in its folder under that name.
child :
    (folder name : Text)
    → IsPlain name
    → Lacks slash name
    → resolve (folder ++ (slash ∷ name)) ≡ resolve folder ++ (name ∷ [])
child folder name plain flat =
    resolve-append folder name (name ∷ []) (split_of_Lacks slash name flat) (plain, tt)

siblings_differ :
    (folder x y : Text)
    → IsPlain x
    → Lacks slash x
    → IsPlain y
    → Lacks slash y
    → x ≢ y
    → resolve (folder ++ (slash ∷ x)) ≢ resolve (folder ++ (slash ∷ y))
siblings_differ folder x y px fx py fy differ e = differ (
    cc (
      append_left_injective (resolve folder) (x ∷ []) (y ∷ [])
        (sym (child folder x px fx) ∙ e ∙ child folder y py fy)))

key-ne-identity : (data_dir : Text) → resolve (key_path data_dir) ≢ resolve (identity_path data_dir)
key-ne-identity data_dir =
    siblings_differ data_dir key_file_name identity_file_name (ground arith) (omega arith)
      (ground arith) (omega arith) (λ e. omega (arith, ap length e))

tmp-ne-identity :
    (data_dir : Text) → resolve (tmp_path (key_path data_dir)) ≢ resolve (identity_path data_dir)
tmp-ne-identity data_dir = rw (append_assoc data_dir (slash ∷ key_file_name) (codes ".tmp")) (
    siblings_differ data_dir (key_file_name ++ codes ".tmp") identity_file_name (ground arith)
      (omega arith) (ground arith) (omega arith) (λ e. omega (arith, ap length e)))

module _ {Key : Type 0} (p : Platform Key) (faithful : IsFaithful p.net.keys) where
  -- A node that was started, whatever faults came, starts again as the same node when no fault
  -- comes: with the same peer ID, the same encryption key in its store's cipher, and the same
  -- server. Keys that libp2p marshalled unmarshal to the same keys, and the random source gives
  -- numbers below 256.
  pub start_node_stable :
      (data_dir : Text) (listen_addrs : List Text) (disable_mdns : Bool) (w w' : World)
      (s : WeaveNode)
      → AreBytes (Node.new p.net (node_config data_dir listen_addrs disable_mdns) w).1.entropy
      → start_node p data_dir listen_addrs disable_mdns w ≡ (ok s, w')
      → start_node p data_dir listen_addrs disable_mdns (calm w') ≡ (ok s, calm w')
  unfolding start_node
  start_node_stable data_dir listen_addrs disable_mdns w w' s bytes h =
      let cfg = node_config data_dir listen_addrs disable_mdns in
      let (n, w1, e1, h1) = >>=-eq-ok (Node.new p.net cfg) _ w s w' h in
      let (key, w2, e2, h2) = >>=-eq-ok (load_or_create_key data_dir) _ w1 s w' h1 in
      let same : w2 ≡ w' = ap (λ x. x.1) h2 in
      let built : assembled p data_dir n key ≡ ok s = ap (λ x. x.0) h2 in
      let identity : w'.files (resolve (identity_path data_dir))
          ≡ w1.files (resolve (identity_path data_dir)) =
        ap (λ (x : World). x.files (resolve (identity_path data_dir))) (sym same)
        ∙ rw e2 at (
            load_or_create_key_others data_dir w1 (resolve (identity_path data_dir))
              (tmp-ne-identity data_dir) (key-ne-identity data_dir)) in
      let node_again = new_stable p.net faithful cfg w w1 w' n e1 identity in
      let key_again =
        subst (λ (v : World). load_or_create_key data_dir (calm v) ≡ (ok key, calm v)) same
          (load_or_create_key_stable data_dir w1 w2 key (rw e1 at bytes) e2) in
      bind_ok (Node.new p.net cfg)
        (λ m. load_or_create_key data_dir >>= λ k. lift (assembled p data_dir m k)) (calm w')
        (calm w') n node_again
      ∙ bind_ok (load_or_create_key data_dir) (λ k. lift (assembled p data_dir n k)) (calm w')
          (calm w') key key_again
      ∙ ap (λ r. (r, calm w')) built
