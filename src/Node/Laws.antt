-- ===== src/Node/Laws.antt =====
-- A node comes back as itself, and closes once.
use weave_fs.Base.{
  list_beq, Bool-cases, Option-cases, inl, inr, List, ◌∷◌, not, Option, [], Text, ◌==◌, nat_eq,
  list_eq, if◌then◌else◌, ◌≡◌, refl, ap, ◌∙◌, sym,
}
use weave_fs.Exec.{Error, no_data_dir, ok, err, World, calm, guard, ◌>>=◌}
use weave_fs.Exec.Laws.{bind_ok, >>=-eq-ok, guard-eq-ok}
use weave_fs.Node.{
  default_service_name, addrs_or_default, once, Config, with_defaults, Libp2p, Node, hosted, new,
  close,
}
use weave_fs.Disk.Resolve.{resolve}
use weave_fs.Node.Identity.{identity_path, IsFaithful, load_or_create_identity}
use weave_fs.Node.Identity.Laws.{load_or_create_identity_stable}

hosted_again :
    {Key : Type 0} (net : Libp2p Key) (cfg : Config) (priv : Key) (n : Node) (w w' v : World)
    → hosted net cfg priv w ≡ (ok n, w')
    → (w ≡ w') × (hosted net cfg priv v ≡ (ok n, v))
unfolding hosted
hosted_again net cfg priv n w w' v h = (ap (λ x. x.1) h, ap (λ x. (x.0, v)) h)

-- A node that was started, whatever faults came, starts again as the same node on every machine
-- with the same identity file, when no fault comes: with the same configuration it has the same
-- ID and the same discovery. Keys that libp2p marshalled unmarshal to the same keys.
pub new_stable :
    {Key : Type 0} (net : Libp2p Key) (faithful : IsFaithful net.keys) (cfg : Config)
    (w w' v : World) (n : Node)
    → new net cfg w ≡ (ok n, w')
    → v.files (resolve (identity_path cfg.data_dir))
      ≡ w'.files (resolve (identity_path cfg.data_dir))
    → new net cfg (calm v) ≡ (ok n, calm v)
unfolding new with_defaults
new_stable net faithful cfg w w' v n h file =
    let full = with_defaults cfg in
    let (u, w1, e1, h1) = >>=-eq-ok (guard (not (full.data_dir == [])) no_data_dir) _ w n w' h in
    let (priv, w2, e2, h2) =
      >>=-eq-ok (load_or_create_identity net.keys full.data_dir) _ w1 n w' h1 in
    let (same, again) = hosted_again net full priv n w2 w' (calm v) h2 in
    let ready : guard (not (full.data_dir == [])) no_data_dir (calm v) ≡ (ok tt, calm v) =
      ap (λ b. (if b then ok tt else err no_data_dir, calm v))
        (guard-eq-ok (not (full.data_dir == [])) no_data_dir u w w1 e1).0 in
    let key =
      load_or_create_identity_stable net.keys faithful cfg.data_dir w1 w2 v priv e2
        (file ∙ ap (λ (x : World). x.files (resolve (identity_path cfg.data_dir))) (sym same)) in
    bind_ok (guard (not (full.data_dir == [])) no_data_dir)
      (λ _. load_or_create_identity net.keys full.data_dir >>= hosted net full) (calm v) (calm v) tt
      ready
    ∙ bind_ok (load_or_create_identity net.keys full.data_dir) (hosted net full) (calm v) (calm v)
        priv key
    ∙ again

-- Closing twice is closing once: the second call reports what the first reported, whatever the
-- host would say by then, and changes nothing.
pub close_twice :
    (first second : Option Error) (n : Node)
    → (close second (close first n).1 ≡ ((close first n).0, (close first n).1))
unfolding close once
close_twice first second n = elim (Option-cases n.closed) [
  | inl e ↦ simp (e)
  | inr (x, e) ↦ simp (e)
]

again_name :
    (name : Text)
    → (if (if name == [] then default_service_name else name) == []
        then default_service_name
        else (if name == [] then default_service_name else name))
      ≡ (if name == [] then default_service_name else name)
unfolding list_beq
again_name name = elim (Bool-cases (name == [])) [ inl e ↦ rw e | inr e ↦ rw (e, e) ]

again_addrs :
    (addrs : List Text) → addrs_or_default (addrs_or_default addrs) ≡ addrs_or_default addrs
unfolding addrs_or_default
again_addrs [] = refl
again_addrs (a ∷ rest) = refl

-- Filling in the defaults leaves nothing more to fill in.
pub with_defaults_idempotent : (c : Config) → with_defaults (with_defaults c) ≡ with_defaults c
unfolding with_defaults list_beq
with_defaults_idempotent c = λ i. record c {
  listen_addrs = again_addrs c.listen_addrs i;
  service_name = again_name c.service_name i;
}
