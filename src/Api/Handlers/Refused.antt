-- ===== src/Api/Handlers/Refused.antt =====
-- A share request that names a peer which is not connected.
use weave_fs.Base.{
  ℤ, Bool, false, Option, none, some, List, [], ◌∷◌, Text, codes, nat_eq, list_eq, ◌≡◌, ◌≢◌, refl,
  ◌∙◌, sym, subst,
}
use weave_fs.Exec.{Result, ok, err, World}
use weave_fs.Exec.Laws.{some-injective}
use weave_fs.Server.Types.{FileServer}
use weave_fs.Server.Targets.{is_listed, resolve_targets}
use weave_fs.Server.Targets.Laws.{AreConnected, resolve_targets_named}
use weave_fs.Api.Http.{Request, query_all, status_bad_request}
use weave_fs.Api.Json.{Refusal}
use weave_fs.Api.Handlers.{
  Libp2p, Parsed, refused, parsed, decoded_peer, decode_peers, chosen, resolved, parse_targets,
  write_json, write_error, require_key, keyed, share_targeted, handle_share,
}

-- One of the texts is no peer ID, or that of a peer that is not connected.
pub data HasStranger (srv : FileServer) (net : Libp2p) : List Text → Type 0 where
  no_peer : {t : Text} {ts : List Text} → net.decode_peer t ≡ none → HasStranger srv net (t ∷ ts)
  not_here :
      {t p : Text} {ts : List Text}
      → net.decode_peer t ≡ some p
      → is_listed p srv.peers ≡ false
      → HasStranger srv net (t ∷ ts)
  further : {t : Text} {ts : List Text} → HasStranger srv net ts → HasStranger srv net (t ∷ ts)

module _ (srv : FileServer) (net : Libp2p) where
  stranger_first :
      (t p : Text) (ts ps : List Text)
      → HasStranger srv net (t ∷ ts)
      → net.decode_peer t ≡ some p
      → (HasStranger srv net ts → AreConnected ps srv.peers → ⊥)
      → AreConnected (p ∷ ps) srv.peers
      → ⊥
  stranger_first t p ts ps (no_peer n) d rest here = absurd (cc (n, d))
  stranger_first t p ts ps (not_here {p = q} n away) d rest here =
      let same : q ≡ p = some-injective (sym n ∙ d) in
      absurd (cc (subst (λ x. is_listed x srv.peers ≡ false) same away, here.0))
  stranger_first t p ts ps (further h) d rest here = rest h here.1

  -- The peers that were read of the texts are not all connected.
  strangers_apart :
      (ts ps : List Text)
      → HasStranger srv net ts
      → decode_peers net ts ≡ parsed ps
      → (ps ≢ []) × (AreConnected ps srv.peers → ⊥)
  unfolding decode_peers decoded_peer
  strangers_apart [] ps h e = elim h [ ]
  strangers_apart (t ∷ ts) ps h e =
      go (λ qs r h'. (strangers_apart ts qs h' r).1) (net.decode_peer t) refl (decode_peers net ts)
        refl e
    where
      go :
          ((qs : List Text)
            → decode_peers net ts ≡ parsed qs
            → HasStranger srv net ts
            → AreConnected qs srv.peers
            → ⊥)
          → (o : Option Text) → net.decode_peer t ≡ o
          → (rest : Parsed (List Text)) → decode_peers net ts ≡ rest
          → decoded_peer t o rest ≡ parsed ps
          → (ps ≢ []) × (AreConnected ps srv.peers → ⊥)
      go others none d rest r e = absurd (cc e)
      go others (some p) d (refused why) r e = absurd (cc e)
      go others (some p) d (parsed qs) r e =
          let same : p ∷ qs ≡ ps = cc e in
          (
            (λ n. absurd (cc (same ∙ n))),
            (λ here.
                stranger_first t p ts qs h d (others qs r)
                  (subst (λ l. AreConnected l srv.peers) (sym same) here)),
          )

  targets_apart :
      (ps targets : List Text) (count : ℤ) (all : Bool) (r : Result (List Text))
      → ps ≢ []
      → resolve_targets srv.peers ps count all ≡ r
      → resolved r ≡ parsed targets
      → AreConnected ps srv.peers
  unfolding resolved
  targets_apart ps targets count all (err e) n h g = absurd (cc g)
  targets_apart ps targets count all (ok ts) n h g =
      resolve_targets_named srv.peers ps ts count all n h

  strangers_unresolved :
      (q : List (Text × Text)) (targets : List Text)
      → HasStranger srv net (query_all (codes "peer") q)
      → parse_targets srv net q ≡ parsed targets
      → ⊥
  unfolding parse_targets chosen
  strangers_unresolved q targets h = go _ refl _ _
    where
      go :
          (explicit : Parsed (List Text))
          → decode_peers net (query_all (codes "peer") q) ≡ explicit
          → (count : Parsed ℤ) (all : Bool) → chosen srv explicit count all ≡ parsed targets
          → ⊥
      go (refused why) d count all e = absurd (cc e)
      go (parsed ps) d (refused why) all e = absurd (cc e)
      go (parsed ps) d (parsed n) all e =
          let (given, apart) = strangers_apart (query_all (codes "peer") q) ps h d in
          apart (targets_apart ps targets n all (resolve_targets srv.peers ps n all) given refl e)

module _ (srv : FileServer) (net : Libp2p) (req : Request) where
  targets_refused :
      (w : World) (why : Refusal)
      → parse_targets srv net req.query ≡ refused why
      → ((handle_share srv net req w).1 ≡ w)
        × ((handle_share srv net req w).0.status ≡ status_bad_request)
  unfolding handle_share keyed share_targeted write_error write_json
  targets_refused w why h = go (require_key req)
    where
      go :
          (o : Option Text)
          → ((keyed o (λ key. share_targeted srv net req key (parse_targets srv net req.query)) w).1
              ≡ w)
            × ((keyed o
                  (λ key. share_targeted srv net req key (parse_targets srv net req.query))
                  w).0.status
                ≡ status_bad_request)
      go none = (refl, refl)
      go (some key) = rw h (refl, refl)

  -- A share request that names a peer that is not connected, or that is no peer ID at all, among any
  -- number of others, is refused before anything is stored or sent: the machine is as it was, also
  -- where the request has a file in its body, and the status is 400.
  pub handle_share-refused :
      (w : World)
      → HasStranger srv net (query_all (codes "peer") req.query)
      → ((handle_share srv net req w).1 ≡ w)
        × ((handle_share srv net req w).0.status ≡ status_bad_request)
  handle_share-refused w h = go (parse_targets srv net req.query) refl
    where
      go :
          (p : Parsed (List Text))
          → parse_targets srv net req.query ≡ p
          → ((handle_share srv net req w).1 ≡ w)
            × ((handle_share srv net req w).0.status ≡ status_bad_request)
      go (refused why) e = targets_refused w why e
      go (parsed targets) e = absurd (strangers_unresolved srv net req.query targets h e)
