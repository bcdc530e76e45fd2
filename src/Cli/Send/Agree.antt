-- ===== src/Cli/Send/Agree.antt =====
-- What a send asks for is what the node resolves.
use weave_fs.Base.{
  ◌≤◌, ℤ, to_count, Bool, true, false, ltb, some, List, [], ◌∷◌, ◌++◌, Text, codes, All, ◌==◌,
  nat_eq, list_eq, list_beq, max_i64, ◌≡◌, refl, arith, ap, subst, ◌∙◌, sym, inl, inr, Bool-cases,
}
use weave_fs.Server.Types.{FileServer}
use weave_fs.Server.Targets.{resolve_targets}
use weave_fs.Api.Http.{query_get, query_all}
use weave_fs.Api.Handlers.{Libp2p, resolved, parse_targets}
use weave_fs.Api.Handlers.Query.{Asks, not_asked, asked, parse_targets_lem}
use weave_fs.Cli.Client.{query_of}
use weave_fs.Cli.Send.{count_param, all_param, peer_params, target_params, send_query}

-- Parameters under other names are passed over.
query_all_skip :
    (name k v : Text) (params q : List (Text × Text))
    → (k == name) ≡ false
    → query_all name (query_of ((k, v) ∷ params) ++ q) ≡ query_all name (query_of params ++ q)
unfolding query_all query_of
query_all_skip name k v params q h = elim (Bool-cases (v == [])) [
  | inl e ↦ rw e
  | inr e ↦ rw (e, h)
]

query_get_skip :
    (name k v : Text) (params q : List (Text × Text))
    → (k == name) ≡ false
    → query_get name (query_of ((k, v) ∷ params) ++ q) ≡ query_get name (query_of params ++ q)
unfolding query_get query_of
query_get_skip name k v params q h = elim (Bool-cases (v == [])) [
  | inl e ↦ rw e
  | inr e ↦ rw (e, h)
]

module _ (key message version as_key : Text) where
  all_peers :
      (q : List (Text × Text))
      → query_all (codes "peer") (
          (codes "key", key)
          ∷ (query_of (
                (codes "message", message) ∷ (codes "version", version) ∷ (codes "as", as_key) ∷ [])
              ++ q))
        ≡ query_all (codes "peer") q
  unfolding query_all query_of list_beq
  all_peers q =
      query_all_skip (codes "peer") (codes "message") message
        ((codes "version", version) ∷ (codes "as", as_key) ∷ []) q refl
      ∙ query_all_skip (codes "peer") (codes "version") version ((codes "as", as_key) ∷ []) q refl
      ∙ query_all_skip (codes "peer") (codes "as") as_key [] q refl

  first_value :
      (name : Text) (q : List (Text × Text))
      → (codes "key" == name) ≡ false
      → (codes "message" == name) ≡ false
      → (codes "version" == name) ≡ false
      → (codes "as" == name) ≡ false
      → query_get name (
          (codes "key", key)
          ∷ (query_of (
                (codes "message", message) ∷ (codes "version", version) ∷ (codes "as", as_key) ∷ [])
              ++ q))
        ≡ query_get name q
  unfolding query_get query_of
  first_value name q h1 h2 h3 h4 = rw h1 (
      query_get_skip name (codes "message") message
        ((codes "version", version) ∷ (codes "as", as_key) ∷ []) q h2
      ∙ query_get_skip name (codes "version") version ((codes "as", as_key) ∷ []) q h3
      ∙ query_get_skip name (codes "as") as_key [] q h4)

no_peer_params :
    (count : ℤ) (all : Bool) → query_all (codes "peer") (count_param count ++ all_param all) ≡ []
unfolding query_all count_param all_param list_beq
no_peer_params count all = ground arith

all_peer_params :
    (peers : List Text) (q : List (Text × Text))
    → query_all (codes "peer") q ≡ []
    → query_all (codes "peer") (peer_params peers ++ q) ≡ peers
unfolding query_all peer_params list_beq
all_peer_params [] q h = h
all_peer_params (p ∷ ps) q h = ap (λ l. p ∷ l) (all_peer_params ps q h)

past_peer_params :
    (name : Text) (peers : List Text) (q : List (Text × Text))
    → (codes "peer" == name) ≡ false
    → query_get name (peer_params peers ++ q) ≡ query_get name q
unfolding query_get peer_params
past_peer_params name [] q h = refl
past_peer_params name (p ∷ ps) q h = rw h (past_peer_params name ps q h)

no_count : (all : Bool) → query_get (codes "n") (all_param all) ≡ []
unfolding query_get all_param list_beq
no_count true = refl
no_count false = refl

the_flag : (all : Bool) → (query_get (codes "all") (all_param all) == codes "true") ≡ all
unfolding query_get all_param list_beq
the_flag true = refl
the_flag false = refl

Asks-count :
    (count : ℤ) (all : Bool)
    → to_count count ≤ max_i64
    → Asks (query_get (codes "n") (count_param count ++ all_param all)) count
unfolding query_get count_param all_param list_beq
Asks-count count all fits = elim (Bool-cases (ltb 0 (to_count count))) [
  | inl b ↦ asked (rw b) (ground arith) fits
  | inr b ↦ not_asked (rw b (no_count all)) (ground arith)
]

flag_all :
    (count : ℤ) (all : Bool)
    → (query_get (codes "all") (count_param count ++ all_param all) == codes "true") ≡ all
unfolding query_get count_param all_param list_beq
flag_all count all = elim (Bool-cases (ltb 0 (to_count count))) [
  | inl b ↦ rw b (the_flag all)
  | inr b ↦ rw b (the_flag all)
]

-- What a send asks for is what the node resolves, for every choice of peers, count and flag and
-- whatever else the query says: the node takes its targets from the connected peers by the very
-- peers, count and flag of the command line. Each peer ID that was named is one that libp2p decodes
-- to itself, and the count fits into int64.
pub send_query-parse_targets :
    (srv : FileServer) (net : Libp2p) (key message version as_key : Text) (peers : List Text)
    (count : ℤ) (all : Bool)
    → All (λ p. net.decode_peer p ≡ some p) peers
    → to_count count ≤ max_i64
    → parse_targets srv net (send_query key message version as_key peers count all)
      ≡ resolved (resolve_targets srv.peers peers count all)
unfolding send_query target_params list_beq
send_query-parse_targets srv net key message version as_key peers count all known fits =
    let tail = count_param count ++ all_param all in
    parse_targets_lem srv net (send_query key message version as_key peers count all) peers count
      all
      (all_peers key message version as_key (target_params peers count all)
        ∙ all_peer_params peers tail (no_peer_params count all))
      known
      (subst (λ (t : Text). Asks t count)
        (sym (
          first_value key message version as_key (codes "n") (target_params peers count all) refl
            refl refl refl
          ∙ past_peer_params (codes "n") peers tail refl))
        (Asks-count count all fits))
      (ap (λ (t : Text). t == codes "true")
          (first_value key message version as_key (codes "all") (target_params peers count all) refl
              refl refl refl
            ∙ past_peer_params (codes "all") peers tail refl)
        ∙ flag_all count all)
