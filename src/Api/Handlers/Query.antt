-- ===== src/Api/Handlers/Query.antt =====
-- Which targets a query stands for.
use weave_fs.Base.{
  ◌≤◌, ◌<◌, ℤ, pos, negsuc, to_count, Bool, true, false, some, List, [], ◌∷◌, Text, codes, All,
  ◌==◌, nat_eq, list_eq, list_beq, eq_iff, max_i64, ◌≡◌, refl, arith, ap, ◌∙◌,
}
use weave_fs.Strings.Itoa.{itoa, atoi-itoa, itoa-ne-nil}
use weave_fs.Server.Types.{FileServer}
use weave_fs.Server.Targets.{resolve_targets}
use weave_fs.Api.Http.{query_get, query_all}
use weave_fs.Api.Handlers.{
  Libp2p, parsed, decoded_peer, decode_peers, counted, parse_count, resolved, chosen, parse_targets,
}

decode_peers_known :
    (net : Libp2p) (ps : List Text)
    → All (λ p. net.decode_peer p ≡ some p) ps
    → decode_peers net ps ≡ parsed ps
unfolding decode_peers decoded_peer
decode_peers_known net [] h = refl
decode_peers_known net (p ∷ ps) h = rw (h.0, decode_peers_known net ps h.1)

-- How a query asks for a count: not at all, or by its digits.
pub data Asks (text : Text) (count : ℤ) : Type 0 where
  not_asked : text ≡ [] → to_count count ≡ 0 → Asks text count
  asked :
      text ≡ itoa (to_count count) → 0 < to_count count → to_count count ≤ max_i64 → Asks text count

parse_count_asked :
    (text : Text) (count : ℤ) → Asks text count → parse_count text ≡ parsed (pos (to_count count))
unfolding parse_count counted list_beq
parse_count_asked text count (not_asked e zero) = rw (e, zero)
parse_count_asked text count (asked e positive fits) =
    ap parse_count e
    ∙ ground (
      arith,
      eq_iff (itoa (to_count count)) [],
      itoa-ne-nil (to_count count),
      atoi-itoa (to_count count) fits,
    )

resolve_targets_count :
    (connected explicit : List Text) (count : ℤ) (all : Bool)
    → resolve_targets connected explicit (pos (to_count count)) all
      ≡ resolve_targets connected explicit count all
unfolding resolve_targets
resolve_targets_count connected explicit (pos n) all = refl
resolve_targets_count connected (p ∷ ps) (negsuc n) all = refl
resolve_targets_count [] [] (negsuc n) true = refl
resolve_targets_count (q ∷ qs) [] (negsuc n) true = refl
resolve_targets_count [] [] (negsuc n) false = refl
resolve_targets_count (q ∷ qs) [] (negsuc n) false = refl

pub parse_targets_lem :
    (srv : FileServer) (net : Libp2p) (q : List (Text × Text)) (peers : List Text) (count : ℤ)
    (all : Bool)
    → query_all (codes "peer") q ≡ peers
    → All (λ p. net.decode_peer p ≡ some p) peers
    → Asks (query_get (codes "n") q) count
    → (query_get (codes "all") q == codes "true") ≡ all
    → parse_targets srv net q ≡ resolved (resolve_targets srv.peers peers count all)
unfolding parse_targets chosen
parse_targets_lem srv net q peers count all named known counts flag = rw (
  named,
  decode_peers_known net peers known,
  parse_count_asked (query_get (codes "n") q) count counts,
  flag,
  resolve_targets_count srv.peers peers count all,
)
