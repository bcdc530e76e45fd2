-- ===== src/Server/Targets.antt =====
-- internal/server/server.go: which peers a write or a share goes to.
pub mod Laws
use weave_fs.Base.{
  ℕ, ◌≤◌, ℤ, to_count, Bool, true, false, ◌||◌, ◌&&◌, not, Option, none, some, List, [], ◌∷◌, Text,
  take, length, leb, ltb, ◌==◌, nat_eq, list_eq, if◌then◌else◌,
}
use weave_fs.Exec.{Error, no_targets, no_peers, not_connected, Result, ok, err}

-- Is the peer in the list?
unfoldable pub is_listed : Text → List Text → Bool
is_listed p [] = false
is_listed p (q ∷ qs) = q == p || is_listed p qs

-- The loop over the wanted peers: is each connected?
unfoldable pub are_listed : List Text → List Text → Bool
unfolding is_listed
are_listed [] connected = true
are_listed (p ∷ ps) connected = is_listed p connected && are_listed ps connected

unfoldable pub require_connected : List Text → List Text → Result (List Text)
unfolding are_listed
require_connected want connected = if are_listed want connected then ok want else err not_connected

-- The cases of the switch, in its order.
unfoldable pub resolve_targets : List Text → List Text → ℤ → Bool → Result (List Text)
unfolding require_connected
resolve_targets connected (p ∷ ps) count all = require_connected (p ∷ ps) connected
resolve_targets [] [] count true = err no_peers
resolve_targets (q ∷ qs) [] count true = ok (q ∷ qs)
resolve_targets connected [] count false =
    if ltb 0 (to_count count)
    then (if leb (length connected) 0
        then err no_peers
        else ok (
            take
              (if ltb (length connected) (to_count count) then length connected else to_count count)
              connected))
    else err no_targets

-- `selectPeers`, of the connected peers.
unfoldable pub select_peers : ℤ → List Text → List Text
select_peers factor peers =
    if ltb 0 (to_count factor) && ltb (to_count factor) (length peers)
    then take (to_count factor) peers
    else peers
