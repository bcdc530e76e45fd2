-- ===== src/Cli/Send.antt =====
-- cmd/weavefs/commands.go: whom a send names, and how the node reads it.
pub mod Agree
pub mod Fields
use weave_fs.Base.{
  ℕ, ◌+◌, ◌≤◌, ◌<◌, ℤ, pos, to_count, Bool, true, false, not, Option, none, some, List, [], ◌∷◌,
  ◌++◌, Text, codes, map, length, ltb, nat_beq, ◌==◌, nat_eq, list_eq, if◌then◌else◌, ◌≡◌, ◌≢◌, ◌⊎◌,
  ◌↔◌, refl, arith, ap, inl, inr,
}
use weave_fs.Exec.{Error, no_targets, Result, ok, err}
use weave_fs.Strings.Itoa.{itoa}
use weave_fs.Server.Targets.{resolve_targets}
use weave_fs.Cli.Client.{query_of, Failure, usage, no_target, many_targets, Outcome, done, failed}

modes_of_peers : List Text → ℕ
modes_of_peers [] = 0
modes_of_peers (p ∷ ps) = 1

-- How many ways of naming targets are used.
modes : List Text → ℤ → Bool → ℕ
unfolding modes_of_peers
modes peers count all =
    modes_of_peers peers + (if ltb 0 (to_count count) then 1 else 0) + (if all then 1 else 0)

unfoldable pub check_one_target : List Text → ℤ → Bool → Option Failure
unfolding modes
check_one_target peers count all =
    let n = modes peers count all in
    if nat_beq n 0 then some no_target else if ltb 1 n then some many_targets else none

count_param : ℤ → List (Text × Text)
count_param count = if ltb 0 (to_count count) then (codes "n", itoa (to_count count)) ∷ [] else []

all_param : Bool → List (Text × Text)
all_param all = if all then (codes "all", codes "true") ∷ [] else []

peer_params : List Text → List (Text × Text)
peer_params [] = []
peer_params (p ∷ ps) = (codes "peer", p) ∷ peer_params ps

target_params : List Text → ℤ → Bool → List (Text × Text)
unfolding count_param all_param peer_params
target_params peers count all = peer_params peers ++ (count_param count ++ all_param all)

-- The query of a send.
unfoldable pub send_query : Text → Text → Text → Text → List Text → ℤ → Bool → List (Text × Text)
unfolding target_params query_of
send_query key message version as_key peers count all =
    (codes "key", key)
    ∷ (query_of
          ((codes "message", message) ∷ (codes "version", version) ∷ (codes "as", as_key) ∷ [])
        ++ target_params peers count all)

-- Exactly one way: some peers, a positive count, or all.
abbrev pub IsOneTarget : List Text → ℤ → Bool → Type 0
IsOneTarget peers count all =
    ((peers ≢ []) × (to_count count ≡ 0) × (all ≡ false))
    ⊎ ((peers ≡ []) × (0 < to_count count) × (all ≡ false))
    ⊎ ((peers ≡ []) × (to_count count ≡ 0) × (all ≡ true))

-- The check lets through exactly the sends that name their targets in one way.
pub check_one_target_iff :
    (peers : List Text) (count : ℤ) (all : Bool)
    → (check_one_target peers count all ≡ none) ↔ IsOneTarget peers count all
unfolding check_one_target modes modes_of_peers
check_one_target_iff [] count all = ground arith
check_one_target_iff (p ∷ ps) count all = ground arith
