-- ===== src/Cli/Print.antt =====
-- cmd/weavefs/commands.go: what the commands print. A line is its parts; the words and the columns
-- around them are left to `fmt`.
use weave_fs.Base.{
  ℕ, ℤ, pos, nat_beq, List, [], ◌∷◌, ◌++◌, Bytes, Text, codes, length, ◌==◌, nat_eq, list_eq,
  if◌then◌else◌,
}
use weave_fs.Api.Json.{Refusal, FailureJson, PlacementJson, VersionJson}
use weave_fs.Cli.Format.{Shown, human_bytes, plural, format_peer}
use weave_fs.Cli.Aliases.{Aliases}
use weave_fs.Cli.Run.{WriteReport, ShareReport}

-- A count is printed with its noun.
abbrev pub Count : Type 0
Count = ℤ × Text

pub data Line : Type 0 where
  stored_locally : Text → ℤ → Shown → Line
  -- Warnings that the file exists on this node only.
  no_peers_connected : Line
  replicated_to_none : Count → Line
  replicated : ℕ → Count → Line
  took_no_copy : Text → Refusal → Line
  nobody_took : Text → Count → Line
  shared_with : Text → ℕ → Count → Line
  stored_as : Text → ℤ → Line
  did_not_take : Text → Refusal → Line
  bytes_out : Bytes → Line
  wrote : Shown → Text → Line
  no_versions_of : Text → Line
  versions_head : Text → Count → Line
  version_line : ℤ → Shown → ℕ → Text → Line
  message_line : Text → Line
  deleted_local : Text → Line
  peers_keep_copies : Line
  alias_set : Text → Text → Line
  no_aliases : Line
  aliases_head : Line
  alias_line : Text → Text → Line
  disconnected_from : Text → Line

unfoldable pub peer_count : ℕ → Count
unfolding plural
peer_count n = plural (pos n) (codes "peer")

unfoldable pub refusals : (Text → Refusal → Line) → Aliases → List FailureJson → List Line
unfolding format_peer
refusals line aliases [] = []
refusals line aliases (f ∷ fs) =
    line (format_peer f.peer aliases) f.error ∷ refusals line aliases fs

-- What is said of the copies at peers.
unfoldable pub copies_line : ℕ → ℕ → Line
unfolding peer_count
copies_line tried stored =
    if nat_beq tried 0
    then no_peers_connected
    else (if nat_beq stored 0
        then replicated_to_none (peer_count tried)
        else replicated stored (peer_count tried))

unfoldable pub print_write_result : WriteReport → Aliases → List Line
unfolding copies_line refusals human_bytes
print_write_result r aliases =
    stored_locally r.key r.seq (human_bytes r.size_bytes)
    ∷ (copies_line r.peers_tried r.peers_stored ∷ refusals took_no_copy aliases r.failures)

placed : Aliases → List PlacementJson → List Line
unfolding format_peer
placed aliases [] = []
placed aliases (p ∷ ps) = stored_as (format_peer p.peer aliases) p.seq ∷ placed aliases ps

unfoldable pub print_share_result : ShareReport → Aliases → List Line
unfolding peer_count placed refusals
print_share_result r aliases =
    (if nat_beq r.peers_stored 0
      then nobody_took r.key (peer_count r.peers_tried)
      else shared_with r.key r.peers_stored (peer_count r.peers_tried))
    ∷ (placed aliases r.placements ++ refusals did_not_take aliases r.failures)

-- A version, and its message if it has one.
version_lines : VersionJson → List Line
unfolding human_bytes
version_lines v =
    version_line v.seq (human_bytes v.size_bytes) v.created_at v.version_id
    ∷ (if v.message == [] then [] else message_line v.message ∷ [])

all_version_lines : List VersionJson → List Line
unfolding version_lines
all_version_lines [] = []
all_version_lines (v ∷ vs) = version_lines v ++ all_version_lines vs

-- The end of `runList`, of the key and its versions.
unfoldable pub print_versions : Text → List VersionJson → List Line
unfolding all_version_lines plural
print_versions key [] = no_versions_of key ∷ []
print_versions key (v ∷ vs) =
    versions_head key (plural (pos (length (v ∷ vs))) (codes "version"))
    ∷ all_version_lines (v ∷ vs)

alias_lines : Aliases → List Line
alias_lines [] = []
alias_lines ((id, name) ∷ m) = alias_line name id ∷ alias_lines m

-- The end of `runAliases`; Go leaves the order of the lines open.
unfoldable pub print_aliases : Aliases → List Line
unfolding alias_lines
print_aliases [] = no_aliases ∷ []
print_aliases (a ∷ m) = aliases_head ∷ alias_lines (a ∷ m)
