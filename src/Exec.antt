-- ===== src/Exec.antt =====
-- One machine as the program sees it, and the calls that read and change it. A call returns a
-- value or an error, and what it changed before an error stays changed.
pub mod Laws
use weave_fs.Base.{ℕ, Option, List, [], Bytes, Text, Bool, if◌then◌else◌}

-- Where a file lies: the names from the top folder down to the file.
abbrev pub FilePath : Type 0
FilePath = List Text

-- What a Go `error` of the program says, without the names and numbers in its text.
pub data Error : Type 0 where
  not_exist io_fault read_fault corrupt_json marshal_failed no_entropy panicked : Error
  no_versions version_not_found version_id_required : Error
  short_read not_encrypted bad_format bad_key : Error
  message_too_long header_too_long : Error
  no_stream send_failed peer_refused no_metadata negative_size short_transfer : Error
  not_stored_here no_targets no_peers not_connected no_node no_store : Error
  negative_factor no_data_dir no_file_server address_empty listen_failed corrupt_identity : Error

pub data Result (A : Type 0) : Type 0 where
  ok : A → Result A
  err : Error → Result A

-- `files` holds the content of each file. `faults` says how the coming calls of the operating
-- system end: `none` is a call that succeeds, `some n` one that fails after n units of its work.
-- When the list is over all calls succeed. `entropy` is what the random source will give, and
-- `now` is the time of the clock.
pub record World : Type 0 where
  pub files : FilePath → Option Bytes
  pub faults : List (Option ℕ)
  pub entropy : Bytes
  pub now : ℕ

-- The machine with no fault to come.
abbrev pub calm : World → World
calm w = record w { faults = [] }

abbrev pub Exec : Type 0 → Type 0
Exec A = World → Result A × World

module _ {A : Type 0} where
  abbrev pub pure : A → Exec A
  pure a w = (ok a, w)

  abbrev pub raise : Error → Exec A
  raise e w = (err e, w)

  abbrev pub lift : Result A → Exec A
  lift r w = (r, w)

  -- `_ = f()`: the error is dropped.
  abbrev pub ignore : Exec A → Exec (Unit {0})
  ignore m w = (ok tt, (m w).1)

module _ {A B : Type 0} where
  abbrev pub continue : Result A → (A → Exec B) → Exec B
  continue (ok a) f w = f a w
  continue (err e) f w = (err e, w)

  infixl 5 ◌>>=◌ ◌>>◌
  abbrev pub ◌>>=◌ : Exec A → (A → Exec B) → Exec B
  ◌>>=◌ m f w = let (r, w') = m w in continue r f w'

  abbrev pub ◌>>◌ : Exec A → Exec B → Exec B
  m >> k = m >>= λ _. k

-- Raises the error if the test fails.
abbrev pub guard : Bool → Error → Exec (Unit {0})
guard b e w = (if b then ok tt else err e, w)
