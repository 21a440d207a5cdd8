-- ===== src/Update/Action.antt =====
-- What vakt-update/src/main.rs works on: the disk, its errors, and steps that change the one and may end in
-- the other. What a step has changed stays changed when it fails.
use vakt_os.Base.{Bool, true, false, Option, Text, Bytes, Map}
use vakt_os.Base.Actions
pub use vakt_os.Base.Actions.{lift, require, bind_result, ◌>>=◌, ◌>>◌, Ensures, >>=-Ensures}
use vakt_os.Grub
use vakt_os.Pkg.Paths.{RelPath, PathError}
use vakt_os.Pkg.Fetch.{FetchError}
use vakt_os.Init.Rollback.{Persist}

pub data Node : Type 0 where
  dir : Node
  file : Bytes → Node

-- A directory, as what stands below it.
abbrev pub Tree : Type 0
Tree = Map RelPath Node

-- The data disk: slot B, the directory in which it is put together, and the two small files.
pub record Machine : Type 0 where
  pub slot_b_dir : Option Tree
  pub staging : Tree
  pub persist : Persist

pub data Error : Type 0 where
  no_key empty_key no_manifest no_staging no_download unreadable_bundle : Error
  bad_signature : FetchError → Error
  dirty_staging unreadable_archive corrupt_entry unreadable_path : Error
  refused_entry : PathError → Error
  unpack_failed unsafe_entry : Error
  missing : Text → Error
  no_version not_activated : Error
  bad_bootenv : Grub.Error → Error
  no_state_dir no_state no_reboot : Error

-- Whether the error comes before slot B is touched.
abbrev pub is_early : Error → Bool
is_early not_activated = false
is_early (bad_bootenv e) = false
is_early no_state_dir = false
is_early no_state = false
is_early no_reboot = false
is_early _ = true

abbrev pub Action : Type 0 → Type 0
Action A = Actions.Action Machine Error A
