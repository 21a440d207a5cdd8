-- ===== src/Init/Notify.antt =====
-- vakt-init/src/notify.rs, `parse`: the body of a notification.
pub mod Clean
mod Tests
use vakt_os.Base.{
  ℕ, Bool, true, false, List, [], ◌∷◌, Option, none, some, Text, Eq, text_eq, ◌==◌, if◌then◌else◌,
  text, trim, lines, split_once, to_ascii_lowercase,
}

pub record Message : Type 0 where
  pub pid : Option ℕ
  pub ready : Bool
  pub name : Option Text
  pub status : Option Text
  pub shutdown : Option Text

abbrev pub default : Message
default = record { pid = none; ready = false; name = none; status = none; shutdown = none }

-- `if !value.is_empty()`
abbrev pub unless_empty : Text → Message → Message → Message
unless_empty [] m m' = m
unless_empty (c ∷ cs) m m' = m'

pub set_key : Text → Text → Message → Message
set_key key value m =
    if key == text "READY"
    then record m { ready = value == text "1" }
    else if key == text "NAME"
    then unless_empty value m (record m { name = some value })
    else if key == text "STATUS"
    then unless_empty value m (record m { status = some value })
    else if key == text "SHUTDOWN"
    then unless_empty value m (record m { shutdown = some (to_ascii_lowercase value) })
    else m

pub add_pair : Option (Text × Text) → Message → Message
unfolding set_key trim
add_pair none m = m
add_pair (some (key, value)) m = set_key (trim key) (trim value) m

pub add_lines : List Text → Message → Message
unfolding add_pair split_once
add_lines [] m = m
add_lines (line ∷ rest) m = add_lines rest (add_pair (split_once b'=' (trim line)) m)

unfoldable pub parse : Text → Message
unfolding add_lines lines
parse body = add_lines (lines body) default
