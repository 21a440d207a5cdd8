-- ===== src/Init/Privilege.antt =====
-- vakt-init/src/privilege.rs: the account of the panel, and becoming it for good. The system calls are the
-- interface `Kernel`, over the credentials of the process.
pub mod Account
pub mod Dropped
mod Tests
use vakt_os.Base.{
  digits_below, ℕ, ◌+◌, ◌-◌, ◌*◌, ◌≡◌, Bool, true, false, not, ◌&&◌, List, [], ◌∷◌, Option, none,
  some, Text, text, text_eq, ◌==◌, nat_beq, leb, ltb, if◌then◌else◌, trim, lines, split, Result, ok,
  err,
}
use vakt_os.Base.Actions
use vakt_os.Base.Actions.{require, bind_result, ◌>>=◌, ◌>>◌}

pub record Identity : Type 0 where
  pub name : Text
  pub uid : ℕ
  pub gid : ℕ
  pub home : Text

abbrev pub u32_limit : ℕ
u32_limit = 4294967296

-- `str::parse::<u32>`: an optional plus sign and digits, whose value fits.
abbrev pub some_digits : Text → Option ℕ
some_digits [] = none
some_digits (c ∷ cs) = digits_below u32_limit (c ∷ cs) 0

abbrev pub parse_u32 : Text → Option ℕ
parse_u32 [] = none
parse_u32 (c ∷ cs) = if nat_beq c b'+' then some_digits cs else some_digits (c ∷ cs)

abbrev pub home_in : List Text → Text
home_in (gecos ∷ home ∷ rest) = home
home_in _ = text "/"

abbrev pub numbered : Text → Option ℕ → Option ℕ → List Text → Option Identity
numbered name (some uid) (some gid) rest =
    some (record { name = name; uid = uid; gid = gid; home = home_in rest })
numbered name _ _ rest = none

-- The fields behind the name.
abbrev pub identity_of : Text → List Text → Option Identity
identity_of name (password ∷ uid ∷ gid ∷ rest) = numbered name (parse_u32 uid) (parse_u32 gid) rest
identity_of name _ = none

abbrev pub entry_of : List Text → Text
entry_of [] = []
entry_of (entry ∷ fields) = entry

abbrev pub fields_behind : List Text → List Text
fields_behind [] = []
fields_behind (entry ∷ fields) = fields

abbrev pub is_skipped : Text → Bool
is_skipped [] = true
is_skipped (c ∷ cs) = nat_beq c b'#'

abbrev pub fields_of : Text → List Text
fields_of line = split (λ c. nat_beq c b':') line

-- Whether a trimmed line is the account's.
abbrev pub is_account : Text → Text → Bool
is_account name line = not (is_skipped line) && entry_of (fields_of line) == name

unfoldable pub find_account : Text → List Text → Option Identity
find_account name [] = none
find_account name (line ∷ rest) =
    let later = find_account name rest in
    if is_account name (trim line)
    then identity_of name (fields_behind (fields_of (trim line)))
    else later

unfoldable pub parse_passwd : Text → Text → Option Identity
parse_passwd passwd name = find_account name (lines passwd)

pub record Credentials : Type 0 where
  pub uid : ℕ
  pub gid : ℕ
  pub groups : List ℕ

-- Three system calls, each of which may be refused.
pub record Kernel : Type 0 where
  pub setgroups : List ℕ → Credentials → Option Credentials
  pub setgid : ℕ → Credentials → Option Credentials
  pub setuid : ℕ → Credentials → Option Credentials

pub data DropError : Type 0 where
  setgroups_failed setgid_failed setuid_failed not_dropped : DropError

abbrev pub Action : Type 0 → Type 0
Action A = Actions.Action Credentials DropError A

abbrev pub applied :
    Option Credentials → DropError → Credentials → Credentials × Result DropError (Unit {0})
applied none e c = (c, err e)
applied (some c') e c = (c', ok tt)

-- A call that is refused changes nothing.
abbrev pub call : (Credentials → Option Credentials) → DropError → Action (Unit {0})
call f e c = applied (f c) e c

-- The last check: becoming root again must fail.
abbrev pub refused : Option Credentials → Credentials → Credentials × Result DropError (Unit {0})
refused none c = (c, ok tt)
refused (some c') c = (c', err not_dropped)

unfoldable pub become_user : Kernel → (uid gid : ℕ) → Action (Unit {0})
become_user k uid gid = do
  call (k.setgroups (gid ∷ [])) setgroups_failed
  call (k.setgid gid) setgid_failed
  call (k.setuid uid) setuid_failed
  λ c. refused (k.setuid 0 c) c
