-- ===== src/Init/LogFile.antt =====
-- vakt-init/src/logfile.rs: the bounded log of a service. The two files are their bytes; `Answers` says
-- how the calls of one `write_chunk` go.
pub mod Bounds
mod Tests
use vakt_os.Base.{
  ℕ, zero, suc, ◌+◌, ◌/◌, ◌*◌, max, Bool, true, false, not, ◌&&◌, List, [], ◌∷◌, ◌++◌, Option, none,
  some, Text, Bytes, length, take, encode, show, text, ltb, if◌then◌else◌,
}

abbrev pub log_budget : ℕ
log_budget = 5 * 1024 * 1024

abbrev pub chunk : ℕ
chunk = 8 * 1024

pub record BoundedLog : Type 0 where
  pub path : Text
  pub active : Bytes
  pub rotated : Option Bytes
  pub written : ℕ
  pub limit : ℕ
  pub seen : ℕ

-- Whether the calls of one `write_chunk` succeed, and how much a failed write leaves.
pub record Answers : Type 0 where
  pub removes : Bool
  pub renames : Bool
  pub creates : Bool
  pub writes_header : Bool
  pub header_left : ℕ
  pub has_metadata : Bool
  pub writes_data : Bool
  pub data_left : ℕ

-- A log that an earlier run rotated away is still there.
unfoldable pub create_log : Text → ℕ → Option Bytes → BoundedLog
create_log path budget earlier = record {
  path = path;
  active = [];
  rotated = earlier;
  written = 0;
  limit = max (budget / 2) 1;
  seen = 0;
}

unfoldable pub header : Text → ℕ → Bytes
header path limit = encode (
    text "--- rotated at "
    ++ (show limit ++ (text " bytes; previous output is in " ++ (path ++ text ".1 ---\n"))))

abbrev pub removed : Bool → Option Bytes → Option Bytes
removed true o = none
removed false o = o

-- `rotate`; the flag says whether it went through.
unfoldable pub rotate : Answers → BoundedLog → BoundedLog × Bool
unfolding header
rotate a l =
    if not a.renames
    then (record l { rotated = removed a.removes l.rotated }, false)
    else if not a.creates
    then (record l { active = []; rotated = some l.active }, false)
    else if not a.writes_header
    then (
      record l {
        active = take a.header_left (header l.path l.limit);
        rotated = some l.active;
        written = 0;
      },
      false,
    )
    else (
      record l {
        active = header l.path l.limit;
        rotated = some l.active;
        written = if a.has_metadata then length (header l.path l.limit) else 0;
      },
      true,
    )

-- `write_all` and what follows it.
unfoldable pub append : Answers → Bytes → BoundedLog → BoundedLog × Bool
append a buf l =
    if a.writes_data
    then (
      record l {
        active = l.active ++ buf;
        written = l.written + length buf;
        seen = l.seen + length buf;
      },
      true,
    )
    else (record l { active = l.active ++ take a.data_left buf }, false)

pub append_after : Answers → Bytes → BoundedLog × Bool → BoundedLog × Bool
unfolding append
append_after a buf (l, true) = append a buf l
append_after a buf (l, false) = (l, false)

unfoldable pub write_chunk : Answers → Bytes → BoundedLog → BoundedLog × Bool
unfolding append_after rotate append
write_chunk a [] l = (l, true)
write_chunk a (b ∷ buf) l =
    if ltb 0 l.written && ltb l.limit (l.written + length (b ∷ buf))
    then append_after a (b ∷ buf) (rotate a l)
    else append a (b ∷ buf) l

-- What a read of the pipe gives.
pub data Read : Type 0 where
  bytes : Bytes → Read
  interrupted failed : Read

-- The loop of `drain`: it stops at the end of the pipe, which is a read of no bytes, at an error of
-- the pipe, and at an error of the log.
unfoldable pub drain : List (Read × Answers) → BoundedLog → BoundedLog
unfolding write_chunk
drain [] l = l
drain ((bytes [], a) ∷ reads) l = l
drain ((bytes (b ∷ buf), a) ∷ reads) l =
    let (l', works) = write_chunk a (b ∷ buf) l in
    let rest = drain reads l' in if works then rest else l'
drain ((interrupted, a) ∷ reads) l = drain reads l
drain ((failed, a) ∷ reads) l = l
