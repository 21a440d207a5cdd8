-- ===== src/Init/LogFile/Tests.antt =====
-- Runs of a bounded log.
use vakt_os.Base.{
  ◌≡◌, ◌≤◌, ◌+◌, ◌/◌, max, refl, true, false, List, [], ◌∷◌, none, some, Text, text, length, encode,
  show, All, arith,
}
use vakt_os.Init.LogFile.{
  log_budget, chunk, Answers, Read, bytes, interrupted, create_log, drain, header,
}
use vakt_os.Init.LogFile.Bounds.{IsWithin, IsRead, drain-IsWithin}

abbrev log_path : Text
log_path = text "/run/vakt-net.log"

abbrev works : Answers
works = record {
  removes = true;
  renames = true;
  creates = true;
  writes_header = true;
  header_left = 0;
  has_metadata = true;
  writes_data = true;
  data_left = 0;
}

-- The disk is full at the second write.
abbrev reads : List (Read × Answers)
reads =
    (bytes (text "hello"), works)
    ∷ (interrupted, works)
    ∷ (bytes (text "world"), record works { writes_data = false; data_left = 2 })
    ∷ []

test_drain : (drain reads (create_log log_path log_budget none)).active ≡ text "hellowo"
unfolding drain create_log
test_drain = refl

-- A log of six bytes, which is rotated at the second write.
test_rotation :
    (drain
      ((bytes (text "hello"), works) ∷ (bytes (text "world"), works) ∷ [])
      (create_log log_path 12 none)).rotated
    ≡ some (text "hello")
unfolding drain create_log
test_rotation = refl

reads-IsRead : All IsRead reads
reads-IsRead = ((omega arith, refl), (tt, ((omega arith, refl), tt)))

header_fits : length (header log_path (max (log_budget / 2) 1)) + chunk ≤ max (log_budget / 2) 1
unfolding header encode show
header_fits = omega arith

drain-IsWithin_example :
    IsWithin log_path
      (max (log_budget / 2) 1)
      none
      (drain reads (create_log log_path log_budget none))
drain-IsWithin_example = drain-IsWithin log_path log_budget none reads header_fits reads-IsRead
