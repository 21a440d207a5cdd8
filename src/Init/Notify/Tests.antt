-- ===== src/Init/Notify/Tests.antt =====
-- Runs of the parser of notifications.
use vakt_os.Base.{◌≡◌, refl, true, none, some, text, lines, trim, split_once}
use vakt_os.Init.Notify.{parse}
use vakt_os.Init.Notify.Clean.{IsClean, parse-IsClean}

test_parse : parse (text "READY=1\nSTATUS= lease acquired \nNAME=\nSHUTDOWN=Reboot\n") ≡ record {
  pid = none;
  ready = true;
  name = none;
  status = some (text "lease acquired");
  shutdown = some (text "reboot");
}
unfolding parse lines trim split_once
test_parse = refl

parse-IsClean_example : IsClean (parse (text "STATUS=a\nNAME=b"))
parse-IsClean_example = parse-IsClean (text "STATUS=a\nNAME=b")
