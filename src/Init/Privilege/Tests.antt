-- ===== src/Init/Privilege/Tests.antt =====
-- Runs of the account of the panel.
use vakt_os.Base.{
  digits_below, ◌≡◌, refl, true, false, Bool, [], ◌∷◌, none, some, Text, text, text_eq, nat_beq,
  if◌then◌else◌, lines, trim, split, arith,
}
use vakt_os.Base.Actions.{Ensures}
use vakt_os.Init.Privilege.{Identity, parse_passwd, find_account, Credentials, Kernel, become_user}
use vakt_os.Init.Privilege.Account.{IsDecided, parse_passwd-IsDecided}
use vakt_os.Init.Privilege.Dropped.{IsPosix, IsDropped, IsFailed, become_user-Ensures}

abbrev passwd : Text
passwd =
    text
      "root:x:0:0:root:/root:/bin/sh\nvakt:x:1000:1000::/home/vakt:/bin/sh\nvakt:x:0:0::/root:/bin/sh\n"

abbrev vakt : Identity
vakt = record { name = text "vakt"; uid = 1000; gid = 1000; home = text "/home/vakt" }

found : parse_passwd passwd (text "vakt") ≡ some vakt
unfolding parse_passwd find_account lines trim split digits_below
found = refl

parse_passwd-IsDecided_example : IsDecided (text "vakt") (lines passwd) vakt
parse_passwd-IsDecided_example = parse_passwd-IsDecided passwd (text "vakt") vakt found

test_too_large : parse_passwd (text "vakt:x:4294967296:1000::/:/bin/sh\n") (text "vakt") ≡ none
unfolding parse_passwd find_account lines trim split digits_below
test_too_large = refl

-- Only root may set its groups, and become somebody else.
abbrev linux : Kernel
linux = record {
  setgroups = λ groups c. if nat_beq c.uid 0 then some (record c { groups = groups }) else none;
  setgid = λ gid c. if nat_beq c.uid 0 then some (record c { gid = gid }) else none;
  setuid = λ uid c. if nat_beq c.uid 0 then some (record c { uid = uid }) else none;
}

given : (b : Bool) (x c : Credentials) → (if b then some x else none) ≡ some c → c ≡ x
given true x c h = ground arith
given false x c h = absurd (cc)

linux-IsPosix : IsPosix linux
linux-IsPosix = record {
  setgroups = λ groups c c' h. given (nat_beq c.uid 0) (record c { groups = groups }) c' h;
  setgid = λ gid c c' h. given (nat_beq c.uid 0) (record c { gid = gid }) c' h;
  setuid = λ uid c c' h. given (nat_beq c.uid 0) (record c { uid = uid }) c' h;
}

abbrev root : Credentials
root = record { uid = 0; gid = 0; groups = 0 ∷ [] }

become_user-Ensures_example :
    Ensures
      (λ _ c. IsDropped linux linux-IsPosix 1000 1000 root c)
      (IsFailed linux linux-IsPosix 1000 1000 root)
      (become_user linux 1000 1000 root)
become_user-Ensures_example = become_user-Ensures linux linux-IsPosix 1000 1000 root
