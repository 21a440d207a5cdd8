-- ===== src/Init/Notify/Clean.antt =====
-- What a parsed notification holds, for vakt-init/src/notify.rs.
use vakt_os.Base.{
  Lacks, trim-lacks, lines_from-Lacks, ◌≡◌, ◌≢◌, refl, inl, inr, List, [], ◌∷◌, Option, none, some,
  Text, text_eq, nat_eq, ◌==◌, nat_beq, text, trim, lines, lines_from, split_once,
  to_ascii_lowercase, All, Bool-cases, Option-cases, arith,
}
use vakt_os.Init.Notify.{Message, default, unless_empty, set_key, add_pair, add_lines, parse}

split_once-Lacks :
    (t key value : Text) → split_once b'=' t ≡ some (key, value) → Lacks t → Lacks value
unfolding split_once
split_once-Lacks [] key value h l = cc
split_once-Lacks (c ∷ cs) key value h l = elim (Bool-cases (nat_beq c b'=')) [
  | inl here ↦ ground arith
  | inr later ↦ elim (Option-cases (split_once b'=' cs)) [
    | inl none_found ↦ absurd (ground arith)
    | inr ((k, v), found) ↦ ground (arith, found, split_once-Lacks cs k v found (ground arith))
  ]
]

-- A field is not empty, and is a single line.
abbrev IsLine : Option Text → Type 0
IsLine none = Unit
IsLine (some t) = (t ≢ []) × Lacks t

-- What the panel and the supervisor rely on in a message.
pub record IsClean (m : Message) : Type 0 where
  pub no_pid : m.pid ≡ none
  pub name : IsLine m.name
  pub status : IsLine m.status
  pub shutdown : IsLine m.shutdown

lower-Lacks : (t : Text) → Lacks t → Lacks (to_ascii_lowercase t)
lower-Lacks [] h = refl
lower-Lacks (c ∷ cs) h = ground (arith, lower-Lacks cs (ground arith))

lower_non_empty : (t : Text) → t ≢ [] → to_ascii_lowercase t ≢ []
lower_non_empty [] h e = h refl
lower_non_empty (c ∷ cs) h e = cc

unless_empty-IsClean :
    (value : Text) (m m' : Message)
    → IsClean m
    → (value ≢ [] → IsClean m')
    → IsClean (unless_empty value m m')
unless_empty-IsClean [] m m' c h = c
unless_empty-IsClean (x ∷ xs) m m' c h = h (λ e. cc)

set_key-IsClean :
    (key value : Text) (m : Message) → Lacks value → IsClean m → IsClean (set_key key value m)
unfolding set_key
set_key-IsClean key value m l c = elim (Bool-cases (key == text "READY")) [
  | inl a ↦
      rw (a, set_key)
        (record { no_pid = c.no_pid; name = c.name; status = c.status; shutdown = c.shutdown })
  | inr a ↦ elim (Bool-cases (key == text "NAME")) [
    | inl b ↦
        rw (a, b, set_key)
          (unless_empty-IsClean value m _ c (λ n. record {
            no_pid = c.no_pid;
            name = (n, l);
            status = c.status;
            shutdown = c.shutdown;
          }))
    | inr b ↦ elim (Bool-cases (key == text "STATUS")) [
      | inl d ↦
          rw (a, b, d, set_key)
            (unless_empty-IsClean value m _ c (λ n. record {
              no_pid = c.no_pid;
              name = c.name;
              status = (n, l);
              shutdown = c.shutdown;
            }))
      | inr d ↦ elim (Bool-cases (key == text "SHUTDOWN")) [
        | inl e ↦
            rw (a, b, d, e, set_key)
              (unless_empty-IsClean value m _ c (λ n. record {
                no_pid = c.no_pid;
                name = c.name;
                status = c.status;
                shutdown = (lower_non_empty value n, lower-Lacks value l);
              }))
        | inr e ↦ rw (a, b, d, e, set_key) c
      ]
    ]
  ]
]

add_pair-IsClean :
    (o : Option (Text × Text)) (m : Message)
    → ((key value : Text) → o ≡ some (key, value) → Lacks value)
    → IsClean m
    → IsClean (add_pair o m)
unfolding add_pair
add_pair-IsClean none m h c = c
add_pair-IsClean (some (key, value)) m h c =
    set_key-IsClean (trim key) (trim value) m (trim-lacks b'\n' value (h key value refl)) c

add_lines-IsClean :
    (ls : List Text) (m : Message) → All Lacks ls → IsClean m → IsClean (add_lines ls m)
unfolding add_lines
add_lines-IsClean [] m h c = c
add_lines-IsClean (line ∷ rest) m h c = add_lines-IsClean rest _ h.1 (
    add_pair-IsClean (split_once b'=' (trim line)) m
      (λ key value e. split_once-Lacks (trim line) key value e (trim-lacks b'\n' line h.0)) c)

-- Whatever a datagram says, the name, the status and the verb that `parse` takes from it are each
-- absent or a text of one line that is not empty, and no pid is taken from the body.
pub parse-IsClean : (body : Text) → IsClean (parse body)
unfolding parse lines
parse-IsClean body =
    add_lines-IsClean (lines_from [] body) default (lines_from-Lacks body [] refl)
      (record { no_pid = refl; name = tt; status = tt; shutdown = tt })
