-- ===== src/Init/LogFile/Bounds.antt =====
-- How long the two files of a log become, for vakt-init/src/logfile.rs.
use vakt_os.Base.{
  ℕ, zero, suc, ◌+◌, ◌/◌, ◌≤◌, ◌≡◌, ◌⊎◌, refl, sym, max, inl, inr, Bool, true, false, ◌&&◌, List,
  [], ◌∷◌, Option, none, some, Text, Bytes, length, length-append, take, ltb, if◌then◌else◌,
  Bool-cases, arith, All, subst,
}
use vakt_os.Init.LogFile.{
  chunk, BoundedLog, Answers, create_log, header, removed, rotate, append, append_after,
  write_chunk, Read, bytes, interrupted, failed, drain,
}

-- A file that is rotated away is within the limit, unless an earlier run left it.
abbrev pub OldWithin : ℕ → Option Bytes → Option Bytes → Type 0
OldWithin limit earlier none = Unit
OldWithin limit earlier (some old) = (length old ≤ limit) ⊎ (some old ≡ earlier)

length-take : (n : ℕ) (xs : Bytes) → length (take n xs) ≤ length xs
length-take zero xs = omega arith
length-take (suc n) [] = omega arith
length-take (suc n) (x ∷ xs) = omega (arith, length-take n xs)

-- What holds of a log that was created with a path and a limit.
pub record IsWithin (path : Text) (limit : ℕ) (earlier : Option Bytes) (l : BoundedLog)
    : Type 0 where
  pub path_kept : l.path ≡ path
  pub limit_kept : l.limit ≡ limit
  pub active : length l.active ≤ limit
  pub old : OldWithin limit earlier l.rotated

-- While the log is in use, `written` is the length of the active file.
record IsOpen (path : Text) (limit : ℕ) (earlier : Option Bytes) (l : BoundedLog) : Type 0 where
  within : IsWithin path limit earlier l
  counted : l.written ≡ length l.active

-- A read gives no more than the buffer holds, and the length of a file that has just been opened
-- can be asked for.
abbrev pub IsRead : Read × Answers → Type 0
IsRead (bytes buf, a) = (length buf ≤ chunk) × (a.has_metadata ≡ true)
IsRead (_, a) = Unit

module _ (path : Text) (limit : ℕ) (earlier : Option Bytes) where
  -- What a call leaves: a log in use if it went through, and one within its limit if it did not.
  abbrev Left : BoundedLog × Bool → Type 0
  Left (l, true) = IsOpen path limit earlier l
  Left (l, false) = IsWithin path limit earlier l

  append_lem :
      (a : Answers) (buf : Bytes) (l : BoundedLog)
      → IsOpen path limit earlier l
      → length l.active + length buf ≤ limit
      → Left (append a buf l)
  unfolding append
  append_lem a buf l o h = elim (Bool-cases a.writes_data) [
    | inl works ↦
        rw (works, append)
          (record {
            within = record {
              path_kept = o.within.path_kept;
              limit_kept = o.within.limit_kept;
              active = omega (arith, length-append l.active buf, h);
              old = o.within.old;
            };
            counted = omega (arith, length-append l.active buf, o.counted);
          })
    | inr fails ↦
        rw (fails, append)
          (record {
            path_kept = o.within.path_kept;
            limit_kept = o.within.limit_kept;
            active = omega (
              arith,
              length-append l.active (take a.data_left buf),
              length-take a.data_left buf,
              h,
            );
            old = o.within.old;
          })
  ]

  module _ (fits : length (header path limit) + chunk ≤ limit) where
    -- The log after a rotation that went through holds its header, and nothing else yet.
    IsFresh : BoundedLog × Bool → Type 0
    IsFresh (l, true) = IsOpen path limit earlier l × (length l.active + chunk ≤ limit)
    IsFresh (l, false) = IsWithin path limit earlier l

    header_short :
        (l : BoundedLog)
        → IsWithin path limit earlier l
        → length (header l.path l.limit) + chunk ≤ limit
    header_short l w =
        subst (λ p. length (header p l.limit) + chunk ≤ limit) (sym w.path_kept)
          (subst (λ n. length (header path n) + chunk ≤ limit) (sym w.limit_kept) fits)

    removed_old :
        (b : Bool) (o : Option Bytes)
        → OldWithin limit earlier o
        → OldWithin limit earlier (removed b o)
    removed_old true o h = tt
    removed_old false o h = h

    rotate_lem :
        (a : Answers) (l : BoundedLog)
        → a.has_metadata ≡ true
        → IsOpen path limit earlier l
        → IsFresh (rotate a l)
    unfolding rotate IsFresh
    rotate_lem a l known o = elim (Bool-cases a.renames) [
      | inr stuck ↦
          rw (stuck, rotate)
            (record {
              path_kept = o.within.path_kept;
              limit_kept = o.within.limit_kept;
              active = o.within.active;
              old = removed_old a.removes l.rotated o.within.old;
            })
      | inl renamed ↦ elim (Bool-cases a.creates) [
        | inr stuck ↦
            rw (renamed, stuck, rotate)
              (record {
                path_kept = o.within.path_kept;
                limit_kept = o.within.limit_kept;
                active = omega arith;
                old = inl o.within.active;
              })
        | inl created ↦ elim (Bool-cases a.writes_header) [
          | inr torn ↦
              rw (renamed, created, torn, rotate)
                (record {
                  path_kept = o.within.path_kept;
                  limit_kept = o.within.limit_kept;
                  active = omega (
                    arith,
                    length-take a.header_left (header l.path l.limit),
                    header_short l o.within,
                  );
                  old = inl o.within.active;
                })
          | inl headed ↦
              rw (renamed, created, headed, known, rotate)
                (
                  record {
                    within = record {
                      path_kept = o.within.path_kept;
                      limit_kept = o.within.limit_kept;
                      active = omega (arith, header_short l o.within);
                      old = inl o.within.active;
                    };
                    counted = refl;
                  },
                  header_short l o.within,
                )
        ]
      ]
    ]

    append_after_lem :
        (a : Answers) (buf : Bytes) (r : BoundedLog × Bool)
        → length buf ≤ chunk
        → IsFresh r
        → Left (append_after a buf r)
    unfolding append_after IsFresh
    append_after_lem a buf (l, true) h f = append_lem a buf l f.0 (omega (arith, f.1, h))
    append_after_lem a buf (l, false) h f = f

    write_chunk_lem :
        (a : Answers) (buf : Bytes) (l : BoundedLog)
        → a.has_metadata ≡ true
        → length buf ≤ chunk
        → IsOpen path limit earlier l
        → Left (write_chunk a buf l)
    unfolding write_chunk
    write_chunk_lem a [] l known h o = o
    write_chunk_lem a (b ∷ buf) l known h o =
        elim (Bool-cases (ltb 0 l.written && ltb l.limit (l.written + length (b ∷ buf)))) [
          | inl over ↦
              rw (over, write_chunk)
                (append_after_lem a (b ∷ buf) (rotate a l) h (rotate_lem a l known o))
          | inr under ↦
              rw (under, write_chunk)
                (append_lem a (b ∷ buf) l o
                  (ground (arith, under, h, o.counted, o.within.limit_kept, fits)))
        ]

    drained :
        (reads : List (Read × Answers))
        → ((l : BoundedLog)
            → IsOpen path limit earlier l
            → IsWithin path limit earlier (drain reads l))
        → (r : BoundedLog × Bool) → Left r
        → IsWithin path limit earlier (if r.1 then drain reads r.0 else r.0)
    drained reads later (l, true) o = later l o
    drained reads later (l, false) w = w

    drain_lem :
        (reads : List (Read × Answers)) (l : BoundedLog)
        → All IsRead reads
        → IsOpen path limit earlier l
        → IsWithin path limit earlier (drain reads l)
    unfolding drain
    drain_lem [] l h o = o.within
    drain_lem ((bytes [], a) ∷ reads) l h o = o.within
    drain_lem ((interrupted, a) ∷ reads) l h o = drain_lem reads l h.1 o
    drain_lem ((failed, a) ∷ reads) l h o = o.within
    drain_lem ((bytes (b ∷ buf), a) ∷ reads) l h o =
        drained reads (λ l'. drain_lem reads l' h.1) (write_chunk a (b ∷ buf) l)
          (write_chunk_lem a (b ∷ buf) l h.0.1 h.0.0 o)

-- A log that is drained for however long, with calls that fail wherever they may, stays within its
-- budget: neither file has more bytes than half of it (or one byte, if that is more), but for a rotated
-- file that an earlier run left. A read must give no more than the buffer holds, the length of the file opened by a rotation
-- must be known, and half the budget must hold the header and one buffer.
pub drain-IsWithin :
    (path : Text) (budget : ℕ) (earlier : Option Bytes) (reads : List (Read × Answers))
    → length (header path (max (budget / 2) 1)) + chunk ≤ max (budget / 2) 1
    → All IsRead reads
    → IsWithin path (max (budget / 2) 1) earlier (drain reads (create_log path budget earlier))
unfolding create_log
drain-IsWithin path budget earlier reads fits h =
    drain_lem path (max (budget / 2) 1) earlier fits reads _ h (record {
      within = record {
        path_kept = refl;
        limit_kept = refl;
        active = omega arith;
        old = kept earlier;
      };
      counted = refl;
    })
  where
    kept : (o : Option Bytes) → OldWithin (max (budget / 2) 1) o o
    kept none = tt
    kept (some old) = inr refl
