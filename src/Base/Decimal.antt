-- ===== src/Base/Decimal.antt =====
-- A number as `{}` prints it.
use vakt_os.Base.Core.{
  ℕ, zero, suc, ◌+◌, ◌-◌, ◌*◌, ◌&&◌, leb, if◌then◌else◌, Option, none, some, ◌/◌, ◌%◌, ◌<◌, ◌≡◌,
  refl, true, false, [], ◌∷◌, ◌++◌, ltb, Bool-cases, inl, inr, arith,
}
use vakt_os.Base.Equality.{Text, nat_eq, contains, contains-append}

-- One digit a step, and a number has no more digits than its value plus one.
digits : ℕ → ℕ → Text
digits zero n = []
digits (suc fuel) n = elim (ltb n 10) [
  | true ↦ (b'0' + n) ∷ []
  | false ↦ digits fuel (n / 10) ++ (b'0' + n % 10) ∷ []
]

unfoldable pub show : ℕ → Text
unfolding digits
show n = digits (suc n) n

digits-lacks : (fuel n c : ℕ) → c < b'0' → contains (digits fuel n) c ≡ false
unfolding digits
digits-lacks zero n c h = refl
digits-lacks (suc fuel) n c h = elim (Bool-cases (ltb n 10)) [
  | inl last ↦ rw (last, digits) (ground arith)
  | inr more ↦
      rw (more, digits)
        (ground (
          arith,
          contains-append (digits fuel (n / 10)) ((b'0' + n % 10) ∷ []) c,
          digits-lacks fuel (n / 10) c h,
        ))
]

-- No character before `0` stands in a number.
pub show-lacks : (n c : ℕ) → c < b'0' → contains (show n) c ≡ false
unfolding show
show-lacks n c h = digits-lacks (suc n) n c h

-- The value of decimal digits, behind a value that was read before them, if it stays below the limit.
unfoldable pub digits_below : ℕ → Text → ℕ → Option ℕ
digits_below limit [] acc = some acc
digits_below limit (c ∷ cs) acc =
    let rest = digits_below limit cs (acc * 10 + (c - b'0')) in
    if leb b'0' c && leb c b'9' && ltb (acc * 10 + (c - b'0')) limit then rest else none

pub digits_below-fits :
    (limit : ℕ) (t : Text) (acc n : ℕ) → acc < limit → digits_below limit t acc ≡ some n → n < limit
unfolding digits_below
digits_below-fits limit [] acc n h e = ground arith
digits_below-fits limit (c ∷ cs) acc n h e =
    elim (Bool-cases (leb b'0' c && leb c b'9' && ltb (acc * 10 + (c - b'0')) limit)) [
      | inl good ↦
          digits_below-fits limit cs (acc * 10 + (c - b'0')) n (ground arith) (ground arith)
      | inr bad ↦ absurd (ground arith)
    ]
