-- ===== src/Init/Privilege/Account.antt =====
-- Which account `parse_passwd` of vakt-init/src/privilege.rs finds.
use vakt_os.Base.{
  digits_below, digits_below-fits, ℕ, ◌≡◌, ◌≢◌, ◌⊎◌, ◌<◌, ◌≤◌, ◌+◌, ◌-◌, ◌*◌, ◌∙◌, sym, subst,
  nat_beq, refl, inl, inr, ap, true, false, List, [], ◌∷◌, ◌++◌, ◌&&◌, leb, ltb, Option, none, some,
  Bool-cases, Text, text, text_eq, nat_eq, trim, lines, split, before_rest, split-lacks_separator,
  contains, All, arith, ◌==◌, beq_refl, eq_of_beq,
}
use vakt_os.Init.Privilege.{
  Identity, u32_limit, some_digits, parse_u32, home_in, numbered, identity_of, entry_of,
  fields_behind, fields_of, is_account, find_account, parse_passwd,
}

-- What a decimal number is worth, behind digits that are worth `acc`.
abbrev pub decimal : ℕ → Text → ℕ
decimal acc [] = acc
decimal acc (c ∷ cs) = decimal (acc * 10 + (c - b'0')) cs

abbrev pub AllDigits : Text → Type 0
AllDigits t = All (λ c. (b'0' ≤ c) × (c ≤ b'9')) t

-- A number of an account: decimal digits, at least one, behind a plus sign that may be missing, and below 2^32.
pub record Denotes (t : Text) (n : ℕ) : Type 0 where
  pub digits : Text
  pub spelled : (t ≡ digits) ⊎ (t ≡ b'+' ∷ digits)
  pub not_empty : digits ≢ []
  pub decimal_digits : AllDigits digits
  pub value : decimal 0 digits ≡ n
  pub fits : n < 4294967296

digits_below_lem :
    (t : Text) (acc n : ℕ)
    → digits_below u32_limit t acc ≡ some n
    → AllDigits t × (decimal acc t ≡ n)
unfolding digits_below
digits_below_lem [] acc n e = (tt, ground arith)
digits_below_lem (c ∷ cs) acc n e =
    elim (Bool-cases (leb b'0' c && leb c b'9' && ltb (acc * 10 + (c - b'0')) u32_limit)) [
      | inl good ↦
          let (digits, value) = digits_below_lem cs (acc * 10 + (c - b'0')) n (ground arith) in
          (((ground arith, ground arith), digits), value)
      | inr bad ↦ absurd (ground arith)
    ]

some_digits-Denotes :
    (t digits : Text) (n : ℕ)
    → (t ≡ digits) ⊎ (t ≡ b'+' ∷ digits)
    → some_digits digits ≡ some n
    → Denotes t n
some_digits-Denotes t [] n spelled e = absurd (cc)
some_digits-Denotes t (c ∷ cs) n spelled e =
    let (digits, value) = digits_below_lem (c ∷ cs) 0 n e in
    record {
      digits = c ∷ cs;
      spelled = spelled;
      not_empty = λ h. cc;
      decimal_digits = digits;
      value = value;
      fits = digits_below-fits u32_limit (c ∷ cs) 0 n (omega arith) e;
    }

parse_u32-Denotes : (t : Text) (n : ℕ) → parse_u32 t ≡ some n → Denotes t n
parse_u32-Denotes [] n e = absurd (cc)
parse_u32-Denotes (c ∷ cs) n e = elim (Bool-cases (nat_beq c b'+')) [
  | inl plus ↦
      let is : c ≡ b'+' = ground arith in
      some_digits-Denotes (c ∷ cs) cs n (inr (ap (λ x. x ∷ cs) is)) (rw plus at e)
  | inr digit ↦ some_digits-Denotes (c ∷ cs) (c ∷ cs) n (inl refl) (rw digit at e)
]

-- Fields with a colon between each two.
abbrev pub join_fields : List Text → Text
join_fields [] = []
join_fields (field ∷ []) = field
join_fields (field ∷ next ∷ fields) = field ++ b':' ∷ join_fields (next ∷ fields)

join-before_rest :
    (c : ℕ) (pieces : List Text) → join_fields (before_rest c pieces) ≡ c ∷ join_fields pieces
join-before_rest c [] = refl
join-before_rest c (piece ∷ []) = refl
join-before_rest c (piece ∷ next ∷ pieces) = refl

join_behind :
    (pieces : List Text) → pieces ≢ [] → join_fields ([] ∷ pieces) ≡ b':' ∷ join_fields pieces
join_behind [] n = absurd (n refl)
join_behind (piece ∷ pieces) n = refl

before_rest-ne : (c : ℕ) (pieces : List Text) → before_rest c pieces ≢ []
before_rest-ne c [] h = cc
before_rest-ne c (piece ∷ pieces) h = cc

split-ne : (t : Text) → fields_of t ≢ []
unfolding split
split-ne [] h = cc
split-ne (c ∷ cs) h = elim (Bool-cases (nat_beq c b':')) [
  | inl colon ↦ absurd (cc (rw colon at h))
  | inr other ↦ before_rest-ne c (fields_of cs) (rw other at h)
]

join-fields_of : (t : Text) → join_fields (fields_of t) ≡ t
unfolding split
join-fields_of [] = refl
join-fields_of (c ∷ cs) = elim (Bool-cases (nat_beq c b':')) [
  | inl colon ↦
      let is : c ≡ b':' = ground arith in
      rw colon (
        join_behind (fields_of cs) (split-ne cs)
        ∙ ap (◌∷◌ b':') (join-fields_of cs)
        ∙ ap (λ x. x ∷ cs) (sym is))
  | inr other ↦ rw other (join-before_rest c (fields_of cs) ∙ ap (◌∷◌ c) (join-fields_of cs))
]

-- The home directory stands behind the comment field; without one it is the root.
pub data HasHome : List Text → Text → Type 0 where
  home_field : (gecos home : Text) (rest : List Text) → HasHome (gecos ∷ home ∷ rest) home
  no_home_field : (gecos : Text) → HasHome (gecos ∷ []) (text "/")
  no_fields : HasHome [] (text "/")

home_in-HasHome : (rest : List Text) → HasHome rest (home_in rest)
home_in-HasHome [] = HasHome.no_fields
home_in-HasHome (gecos ∷ []) = HasHome.no_home_field gecos
home_in-HasHome (gecos ∷ home ∷ rest) = HasHome.home_field gecos home rest

-- An identity that a line of the file gives: name, password, user and group are its first fields.
pub record Gives (line name : Text) (id : Identity) : Type 0 where
  pub password : Text
  pub uid : Text
  pub gid : Text
  pub rest : List Text
  pub fields : line ≡ join_fields (name ∷ password ∷ uid ∷ gid ∷ rest)
  pub separate : All (λ f. contains f b':' ≡ false) (name ∷ password ∷ uid ∷ gid ∷ rest)
  pub same : id.name ≡ name
  pub is_uid : Denotes uid id.uid
  pub is_gid : Denotes gid id.gid
  pub home : HasHome rest id.home

numbered-Gives :
    (name password uid gid : Text) (rest : List Text) (u g : Option ℕ) (line : Text) (id : Identity)
    → parse_u32 uid ≡ u
    → parse_u32 gid ≡ g
    → fields_of line ≡ name ∷ password ∷ uid ∷ gid ∷ rest
    → numbered name u g rest ≡ some id
    → Gives line name id
numbered-Gives name password uid gid rest none g line id hu hg f e = absurd (cc)
numbered-Gives name password uid gid rest (some u) none line id hu hg f e = absurd (cc)
numbered-Gives name password uid gid rest (some u) (some g) line id hu hg f e =
    subst (Gives line name) {x = record { name = name; uid = u; gid = g; home = home_in rest }}
      {y = id} (ground arith)
      (record {
        password = password;
        uid = uid;
        gid = gid;
        rest = rest;
        fields = sym (join-fields_of line) ∙ ap join_fields f;
        separate =
            subst (λ l. All (λ f. contains f b':' ≡ false) l) f (split-lacks_separator b':' line);
        same = refl;
        is_uid = parse_u32-Denotes uid u hu;
        is_gid = parse_u32-Denotes gid g hg;
        home = home_in-HasHome rest;
      })

identity_of-Gives :
    (name line : Text) (pieces : List Text) (id : Identity)
    → fields_of line ≡ pieces
    → entry_of pieces ≡ name
    → identity_of name (fields_behind pieces) ≡ some id
    → Gives line name id
identity_of-Gives name line [] id f n e = absurd (cc)
identity_of-Gives name line (x ∷ []) id f n e = absurd (cc)
identity_of-Gives name line (x ∷ p ∷ []) id f n e = absurd (cc)
identity_of-Gives name line (x ∷ p ∷ u ∷ []) id f n e = absurd (cc)
identity_of-Gives name line (x ∷ p ∷ u ∷ g ∷ rest) id f n e =
    numbered-Gives name p u g rest (parse_u32 u) (parse_u32 g) line id refl refl
      (f ∙ ap (λ y. y ∷ p ∷ u ∷ g ∷ rest) n) e

-- A line that is not the account's: empty, a comment, or with another name in front of the first colon, if there is one.
pub data IsOther (name : Text) : Text → Type 0 where
  blank : IsOther name []
  comment : (cs : Text) → IsOther name (b'#' ∷ cs)
  another :
      (fields : List Text) (entry : Text)
      → contains entry b':' ≡ false
      → entry ≢ name
      → IsOther name (join_fields (entry ∷ fields))

fields-IsOther :
    (name line : Text) (pieces : List Text)
    → fields_of line ≡ pieces
    → (entry_of pieces == name) ≡ false
    → IsOther name line
fields-IsOther name line [] f n = absurd (split-ne line f)
fields-IsOther name line (entry ∷ fields) f n =
    subst (IsOther name) (ap join_fields (sym f) ∙ join-fields_of line) (
      IsOther.another fields entry
        (subst (λ l. All (λ f. contains f b':' ≡ false) l) f (split-lacks_separator b':' line)).0
        (λ e. cc (sym n ∙ ap (λ x. x == name) e ∙ beq_refl name)))

is_account-IsOther : (name line : Text) → is_account name line ≡ false → IsOther name line
is_account-IsOther name [] h = IsOther.blank
is_account-IsOther name (c ∷ cs) h = elim (Bool-cases (nat_beq c b'#')) [
  | inl hash ↦
      let is : b'#' ≡ c = ground arith in subst (λ x. IsOther name (x ∷ cs)) is (IsOther.comment cs)
  | inr plain ↦ fields-IsOther name (c ∷ cs) (fields_of (c ∷ cs)) refl (rw plain at h)
]

is_account_entry :
    (name line : Text) → is_account name line ≡ true → entry_of (fields_of line) ≡ name
is_account_entry name line h = eq_of_beq {a = entry_of (fields_of line)} {b = name} (ground arith)

is_account_plain : (name line cs : Text) → is_account name line ≡ true → line ≢ b'#' ∷ cs
is_account_plain name line cs h e = cc (sym h ∙ ap (is_account name) e)

-- The first line of the account decides, whatever the lines behind it say. The lines count without the blanks at their ends.
pub record IsDecided (name : Text) (all : List Text) (id : Identity) : Type 0 where
  pub before : List Text
  pub line : Text
  pub after : List Text
  pub place : all ≡ before ++ line ∷ after
  pub others : All (λ l. IsOther name (trim l)) before
  pub own : (cs : Text) → trim line ≢ b'#' ∷ cs
  pub gives : Gives (trim line) name id

find_account-IsDecided :
    (name : Text) (all : List Text) (id : Identity)
    → find_account name all ≡ some id
    → IsDecided name all id
unfolding find_account
find_account-IsDecided name [] id e = absurd (cc)
find_account-IsDecided name (line ∷ rest) id e = elim (Bool-cases (is_account name (trim line))) [
  | inl own ↦ record {
    before = [];
    line = line;
    after = rest;
    place = refl;
    others = tt;
    own = λ cs. is_account_plain name (trim line) cs own;
    gives =
        identity_of-Gives name (trim line) (fields_of (trim line)) id refl
          (is_account_entry name (trim line) own) (ground arith);
  }
  | inr other ↦
      let d = find_account-IsDecided name rest id (ground arith) in
      record {
        before = line ∷ d.before;
        line = d.line;
        after = d.after;
        place = ap (◌∷◌ line) d.place;
        others = (is_account-IsOther name (trim line) other, d.others);
        own = d.own;
        gives = d.gives;
      }
]

-- An account that `parse_passwd` finds stands in the first line of the file that has the name asked for in front of its first colon, where
-- lines that are empty or comments do not count, and the blanks around a line neither. It has that name; its two
-- numbers are below 2^32 and what the decimal digits in the third and the fourth field are worth, behind a plus sign
-- that may be missing; and its home is the sixth field, or the root directory where there are fewer fields.
pub parse_passwd-IsDecided :
    (passwd name : Text) (id : Identity)
    → parse_passwd passwd name ≡ some id
    → IsDecided name (lines passwd) id
unfolding parse_passwd
parse_passwd-IsDecided passwd name id e = find_account-IsDecided name (lines passwd) id e
