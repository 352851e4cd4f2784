-- ===== src/Auth/Forms/Emails.antt =====
-- What `isValidEmail` takes.
use Prim.Native.Char.{Char, code}
use text.Mathlib.TextEquality.{Char-path}
use text.Mathlib.TextLemmas.{nil-append, cons-append}
use project_hawkeye.Base.{
  String, Bool, true, ◌&&◌, ◌==◌, ◌≡◌, refl, sym, ap, ◌∙◌, ◌↔◌, arith, Bool-cases, inl, inr,
}
use project_hawkeye.Base.Strings.{◌+++◌, is_filled}
use project_hawkeye.Base.Chars.Laws.{is_filled-cons}
use project_hawkeye.Auth.Forms.{is_plain, all_plain, one_plain, until, is_valid_email}

-- A part of an address: some characters, none of them white space or "@".
abbrev pub is_part : String → Bool
is_part x = is_filled x && all_plain x

is_part-cons : (c : Char) (s : String) → is_part (String.◌∷◌ c s) ≡ is_plain (code c) && all_plain s
unfolding all_plain
is_part-cons c s = rw (is_filled-cons c s) refl

one_plain-is_part : (s : String) → one_plain all_plain s ≡ is_part s
unfolding one_plain
one_plain-is_part String.[] = refl
one_plain-is_part (String.◌∷◌ c s) = sym (is_part-cons c s)

-- A pattern behind a separator, in the matcher and in a text that is put together.
module _ (d : Char) (p : String → Bool) where
  cut_at :
      (c : Char) (s : String) → (code c == code d) ≡ true → String.◌∷◌ c s ≡ String.◌∷◌ d "" +++ s
  cut_at c s h =
      rw cons-append
        (rw nil-append (ap (λ (x : Char). String.◌∷◌ x s) (Char-path c d (ground arith))))

  until_parts :
      (s : String)
      → until (code d) p s ≡ true
      → (b : String) × (e : String) × (s ≡ b +++ (String.◌∷◌ d "" +++ e))
        × (all_plain b ≡ true)
        × (p e ≡ true)
  unfolding until all_plain
  until_parts String.[] h = cc
  until_parts (String.◌∷◌ c s) h = elim (Bool-cases (code c == code d && p s)) [
    | inl here ↦ (
      "",
      s,
      cut_at c s (ground arith) ∙ sym (nil-append (String.◌∷◌ d "" +++ s)),
      refl,
      ground arith,
    )
    | inr later ↦
        let (b, e, eq, plain, ends) = until_parts s (ground arith) in
        (
          String.◌∷◌ c b,
          e,
          ap (String.◌∷◌ c) eq ∙ sym (cons-append c b (String.◌∷◌ d "" +++ e)),
          ground arith,
          ends,
        )
  ]

  one_plain_parts :
      (s : String)
      → one_plain (until (code d) p) s ≡ true
      → (b : String) × (e : String) × (s ≡ b +++ (String.◌∷◌ d "" +++ e))
        × (is_part b ≡ true)
        × (p e ≡ true)
  unfolding one_plain
  one_plain_parts String.[] h = cc
  one_plain_parts (String.◌∷◌ c s) h =
      let (b, e, eq, plain, ends) = until_parts s (ground arith) in
      (
        String.◌∷◌ c b,
        e,
        ap (String.◌∷◌ c) eq ∙ sym (cons-append c b (String.◌∷◌ d "" +++ e)),
        is_part-cons c b ∙ ground arith,
        ends,
      )

  until-append :
      (b e : String)
      → all_plain b ≡ true
      → p e ≡ true
      → until (code d) p (b +++ (String.◌∷◌ d "" +++ e)) ≡ true
  unfolding until all_plain
  until-append String.[] e plain ends =
      rw nil-append (rw cons-append (rw nil-append (ground arith)))
  until-append (String.◌∷◌ c b) e plain ends =
      rw (cons-append c b) (ground (arith, until-append b e))

  one_plain-append :
      (b e : String)
      → is_part b ≡ true
      → p e ≡ true
      → one_plain (until (code d) p) (b +++ (String.◌∷◌ d "" +++ e)) ≡ true
  unfolding one_plain
  one_plain-append String.[] e part ends = cc
  one_plain-append (String.◌∷◌ c b) e part ends =
      let plain : is_plain (code c) && all_plain b ≡ true = sym (is_part-cons c b) ∙ part in
      rw (cons-append c b) (ground (arith, until-append b e))

-- An address: three parts, with "@" and "." between them.
abbrev pub IsAddress : String → Type 0
IsAddress s =
    (a : String) × (b : String) × (c : String) × (s ≡ a +++ ("@" +++ (b +++ ("." +++ c))))
    × (is_part a ≡ true)
    × (is_part b ≡ true)
    × (is_part c ≡ true)

-- `isValidEmail` takes exactly the texts that are three parts with "@" and "." between them, where a
-- part is some characters other than "@" and white space.
pub is_valid_email-IsAddress : (s : String) → (is_valid_email s ≡ true) ↔ IsAddress s
unfolding is_valid_email
is_valid_email-IsAddress s = (
  λ h.
      let (a, rest, eq, part_a, valid) = one_plain_parts "@" _ s h in
      let (b, c, eq', part_b, last) = one_plain_parts "." _ rest valid in
      (
        a,
        b,
        c,
        eq ∙ ap (λ t. a +++ ("@" +++ t)) eq',
        part_a,
        part_b,
        sym (one_plain-is_part c) ∙ last,
      ),
  λ (a, b, c, eq, part_a, part_b, part_c).
      ap is_valid_email eq
      ∙ one_plain-append "@" _ a (b +++ ("." +++ c)) part_a
          (one_plain-append "." _ b c part_b (one_plain-is_part c ∙ part_c)),
)
