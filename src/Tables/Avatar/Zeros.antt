-- ===== src/Tables/Avatar/Zeros.antt =====
-- What the hashes of the avatars look like.
use text.Mathlib.TextLemmas.{nil-append, cons-append, append_assoc}
use project_hawkeye.Base.{
  ℕ, zero, suc, String, List, [], ◌∷◌, ◌+◌, ◌-◌, ◌*◌, ◌/◌, ◌%◌, ◌≤◌, ◌<◌, ◌++◌, ltb, ◌≡◌, refl, sym,
  ap, ◌∙◌, arith, length, length-append, Bool-cases, inl, inr,
}
use project_hawkeye.Base.Chars.{trim, text_length}
use project_hawkeye.Base.Strings.{◌+++◌}
use project_hawkeye.Tables.Avatar.{
  pow, xor, mix, mix_all, absolute, hash_number, hex, text_of, zeros, padded, gravatar_hash,
}

-- The number that digits stand for, behind those that were read
abbrev pub value : ℕ → List ℕ → ℕ
value read [] = read
value read (d ∷ ds) = value (read * 16 + d) ds

value-last : (read : ℕ) (ds : List ℕ) (d : ℕ) → value read (ds ++ d ∷ []) ≡ value read ds * 16 + d
value-last read [] d = refl
value-last read (e ∷ ds) d = value-last (read * 16 + e) ds d

-- The digits that `hex` writes stand for the number, where there is room for it.
pub value-hex : (room n : ℕ) → n < pow 16 (suc room) → value 0 (hex room n) ≡ n
unfolding hex pow
value-hex zero n fits = omega arith
value-hex (suc room) n fits = elim (Bool-cases (ltb n 16)) [
  | inl small ↦ rw small (omega arith)
  | inr large ↦ rw large (
      value-last 0 (hex room (n / 16)) (n % 16)
      ∙ rw (value-hex room (n / 16) (unfold pow in omega arith)) (omega arith))
]

xor_lt : (bits a b : ℕ) → xor bits a b < pow 2 bits
unfolding xor pow
xor_lt zero a b = ground arith
xor_lt (suc bits) a b = let h = xor_lt bits (a / 2) (b / 2) in omega arith

mix_all_lt : (cs : List ℕ) (h : ℕ) → h < 4294967296 → mix_all cs h < 4294967296
unfolding mix_all mix pow
mix_all_lt [] h lt = lt
mix_all_lt (c ∷ cs) h lt = mix_all_lt cs (mix h c) (xor_lt 32 (h * 32 % 4294967296 + h) c)

absolute_lt : (h : ℕ) → h < 4294967296 → absolute h < 4294967296
unfolding absolute
absolute_lt h lt = ground arith

zeros_sum : (m n : ℕ) → zeros (m + n) ≡ zeros m +++ zeros n
unfolding zeros
zeros_sum zero n = let same : 0 + n ≡ n = omega arith in ap zeros same ∙ sym (nil-append (zeros n))
zeros_sum (suc m) n =
    let later : suc m + n ≡ suc (m + n) = omega arith in
    ap zeros later ∙ ap (String.◌∷◌ "0") (zeros_sum m n) ∙ sym (cons-append "0" (zeros m) (zeros n))

text_length-append : (s t : String) → text_length (s +++ t) ≡ text_length s + text_length t
unfolding text_length
text_length-append String.[] t = rw nil-append (omega arith)
text_length-append (String.◌∷◌ c s) t =
    rw (cons-append c s) (rw (text_length-append s t) (omega arith))

text_length-zeros : (n : ℕ) → text_length (zeros n) ≡ n
unfolding text_length zeros
text_length-zeros zero = refl
text_length-zeros (suc n) = ap suc (text_length-zeros n)

text_length-text_of : (ds : List ℕ) → text_length (text_of ds) ≡ length ds
unfolding text_length text_of
text_length-text_of [] = refl
text_length-text_of (d ∷ ds) = ap suc (text_length-text_of ds)

length-hex : (room n : ℕ) → length (hex room n) ≤ suc room
unfolding hex
length-hex zero n = omega arith
length-hex (suc room) n = elim (Bool-cases (ltb n 16)) [
  | inl small ↦ rw small (omega arith)
  | inr large ↦ rw large (rw length-append (let h = length-hex room (n / 16) in omega arith))
]

padded_of_short :
    (s : String)
    → text_length s ≤ 8
    → (tail : String) × (padded s ≡ zeros 24 +++ tail) × (text_length tail ≡ 8)
unfolding padded
padded_of_short s short =
    let count : 32 - text_length s ≡ 24 + (8 - text_length s) = omega arith in
    (
      zeros (8 - text_length s) +++ s,
      ap (λ n. zeros n +++ s) count
          ∙ ap (λ z. z +++ s) (zeros_sum 24 (8 - text_length s))
          ∙ append_assoc (zeros 24) (zeros (8 - text_length s)) s,
      text_length-append (zeros (8 - text_length s)) s
          ∙ rw (text_length-zeros (8 - text_length s)) (omega arith),
    )

-- The hash of an avatar is 24 zeros and eight more characters, whatever the actor is, and the digits
-- that it is padded from stand for the absolute value of the 32-bit number.
pub gravatar_hash-zeros :
    (to_lower_case : String → String) (units : String → List ℕ) (actor : String)
    → ((tail : String) × (gravatar_hash to_lower_case units actor ≡ zeros 24 +++ tail)
        × (text_length tail ≡ 8))
      × (value 0 (hex 7 (hash_number to_lower_case units actor))
          ≡ hash_number to_lower_case units actor)
unfolding gravatar_hash hash_number pow
gravatar_hash-zeros to_lower_case units actor =
    let cs = units (to_lower_case (trim actor)) in
    let h = absolute (mix_all cs 5381) in
    let short : text_length (text_of (hex 7 h)) ≤ 8 =
      rw (text_length-text_of (hex 7 h)) (length-hex 7 h) in
    (
      padded_of_short (text_of (hex 7 h)) short,
      value-hex 7 h (absolute_lt (mix_all cs 5381) (mix_all_lt cs 5381 (omega arith))),
    )
