-- ===== src/Base/Strings.antt =====
-- Texts that are only compared, joined and cut at the front, and sets of them. A native `String` is
-- a list of code points; the program's counts are of UTF-16 units, the same below 0x10000.
use Prim.Native.Nat.{ℕ, zero, suc}
use Prim.Native.String
use Prim.Native.String.{String}
use mathlib.Core.Path.{◌≡◌, refl}
use mathlib.Core.Bool.{Bool, true, false, not, ◌||◌}
use mathlib.Core.List.{List, [], ◌∷◌, ◌++◌}
use mathlib.Core.Option.{Option, none, some}
use native.Mathlib.Omega.{arith}
use text.Mathlib.Text.{◌==◌ as str_eq, starts_with}
use text.Mathlib.TextLemmas.{nil-append, cons-append}

-- `s.slice(0, n)`
unfoldable pub slice : ℕ → String → String
slice zero s = ""
slice (suc n) String.[] = ""
slice (suc n) (String.◌∷◌ c s) = String.◌∷◌ c (slice n s)

infixl 65 ◌+++◌
abbrev pub ◌+++◌ : String → String → String
s +++ t = String.◌++◌ s t

-- `!!s`, for a text and for one that may be null
abbrev pub is_filled : String → Bool
is_filled s = not (str_eq s "")

abbrev pub truthy : Option String → Bool
truthy none = false
truthy (some s) = is_filled s

-- `xs.includes(k)`, and `has` of a set
unfoldable pub contains : String → List String → Bool
contains k [] = false
contains k (x ∷ xs) = str_eq x k || contains k xs

pub contains-append :
    (k : String) (xs ys : List String) → contains k (xs ++ ys) ≡ contains k xs || contains k ys
unfolding contains
contains-append k [] ys = refl
contains-append k (x ∷ xs) ys = ground (arith, contains-append k xs ys)

-- No text stands twice.
abbrev pub Distinct : List String → Type 0
Distinct [] = Unit
Distinct (x ∷ xs) = (contains x xs ≡ false) × Distinct xs

-- Some rest of the text passes the test, `.*` in front of a pattern.
unfoldable pub any_suffix : (String → Bool) → String → Bool
any_suffix p String.[] = p ""
any_suffix p (String.◌∷◌ c s) = p (String.◌∷◌ c s) || any_suffix p s

any_suffix_of : (p : String → Bool) (t : String) → p t ≡ true → any_suffix p t ≡ true
unfolding any_suffix
any_suffix_of p String.[] h = h
any_suffix_of p (String.◌∷◌ c s) h = ground arith

pub any_suffix-append :
    (p : String → Bool) (s t : String) → p t ≡ true → any_suffix p (s +++ t) ≡ true
unfolding any_suffix
any_suffix-append p String.[] t h = rw nil-append (any_suffix_of p t h)
any_suffix-append p (String.◌∷◌ c s) t h =
    rw cons-append (ground (arith, any_suffix-append p s t h))

-- `s.includes(t)`
unfoldable pub includes : String → String → Bool
unfolding any_suffix
includes s t = any_suffix (λ rest. starts_with rest t) s
