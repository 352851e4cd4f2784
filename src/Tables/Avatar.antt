-- ===== src/Tables/Avatar.antt =====
-- The avatars of the dashboard, `UserAvatar` of dashboard/page.tsx under
-- Frontend/hawkeye-web/src/app/app/(workspace)/[projectId]/. A 32-bit integer is its bit pattern, a
-- number below 2 ^ 32; `units` gives the UTF-16 units of a text.
pub mod Zeros
use Prim.Native.Char.{Char}
use Prim.Native.String
use project_hawkeye.Base.{
  ℕ, zero, suc, String, Bool, List, [], ◌∷◌, ◌++◌, ◌+◌, ◌-◌, ◌*◌, ◌/◌, ◌%◌, if◌then◌else◌, ltb,
}
use project_hawkeye.Base.Chars.{trim, text_length}
use project_hawkeye.Base.Strings.{◌+++◌}

unfoldable pub pow : ℕ → ℕ → ℕ
pow b zero = 1
pow b (suc n) = b * pow b n

-- `a ^ b`, on the last bits
unfoldable pub xor : (bits : ℕ) → ℕ → ℕ → ℕ
xor zero a b = 0
xor (suc bits) a b = (a + b) % 2 + 2 * xor bits (a / 2) (b / 2)

-- `((h << 5) + h) ^ c`
unfoldable pub mix : ℕ → ℕ → ℕ
unfolding xor
mix h c = xor 32 (h * 32 % 4294967296 + h) c

-- The loop over the units
unfoldable pub mix_all : List ℕ → ℕ → ℕ
unfolding mix
mix_all [] h = h
mix_all (c ∷ cs) h = mix_all cs (mix h c)

-- `Math.abs(h)`, of the integer whose pattern is given
unfoldable pub absolute : ℕ → ℕ
absolute h = if ltb h 2147483648 then h else 4294967296 - h

-- The character at a position
unfoldable pub char_at : String → ℕ → Char
char_at String.[] n = "0"
char_at (String.◌∷◌ c s) zero = c
char_at (String.◌∷◌ c s) (suc n) = char_at s n

unfoldable pub digit : ℕ → Char
unfolding char_at
digit n = char_at "0123456789abcdef" n

-- The digits of `n.toString(16)`, with room for a number of them behind the first one
unfoldable pub hex : ℕ → ℕ → List ℕ
hex zero n = n ∷ []
hex (suc room) n =
    let front = hex room (n / 16) in if ltb n 16 then n ∷ [] else front ++ n % 16 ∷ []

unfoldable pub text_of : List ℕ → String
unfolding digit
text_of [] = ""
text_of (d ∷ ds) = String.◌∷◌ (digit d) (text_of ds)

unfoldable pub zeros : ℕ → String
zeros zero = ""
zeros (suc n) = String.◌∷◌ "0" (zeros n)

-- `s.padStart(32, "0")`
unfoldable pub padded : String → String
unfolding zeros
padded s = zeros (32 - text_length s) +++ s

-- `Math.abs(h)` at the end of `gravatarHash`
unfoldable pub hash_number :
    (to_lower_case : String → String) (units : String → List ℕ) → String → ℕ
unfolding trim mix_all absolute
hash_number to_lower_case units actor = absolute (mix_all (units (to_lower_case (trim actor))) 5381)

-- `gravatarHash`; a 32-bit integer has eight digits at most.
unfoldable pub gravatar_hash :
    (to_lower_case : String → String) (units : String → List ℕ) → String → String
unfolding hash_number hex text_of padded
gravatar_hash to_lower_case units actor =
    padded (text_of (hex 7 (hash_number to_lower_case units actor)))
