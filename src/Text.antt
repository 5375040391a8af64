-- ===== src/Text.antt =====
-- The string methods that the program calls: `lower`, `strip`, `split(",")[0]` and the decimal
-- print of an f-string. The letters and the white space are those of ASCII.
mod Below
pub mod Normal
pub mod Decimal
use Prim.Native.Char.{Char, code}
use Prim.Native.String.{[], ◌∷◌, char_at}
use saas_backend_fastapi.Prelude.{
  ℕ, zero, suc, ◌-◌, ◌+◌, ◌/◌, ◌%◌, String, Bool, ◌&&◌, ◌||◌, ◌++◌, ◌==◌, leb, ltb, if◌then◌else◌,
}

-- `len(s)`
abbrev pub size : String → ℕ
size [] = 0
size (c ∷ s) = suc (size s)

abbrev pub is_upper : Char → Bool
is_upper c = leb 65 (code c) && leb (code c) 90

abbrev pub is_space : Char → Bool
is_space c = (leb 9 (code c) && leb (code c) 13) || (leb 28 (code c) && leb (code c) 32)

abbrev pub is_lower : Char → Bool
is_lower c = leb 97 (code c) && leb (code c) 122

abbrev pub alphabet : String
alphabet = "abcdefghijklmnopqrstuvwxyz"

unfoldable pub lower_char : Char → Char
lower_char c = if is_upper c then char_at alphabet (code c - 65) else c

abbrev capitals : String
capitals = "ABCDEFGHIJKLMNOPQRSTUVWXYZ"

unfoldable pub upper_char : Char → Char
upper_char c = if is_lower c then char_at capitals (code c - 97) else c

-- `s.title()`; `inside` a word after a letter
unfoldable pub title_from : Bool → String → String
unfolding lower_char upper_char
title_from inside [] = []
title_from inside (c ∷ s) =
    (if inside then lower_char c else upper_char c) ∷ title_from (is_upper c || is_lower c) s

unfoldable pub title : String → String
unfolding title_from
title s = title_from Bool.false s

-- `s.lower()`
unfoldable pub lower : String → String
unfolding lower_char
lower [] = []
lower (c ∷ s) = lower_char c ∷ lower s

-- `s.lstrip()` and `s.rstrip()`
unfoldable pub lstrip : String → String
lstrip [] = []
lstrip (c ∷ s) = let rest = lstrip s in if is_space c then rest else c ∷ s

abbrev pub is_empty : String → Bool
is_empty [] = Bool.true
is_empty (c ∷ s) = Bool.false

unfoldable pub rstrip : String → String
rstrip [] = []
rstrip (c ∷ s) = let rest = rstrip s in if is_space c && is_empty rest then [] else c ∷ rest

-- `s.strip()`
unfoldable pub strip : String → String
unfolding lstrip rstrip
strip s = rstrip (lstrip s)

-- `email.lower().strip()`
unfoldable pub normalize_email : String → String
unfolding lower strip
normalize_email s = strip (lower s)

-- `s.split(",")[0]`
unfoldable pub before_comma : String → String
before_comma [] = []
before_comma (c ∷ s) =
    let rest = before_comma s in if leb 44 (code c) && leb (code c) 44 then [] else c ∷ rest

-- the digit character of a number below ten
abbrev pub digit : ℕ → Char
digit d = char_at "0123456789" d

-- The decimal digits of `n` in front of `out`; `fuel` is above `n`.
unfoldable pub emit_digits : ℕ → ℕ → String → String
emit_digits zero n out = out
emit_digits (suc fuel) n out =
    let more = emit_digits fuel (n / 10) (digit (n % 10) ∷ out) in
    if ltb n 10 then digit n ∷ out else more

-- `str(n)`
unfoldable pub decimal : ℕ → String
unfolding emit_digits
decimal n = emit_digits (suc n) n []
