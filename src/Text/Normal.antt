-- ===== src/Text/Normal.antt =====
-- `normalize_email` on addresses that are normal already.
use Prim.Native.Char.{Char, code}
use Prim.Native.Nat.{◌<◌, ◌-◌}
use Prim.Native.String.{[], ◌∷◌, char_at}
use mathlib.Core.Path.{ap₂}
use saas_backend_fastapi.Prelude.{
  ℕ, String, ◌≡◌, refl, sym, ap, ◌∙◌, Bool, true, false, not, ◌&&◌, arith, Bool-cases, inl, inr,
}
use saas_backend_fastapi.Text.Below.{holds_below, at_each}
use saas_backend_fastapi.Text.{
  is_upper, is_space, alphabet, lower_char, lower, lstrip, is_empty, rstrip, normalize_email,
}

abbrev is_plain : Char → Bool
is_plain c = not (is_upper c) && not (is_space c)

alphabet_plain : (k : ℕ) → k < 26 → is_plain (char_at alphabet k) ≡ true
unfolding holds_below
alphabet_plain k = at_each (λ k. is_plain (char_at alphabet k)) 26 refl k

lower_char_plain : (c : Char) → is_upper c ≡ true → is_plain (lower_char c) ≡ true
unfolding lower_char
lower_char_plain c h = rw h (alphabet_plain (code c - 65) (ground arith))

lower_char_fix : (c : Char) → is_upper c ≡ false → lower_char c ≡ c
unfolding lower_char
lower_char_fix c h = rw h

not_upper_of_plain : (c : Char) → is_plain c ≡ true → is_upper c ≡ false
not_upper_of_plain c h = ground arith

not_space_of_plain : (c : Char) → is_plain c ≡ true → is_space c ≡ false
not_space_of_plain c h = ground arith

not_space_of_upper : (c : Char) → is_upper c ≡ true → is_space c ≡ false
not_space_of_upper c h = ground arith

lower_char_idem : (c : Char) → lower_char (lower_char c) ≡ lower_char c
lower_char_idem c = elim (Bool-cases (is_upper c)) [
  | inl up ↦ lower_char_fix _ (not_upper_of_plain (lower_char c) (lower_char_plain c up))
  | inr low ↦ ap lower_char (lower_char_fix c low)
]

is_space-lower_char : (c : Char) → is_space (lower_char c) ≡ is_space c
is_space-lower_char c = elim (Bool-cases (is_upper c)) [
  | inl up ↦
      not_space_of_plain (lower_char c) (lower_char_plain c up) ∙ sym (not_space_of_upper c up)
  | inr low ↦ ap (λ d. is_space d) (lower_char_fix c low)
]

lower_idem : (s : String) → lower (lower s) ≡ lower s
unfolding lower
lower_idem [] = refl
lower_idem (c ∷ s) = ap₂ ◌∷◌ (lower_char_idem c) (lower_idem s)

lower-lstrip : (s : String) → lower (lstrip s) ≡ lstrip (lower s)
unfolding lower lstrip
lower-lstrip [] = refl
lower-lstrip (c ∷ s) = ground (arith, lower-lstrip s, is_space-lower_char c)

is_empty-lower : (s : String) → is_empty (lower s) ≡ is_empty s
unfolding lower
is_empty-lower [] = refl
is_empty-lower (c ∷ s) = refl

lower-rstrip : (s : String) → lower (rstrip s) ≡ rstrip (lower s)
unfolding lower rstrip
lower-rstrip [] = refl
lower-rstrip (c ∷ s) = ground (
  arith,
  lower-rstrip s,
  is_space-lower_char c,
  is_empty-lower (rstrip s),
  ap is_empty (lower-rstrip s),
)

lstrip_idem : (s : String) → lstrip (lstrip s) ≡ lstrip s
unfolding lstrip
lstrip_idem [] = refl
lstrip_idem (c ∷ s) = ground (arith, lstrip_idem s)

rstrip_idem : (s : String) → rstrip (rstrip s) ≡ rstrip s
unfolding rstrip
rstrip_idem [] = refl
rstrip_idem (c ∷ s) = ground (arith, rstrip_idem s)

lstrip-rstrip : (s : String) → lstrip (rstrip s) ≡ rstrip (lstrip s)
unfolding lstrip rstrip
lstrip-rstrip [] = refl
lstrip-rstrip (c ∷ s) = ground (arith, lstrip-rstrip s)

-- Normalising again changes nothing: the lookups by e-mail may normalise what is already normal.
pub normalize_email_idem : (s : String) → normalize_email (normalize_email s) ≡ normalize_email s
unfolding normalize_email
normalize_email_idem s =
    simp (lower-rstrip, lower-lstrip, lower_idem, lstrip-rstrip, lstrip_idem, rstrip_idem)
