-- ===== src/Text/Decimal.antt =====
-- The decimal print of numbers, and its inverse.
use Prim.Native.Char.{code}
use Prim.Native.String.{[], ◌∷◌}
use saas_backend_fastapi.Prelude.{
  ℕ, zero, suc, ◌+◌, ◌-◌, ◌*◌, ◌/◌, ◌%◌, ◌<◌, String, ◌≡◌, refl, sym, ap, ◌∙◌, Bool, arith, leb,
  ltb, ◌&&◌, Bool-cases, inl, inr, ltb→lt,
}
use saas_backend_fastapi.Text.Below.{holds_below, at_each}
use saas_backend_fastapi.Text.{digit, emit_digits, decimal}

-- the number that digits spell behind `n`
read : String → ℕ → ℕ
read [] n = n
read (c ∷ s) n = read s (n * 10 + (code c - 48))

abbrev is_code : ℕ → ℕ → Bool
is_code c k = leb c k && leb k c

code-digit : (k : ℕ) → k < 10 → code (digit k) - 48 ≡ k
code-digit k h =
    ground
      (arith, at_each (λ j. is_code (code (digit j) - 48) j) 10 (unfold holds_below in refl) k h)

read-emit_digits :
    (fuel n : ℕ) (out : String) → n < fuel → read (emit_digits fuel n out) 0 ≡ read out n
unfolding emit_digits read
read-emit_digits zero n out h = absurd (omega arith)
read-emit_digits (suc fuel) n out h = elim (Bool-cases (ltb n 10)) [
  | inl small ↦ rw small (ap (read out) (omega (arith, code-digit n (ltb→lt n 10 small))))
  | inr big ↦ rw big (
      read-emit_digits fuel (n / 10) (digit (n % 10) ∷ out) (ground arith)
      ∙ ap (read out) (omega (arith, code-digit (n % 10) (omega arith))))
]

pub decimal_injective : (n m : ℕ) → decimal n ≡ decimal m → n ≡ m
unfolding decimal read
decimal_injective n m h =
    sym (read-emit_digits (suc n) n [] (omega arith))
    ∙ ap (λ s. read s 0) h
    ∙ read-emit_digits (suc m) m [] (omega arith)
