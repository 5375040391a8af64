-- ===== src/Text/Below.antt =====
-- Tests of characters and digits, run over every index.
use saas_backend_fastapi.Prelude.{ℕ, zero, suc, ◌<◌, ◌≡◌, Bool, true, ◌&&◌, arith}

unfoldable pub holds_below : (test : ℕ → Bool) (bound : ℕ) → Bool
holds_below test zero = true
holds_below test (suc bound) = holds_below test bound && test bound

pub at_each :
    (test : ℕ → Bool) (bound : ℕ)
    → holds_below test bound ≡ true
    → (i : ℕ) → i < bound
    → test i ≡ true
unfolding holds_below
at_each test zero run i lt = absurd (omega arith)
at_each test (suc bound) run i lt =
    let earlier : i < bound → test i ≡ true = at_each test bound (ground arith) i in ground arith
