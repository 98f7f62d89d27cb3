-- ===== src/Prelude/Words.antt =====
-- Machine words as native numbers, and checks of a whole small range by evaluation.
use Prim.Native.Nat.{ℕ, zero, suc, ◌+◌, ◌-◌, ◌*◌, ◌%◌, ◌^◌, ◌<◌}
use mathlib.Core.Path.{◌≡◌}
use mathlib.Core.Bool.{Bool, true, ◌&&◌}
use native.Mathlib.Omega.{arith}

-- The number of values of a size_t or a uintptr_t.
abbrev pub word : ℕ
word = 2 ^ 64

-- SIZE_MAX and UINTPTR_MAX.
abbrev pub size_max : ℕ
size_max = 2 ^ 64 - 1

-- Sum, difference and product of 64-bit words, which wrap.
abbrev pub add64 : ℕ → ℕ → ℕ
add64 a b = (a + b) % 2 ^ 64

abbrev pub sub64 : ℕ → ℕ → ℕ
sub64 a b = (a + 2 ^ 64 - b) % 2 ^ 64

abbrev pub mul64 : ℕ → ℕ → ℕ
mul64 a b = (a * b) % 2 ^ 64

unfoldable pub holds_to : (bound : ℕ) → (ℕ → Bool) → Bool
holds_to zero test = true
holds_to (suc last) test = holds_to last test && test last

pub holds_to_sound :
    (bound : ℕ) (test : ℕ → Bool) (at : ℕ)
    → holds_to bound test ≡ true
    → at < bound
    → test at ≡ true
unfolding holds_to
holds_to_sound zero test at every within = absurd (omega arith)
holds_to_sound (suc last) test at every within = ground (arith, holds_to_sound last test at)
