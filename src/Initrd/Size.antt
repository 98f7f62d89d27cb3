-- ===== src/Initrd/Size.antt =====
-- The octal sizes of kernel/src/initrd_parse/initrd.c.
use creeper_os_v.Prelude.{ℕ, zero, suc, ◌+◌, ◌-◌, ◌*◌, ◌/◌, ◌%◌, ◌^◌, ◌<◌, ◌≡◌, ap, ◌∙◌, arith}
use creeper_os_v.Memops.{Mem}
use creeper_os_v.Initrd.{char_value, tar_digits, get_tar_size}

-- The `j` characters from `at` on are the octal digits of the size, the last one behind.
abbrev pub OctalField : Mem → (at size j : ℕ) → Type 0
OctalField m at size zero = Unit {0}
OctalField m at size (suc j) = (m (at + j) ≡ 48 + size % 8) × OctalField m at (size / 8) j

-- One round: a digit is worth its place.
digit_round :
    (j count size at rest : ℕ) (m : Mem)
    → m (at + j) ≡ 48 + rest % 8
    → tar_digits (suc j) count size at m
      ≡ tar_digits j (count * 8 % 2 ^ 32) ((size + (rest % 8 + 2 ^ 32) * count) % 2 ^ 32) at m
unfolding tar_digits
digit_round j count size at rest m e =
    let value : char_value (m (at + j)) + 2 ^ 32 - 48 ≡ rest % 8 + 2 ^ 32 = ground (arith, e) in
    ap (λ d. tar_digits j (count * 8 % 2 ^ 32) ((size + d * count) % 2 ^ 32) at m) value

-- For eleven octal digits of a size below 4 GiB, `get_tar_size` returns the size.
pub get_tar_size-Octal :
    (at size : ℕ) (m : Mem) → OctalField m at size 11 → size < 2 ^ 32 → get_tar_size at m ≡ size
unfolding get_tar_size
get_tar_size-Octal at size m f small =
    digit_round 10 1 0 at size m f.0
    ∙ digit_round 9 8 _ at (size / 8) m f.1.0
    ∙ digit_round 8 64 _ at (size / 8 / 8) m f.1.1.0
    ∙ digit_round 7 512 _ at (size / 8 / 8 / 8) m f.1.1.1.0
    ∙ digit_round 6 4096 _ at (size / 8 / 8 / 8 / 8) m f.1.1.1.1.0
    ∙ digit_round 5 32768 _ at (size / 8 / 8 / 8 / 8 / 8) m f.1.1.1.1.1.0
    ∙ digit_round 4 262144 _ at (size / 8 / 8 / 8 / 8 / 8 / 8) m f.1.1.1.1.1.1.0
    ∙ digit_round 3 2097152 _ at (size / 8 / 8 / 8 / 8 / 8 / 8 / 8) m f.1.1.1.1.1.1.1.0
    ∙ digit_round 2 16777216 _ at (size / 8 / 8 / 8 / 8 / 8 / 8 / 8 / 8) m f.1.1.1.1.1.1.1.1.0
    ∙ digit_round 1 134217728 _ at (size / 8 / 8 / 8 / 8 / 8 / 8 / 8 / 8 / 8) m
        f.1.1.1.1.1.1.1.1.1.0
    ∙ digit_round 0 1073741824 _ at (size / 8 / 8 / 8 / 8 / 8 / 8 / 8 / 8 / 8 / 8) m
        f.1.1.1.1.1.1.1.1.1.1.0
    ∙ omega (arith, small)
