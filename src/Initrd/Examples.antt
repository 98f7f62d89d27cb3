-- ===== src/Initrd/Examples.antt =====
-- A small tar archive in memory.
use creeper_os_v.Prelude.{
  ℕ, ◌≡◌, ◌&&◌, refl, true, ◌||◌, if◌then◌else◌, leb, ltb, ◌==◌, some, List, [], ◌∷◌, length, arith,
}
use creeper_os_v.Memops.{Mem}
use creeper_os_v.Initrd.{headers, no_memory, parse_tar, normalize_tar_path}
use creeper_os_v.Initrd.Archive.{IsArchive, header_addresses, parse_tar-addresses}

-- A file of 20 bytes and an empty one, with one-letter names.
abbrev two_files : Mem
two_files a =
    if (a == 0) || (a == 1024)
    then 97
    else if a == 134
    then 52
    else if a == 133
    then 50
    else if (leb 124 a && ltb a 133) || (leb 1148 a && ltb a 1159)
    then 48
    else 0

abbrev sizes : List ℕ
sizes = 20 ∷ 0 ∷ []

two_files-IsArchive : IsArchive two_files 0 sizes
two_files-IsArchive = (
  λ e. omega (arith, e),
  (refl, (refl, (refl, (refl, (refl, (refl, (refl, (refl, (refl, (refl, (refl, tt))))))))))),
  omega arith,
  omega arith,
  (
    λ e. omega (arith, e),
    (refl, (refl, (refl, (refl, (refl, (refl, (refl, (refl, (refl, (refl, (refl, tt))))))))))),
    omega arith,
    omega arith,
    refl,
  ),
)

parse_tar_example :
    parse_tar 3 true 0 two_files
    ≡ some (
        if true
        then headers (header_addresses 0 sizes)
        else if length sizes == 0
        then headers []
        else no_memory)
parse_tar_example =
    parse_tar-addresses 3 true 0 sizes two_files two_files-IsArchive (omega arith) (omega arith)

-- "./" and leading slashes go.
normalizes : normalize_tar_path (46 ∷ 47 ∷ 47 ∷ 97 ∷ []) ≡ 97 ∷ []
unfolding normalize_tar_path
normalizes = refl
