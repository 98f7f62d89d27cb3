-- ===== src/Vfs/Text.antt =====
-- Texts are the bytes before the NUL. What kernel/src/vfs/fs.c uses of kernel/src/string/string.c.
use creeper_os_v.Prelude.{
  ℕ, Bool, true, false, ◌&&◌, Option, none, some, List, [], ◌∷◌, if◌then◌else◌, ◌==◌,
}

abbrev pub slash : ℕ
slash = 47

abbrev pub dot : ℕ
dot = 46

-- strcmp(s1, s2) == 0
unfoldable pub same_text : List ℕ → List ℕ → Bool
same_text [] [] = true
same_text [] (b ∷ bs) = false
same_text (a ∷ as1) [] = false
same_text (a ∷ as1) (b ∷ bs) = a == b && same_text as1 bs

-- strtok_r with the delimiter "/": `while (*str && strchr(delim, *str)) str++`
unfoldable pub skip_slashes : List ℕ → List ℕ
skip_slashes [] = []
skip_slashes (c ∷ cs) = if c == slash then skip_slashes cs else c ∷ cs

-- `while (*str && !strchr(delim, *str)) str++`: the token, and what `saveptr` is left at.
unfoldable pub token_end : List ℕ → List ℕ × List ℕ
token_end [] = ([], [])
token_end (c ∷ cs) = if c == slash then ([], cs) else (c ∷ (token_end cs).0, (token_end cs).1)

unfoldable pub strtok_r : List ℕ → Option (List ℕ × List ℕ)
unfolding skip_slashes token_end
strtok_r cs = elim (skip_slashes cs) [ [] ↦ none | c ∷ rest ↦ some (token_end (c ∷ rest)) ]

-- strrchr(text, '/'): what stands before the last slash and what behind it.
unfoldable pub strrchr_slash : List ℕ → Option (List ℕ × List ℕ)
strrchr_slash [] = none
strrchr_slash (c ∷ cs) = elim (strrchr_slash cs) [
  | some (front, back) ↦ some (c ∷ front, back)
  | none ↦ if c == slash then some ([], cs) else none
]
