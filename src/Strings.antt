-- ===== src/Strings.antt =====
-- kernel/string.c. The functions on blocks of memory run on a memory, a function from addresses to
-- bytes; a block does not go round the end of the address space. A C string is the list of its bytes
-- before the terminator, and `s[i]` is 0 behind the last.
pub mod Blocks
pub mod Compare
mod Witnesses
use aetheroz.Prelude.{
  ℕ, zero, suc, ◌+◌, ◌-◌, ◌%◌, ◌^◌, Bool, true, false, ◌&&◌, ◌||◌, not, List, [], ◌∷◌, ltb, leb,
  ◌==◌, if◌then◌else◌, update,
}
use aetheroz.Prelude.Int.{ℤ, sub_ℕ}

abbrev pub Memory : Type 0
Memory = ℕ → ℕ

-- `for (i = 0; i < n; i++) d[i] = s[i]`, with `n` rounds to go.
unfoldable pub copy_up : Memory → ℕ → ℕ → ℕ → Memory
copy_up m d s zero = m
copy_up m d s (suc n) = copy_up (update m d (m s)) (d + 1) (s + 1) n

-- `for (i = n; i > 0; i--) d[i - 1] = s[i - 1]`
unfoldable pub copy_down : Memory → ℕ → ℕ → ℕ → Memory
copy_down m d s zero = m
copy_down m d s (suc n) = copy_down (update m (d + n) (m (s + n))) d s n

unfoldable pub memcpy : Memory → ℕ → ℕ → ℕ → Memory
memcpy m dest src n = copy_up m dest src n

unfoldable pub memmove : Memory → ℕ → ℕ → ℕ → Memory
memmove m dest src n =
    if dest == src || n == 0
    then m
    else if ltb dest src || leb (src + n) dest
    then copy_up m dest src n
    else copy_down m dest src n

-- The value is cut to a byte.
unfoldable pub memset : Memory → ℕ → ℕ → ℕ → Memory
memset m s c zero = m
memset m s c (suc n) = memset (update m s (c % 256)) (s + 1) c n

unfoldable pub memcmp : Memory → ℕ → ℕ → ℕ → ℤ
memcmp m s1 s2 zero = sub_ℕ 0 0
memcmp m s1 s2 (suc n) =
    let rest = memcmp m (s1 + 1) (s2 + 1) n in if m s1 == m s2 then rest else sub_ℕ (m s1) (m s2)

unfoldable pub strlen : List ℕ → ℕ
strlen [] = 0
strlen (c ∷ s) = strlen s + 1

-- The byte that a string begins with, or its terminator.
abbrev pub first_char : List ℕ → ℕ
first_char [] = 0
first_char (c ∷ s) = c

unfoldable pub strcmp : List ℕ → List ℕ → ℤ
strcmp [] s2 = sub_ℕ 0 (first_char s2)
strcmp (c ∷ s1) [] = sub_ℕ c 0
strcmp (c ∷ s1) (c' ∷ s2) =
    let rest = strcmp s1 s2 in if not (c == 0) && c == c' then rest else sub_ℕ c c'

unfoldable pub strncmp : List ℕ → List ℕ → ℕ → ℤ
strncmp s1 s2 zero = sub_ℕ 0 0
strncmp [] s2 (suc n) = sub_ℕ 0 (first_char s2)
strncmp (c ∷ s1) [] (suc n) = sub_ℕ c 0
strncmp (c ∷ s1) (c' ∷ s2) (suc n) =
    let rest = strncmp s1 s2 n in if not (c == 0) && c == c' then rest else sub_ℕ c c'

-- The bytes that are written to `dest`.
unfoldable pub strncpy : List ℕ → ℕ → List ℕ
strncpy s zero = []
strncpy [] (suc n) = 0 ∷ strncpy [] n
strncpy (c ∷ s) (suc n) = c ∷ strncpy s n
