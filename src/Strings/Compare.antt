-- ===== src/Strings/Compare.antt =====
-- The comparison and the copy of C strings.
use aetheroz.Prelude.{
  ℕ, zero, suc, ◌<◌, ◌≡◌, ◌↔◌, refl, ap, subst, List, [], ◌∷◌, arith, length, get_or, take,
}
use aetheroz.Prelude.Int.{pos}
use aetheroz.Strings.{strcmp, strncmp, strncpy}

-- The bytes of a C string: none of them is the terminator.
abbrev pub IsText : List ℕ → Type 0
IsText [] = ◌≡◌ {A = ℕ} 0 0
IsText (c ∷ s) = (0 < c) × IsText s

same_text : (s1 s2 : List ℕ) → IsText s1 → IsText s2 → strcmp s1 s2 ≡ pos 0 → s1 ≡ s2
unfolding strcmp
same_text [] [] t t' e = refl
same_text [] (c ∷ s2) t t' e = absurd (ground arith)
same_text (c ∷ s1) [] t t' e = absurd (ground arith)
same_text (c ∷ s1) (c' ∷ s2) t t' e = ground (arith, same_text s1 s2 t.1 t'.1)

pub strcmp_self : (s : List ℕ) → strcmp s s ≡ pos 0
unfolding strcmp
strcmp_self [] = refl
strcmp_self (c ∷ s) = ground (arith, strcmp_self s)

-- `strcmp` of two strings, whose characters are not the terminator, returns 0 exactly if they are equal.
strcmp-eq-zero_iff : (s1 s2 : List ℕ) → IsText s1 → IsText s2 → (strcmp s1 s2 ≡ pos 0) ↔ (s1 ≡ s2)
strcmp-eq-zero_iff s1 s2 t t' =
    (same_text s1 s2 t t', λ e. subst (λ s. strcmp s1 s ≡ pos 0) e (strcmp_self s1))

-- `strncmp` compares as `strcmp` does the first `n` characters.
strncmp_lem : (s1 s2 : List ℕ) (n : ℕ) → strncmp s1 s2 n ≡ strcmp (take n s1) (take n s2)
unfolding strncmp strcmp
strncmp_lem s1 s2 zero = refl
strncmp_lem [] [] (suc n) = refl
strncmp_lem [] (c ∷ s2) (suc n) = refl
strncmp_lem (c ∷ s1) [] (suc n) = refl
strncmp_lem (c ∷ s1) (c' ∷ s2) (suc n) = ground (arith, strncmp_lem s1 s2 n)

length-strncpy : (s : List ℕ) (n : ℕ) → length (strncpy s n) ≡ n
unfolding strncpy
length-strncpy s zero = refl
length-strncpy [] (suc n) = ap suc (length-strncpy [] n)
length-strncpy (c ∷ s) (suc n) = ap suc (length-strncpy s n)

char_at-strncpy : (s : List ℕ) (n i : ℕ) → i < n → get_or (strncpy s n) i 0 ≡ get_or s i 0
unfolding strncpy
char_at-strncpy s zero i h = absurd (omega arith)
char_at-strncpy [] (suc n) zero h = refl
char_at-strncpy [] (suc n) (suc i) h = char_at-strncpy [] n i (omega arith)
char_at-strncpy (c ∷ s) (suc n) zero h = refl
char_at-strncpy (c ∷ s) (suc n) (suc i) h = char_at-strncpy s n i (omega arith)

-- `strncpy` writes exactly `n` bytes: the first `n` of the string, with zeros behind its end.
strncpy_lem :
    (s : List ℕ) (n : ℕ)
    → (length (strncpy s n) ≡ n) × ((i : ℕ) → i < n → get_or (strncpy s n) i 0 ≡ get_or s i 0)
strncpy_lem s n = (length-strncpy s n, char_at-strncpy s n)
