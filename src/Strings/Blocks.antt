-- ===== src/Strings/Blocks.antt =====
-- The functions on blocks against what a block holds before and after.
use aetheroz.Prelude.{
  ℕ, zero, suc, ◌+◌, ◌-◌, ◌≤◌, ◌<◌, ◌≡◌, ◌≢◌, subst, ap, update_self, update_ne, ◌↔◌, ◌%◌, refl,
  ◌∙◌, ◌⊎◌, inl, inr, arith, Bool-cases, ltb, leb, ◌==◌, ◌&&◌, ◌||◌, if◌then◌else◌, update, ==→eq,
  ==→ne,
}
use aetheroz.Prelude.Int.{pos}
use aetheroz.Strings.{Memory, copy_up, copy_down, memcpy, memmove, memset, memcmp}

-- The memory in which the block at `d` holds what the block at `s` held.
abbrev pub copied : Memory → ℕ → ℕ → ℕ → Memory
copied m d s n x = if leb d x && ltb x (d + n) then m (s + (x - d)) else m x

-- The first byte that is copied, and the others.
copied_first : (m : Memory) (d s n : ℕ) → copied m d s (suc n) d ≡ m s
copied_first m d s n = ground (arith, ap m {x = s + (d - d)} {y = s} (omega arith))

copied_others :
    (m m' : Memory) (d s n x : ℕ)
    → d ≢ x
    → m' x ≡ m x
    → (x < d + suc n → d < x → m' (s + (x - d)) ≡ m (s + (x - d)))
    → copied m' (d + 1) (s + 1) n x ≡ copied m d s (suc n) x
copied_others m m' d s n x ne keep read = elim (Bool-cases (leb (d + 1) x && ltb x (d + suc n))) [
  | inl inside ↦
      let lo : d < x = ground arith in
      let hi : x < d + suc n = ground arith in
      ground (arith, ap m' {x = s + 1 + (x - (d + 1))} {y = s + (x - d)} (omega arith), read hi lo)
  | inr outside ↦ ground arith
]

copy_up-copied :
    (m : Memory) (d s n x : ℕ) → (d ≤ s) ⊎ (s + n ≤ d) → copy_up m d s n x ≡ copied m d s n x
unfolding copy_up
copy_up-copied m d s zero x h = ground arith
copy_up-copied m d s (suc n) x h =
    let m' = update m d (m s) in
    copy_up-copied m' (d + 1) (s + 1) n x
      (elim h [ inl l ↦ inl (omega arith) | inr r ↦ inr (omega arith) ])
    ∙ elim (Bool-cases (d == x)) [
      | inl e ↦
          subst (λ y. copied m' (d + 1) (s + 1) n y ≡ copied m d s (suc n) y) (==→eq _ _ e)
            (ground (arith, copied_first m d s n, update_self m d (m s)))
      | inr e ↦
          copied_others m m' d s n x (==→ne _ _ e) (update_ne m d (m s) (==→ne _ _ e))
            (λ hi lo. update_ne m d (m s) (elim h [ inl l ↦ omega arith | inr r ↦ omega arith ]))
    ]

copy_down-copied : (m : Memory) (d s n x : ℕ) → s ≤ d → copy_down m d s n x ≡ copied m d s n x
unfolding copy_down
copy_down-copied m d s zero x h = ground arith
copy_down-copied m d s (suc n) x h =
    let m' = update m (d + n) (m (s + n)) in
    copy_down-copied m' d s n x h ∙ elim (Bool-cases (d + n == x)) [
      | inl e ↦
          let q = ==→eq _ _ e in ground (arith, ap m {x = s + n} {y = s + (x - d)} (omega arith))
      | inr e ↦
          let ne = ==→ne _ _ e in
          elim (Bool-cases (leb d x && ltb x (d + n))) [
            | inl inside ↦
                let lo : d ≤ x = ground arith in
                let hi : x < d + n = ground arith in
                ground (arith, ne, update_ne m (d + n) (m (s + n)) {j = s + (x - d)} (omega arith))
            | inr outside ↦ ground (arith, ne)
          ]
    ]

-- `memmove` copies the block as it was before the call, whether the two blocks overlap or not, and
-- touches nothing else.
pub memmove_lem : (m : Memory) (dest src n x : ℕ) → memmove m dest src n x ≡ copied m dest src n x
unfolding memmove
memmove_lem m dest src n x = elim (Bool-cases (dest == src || n == 0)) [
  | inl e ↦ rw e (elim (Bool-cases (leb dest x && ltb x (dest + n))) [
    | inl inside ↦ let same : x ≡ src + (x - dest) = ground arith in ground (arith, ap m same)
    | inr outside ↦ ground arith
  ])
  | inr e ↦ elim (Bool-cases (ltb dest src || leb (src + n) dest)) [
    | inl f ↦
        rw (e, f)
          (copy_up-copied m dest src n x (elim (Bool-cases (ltb dest src)) [
            | inl l ↦ inl (ground arith)
            | inr r ↦ inr (ground arith)
          ]))
    | inr f ↦ rw (e, f) (copy_down-copied m dest src n x (ground arith))
  ]
]

-- `memset` writes the low byte of the value to each byte of the block, and touches nothing else.
pub memset_lem :
    (m : Memory) (s c n x : ℕ)
    → memset m s c n x ≡ (if leb s x && ltb x (s + n) then c % 256 else m x)
unfolding memset
memset_lem m s c zero x = ground arith
memset_lem m s c (suc n) x = ground (arith, memset_lem (update m s (c % 256)) (s + 1) c n x)

memcmp_same :
    (m : Memory) (s1 s2 n : ℕ)
    → memcmp m s1 s2 n ≡ pos 0
    → (i : ℕ) → i < n
    → m (s1 + i) ≡ m (s2 + i)
unfolding memcmp
memcmp_same m s1 s2 zero z i h = absurd (omega arith)
memcmp_same m s1 s2 (suc n) z zero h =
    ground
      (arith, ap m {x = s1 + 0} {y = s1} (omega arith), ap m {x = s2 + 0} {y = s2} (omega arith))
memcmp_same m s1 s2 (suc n) z (suc i) h = ground (
  arith,
  memcmp_same m (s1 + 1) (s2 + 1) n,
  memcmp_same m (s1 + 1) (s2 + 1) n (ground arith) i (omega arith),
  ap m {x = s1 + suc i} {y = s1 + 1 + i} (omega arith),
  ap m {x = s2 + suc i} {y = s2 + 1 + i} (omega arith),
)

memcmp_zero :
    (m : Memory) (s1 s2 n : ℕ)
    → ((i : ℕ) → i < n → m (s1 + i) ≡ m (s2 + i))
    → memcmp m s1 s2 n ≡ pos 0
unfolding memcmp
memcmp_zero m s1 s2 zero h = refl
memcmp_zero m s1 s2 (suc n) h =
    let first : m s1 ≡ m s2 = ap m (omega arith) ∙ h 0 (omega arith) ∙ ap m (omega arith) in
    let rest =
      memcmp_zero m (s1 + 1) (s2 + 1) n
        (λ i k. ap m (omega arith) ∙ h (suc i) (omega arith) ∙ ap m (omega arith)) in
    ground (arith, first, rest)

-- `memcmp` returns 0 exactly if the two blocks hold the same bytes.
pub memcmp-eq-zero_iff :
    (m : Memory) (s1 s2 n : ℕ)
    → (memcmp m s1 s2 n ≡ pos 0) ↔ ((i : ℕ) → i < n → m (s1 + i) ≡ m (s2 + i))
memcmp-eq-zero_iff m s1 s2 n = (memcmp_same m s1 s2 n, memcmp_zero m s1 s2 n)

-- `memcpy` of blocks that do not overlap, or where the copy lies below, is the copy through a buffer.
pub memcpy_lem :
    (m : Memory) (d s n x : ℕ) → (d ≤ s) ⊎ (s + n ≤ d) → memcpy m d s n x ≡ copied m d s n x
unfolding memcpy
memcpy_lem m d s n x h = copy_up-copied m d s n x h
