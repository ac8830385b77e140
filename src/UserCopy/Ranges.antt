-- ===== src/UserCopy/Ranges.antt =====
-- `user_range_ok` accepts a range of a user exactly if the user may touch every byte of it.
use aetheroz.Prelude.{
  ℕ, zero, suc, ◌+◌, ◌-◌, ◌*◌, ◌/◌, ◌%◌, ◌^◌, ◌≤◌, ◌<◌, ◌≡◌, ◌↔◌, refl, sym, ap₂, subst, ◌∙◌, inl,
  inr, Bool, true, false, ◌||◌, not, arith, ltb, leb, ◌==◌, if◌then◌else◌, Bool-cases, ==→eq,
}
use aetheroz.UserCopy.{
  UcopyCtx, uc_user_va_max, uc_max_range, page_start, pages_mapped, range_mapped, user_range_ok,
}

module _ (is_mapped : ℕ → Bool) where
  pages_mapped_step :
      (last p n : ℕ)
      → pages_mapped is_mapped last p (suc n) ≡ (
          if not (is_mapped p)
          then false
          else if p == last
          then true
          else pages_mapped is_mapped last ((p + 0x1000) % 2 ^ 64) n)
  unfolding pages_mapped
  pages_mapped_step last p n = refl

  unmapped_first :
      (last p n : ℕ) → is_mapped p ≡ false → pages_mapped is_mapped last p (suc n) ≡ false
  unmapped_first last p n e = pages_mapped_step last p n ∙ rw e refl

  -- All pages from number `q` on, `n` behind the first, are mapped.
  abbrev AllMapped : ℕ → ℕ → Type 0
  AllMapped n q =
      (pages_mapped is_mapped ((q + n) * 4096) (q * 4096) (suc n) ≡ true)
      ↔ ((j : ℕ) → q ≤ j → j ≤ q + n → is_mapped (j * 4096) ≡ true)

  from_first : (n q : ℕ) → (is_mapped (q * 4096) ≡ true → AllMapped n q) → AllMapped n q
  from_first n q mapped = elim (Bool-cases (is_mapped (q * 4096))) [
    | inr bad ↦
        let value = unmapped_first ((q + n) * 4096) (q * 4096) n bad in
        (
          λ e. absurd (let w = sym value ∙ e in cc),
          λ all. absurd (let w = all q (omega arith) (omega arith) in cc),
        )
    | inl good ↦ mapped good
  ]

  pages_mapped_iff : (n q : ℕ) → (q + n) * 4096 < 2 ^ 63 → AllMapped n q
  pages_mapped_iff zero q h = from_first zero q (λ good.
      let only : (q * 4096 == (q + 0) * 4096) ≡ true = ground arith in
      (
        λ e j lo hi. subst (λ y. is_mapped (y * 4096) ≡ true) (omega arith) good,
        λ all. pages_mapped_step ((q + 0) * 4096) (q * 4096) 0 ∙ rw (good, only) refl,
      ))
  pages_mapped_iff (suc n) q h = from_first (suc n) q (λ good.
      let more : (q * 4096 == (q + suc n) * 4096) ≡ false = ground arith in
      let step : (q * 4096 + 0x1000) % 2 ^ 64 ≡ suc q * 4096 = omega arith in
      let last : (q + suc n) * 4096 ≡ (suc q + n) * 4096 = omega arith in
      let rest = pages_mapped_iff n (suc q) (omega arith) in
      let value : pages_mapped is_mapped ((q + suc n) * 4096) (q * 4096) (suc (suc n))
          ≡ pages_mapped is_mapped ((suc q + n) * 4096) (suc q * 4096) (suc n) =
        pages_mapped_step ((q + suc n) * 4096) (q * 4096) (suc n)
        ∙ rw (good, more) (ap₂ (λ l p. pages_mapped is_mapped l p (suc n)) last step) in
      (
        λ e j lo hi. elim (Bool-cases (q == j)) [
          | inl here ↦ subst (λ y. is_mapped (y * 4096) ≡ true) (==→eq _ _ here) good
          | inr later ↦ rest.0 (sym value ∙ e) j (ground arith) (omega arith)
        ],
        λ all. value ∙ rest.1 (λ j lo hi. all j (omega arith) (omega arith)),
      ))

-- The pages of the bytes from `a` up to `b` are those from `a`'s to `b`'s.
range_mapped_iff :
    (is_mapped : ℕ → Bool) (a b : ℕ)
    → a ≤ b
    → b < 2 ^ 62
    → (range_mapped is_mapped (page_start a) (page_start b) ≡ true)
      ↔ ((x : ℕ) → a ≤ x → x ≤ b → is_mapped (page_start x) ≡ true)
unfolding range_mapped
range_mapped_iff is_mapped a b le lt =
    let n = b / 4096 - a / 4096 in
    let ends : b / 4096 ≡ a / 4096 + n = omega arith in
    let rounds : (b / 4096 * 4096 - a / 4096 * 4096) / 4096 + 1 ≡ suc n = omega arith in
    let pages = pages_mapped_iff is_mapped n (a / 4096) (omega arith) in
    let value : pages_mapped is_mapped (b / 4096 * 4096) (a / 4096 * 4096)
          ((b / 4096 * 4096 - a / 4096 * 4096) / 4096 + 1)
        ≡ pages_mapped is_mapped ((a / 4096 + n) * 4096) (a / 4096 * 4096) (suc n) =
      ap₂ (λ l r. pages_mapped is_mapped (l * 4096) (a / 4096 * 4096) r) ends rounds in
    (
      λ e x lo hi. pages.0 (sym value ∙ e) (x / 4096) (omega arith) (omega arith),
      λ all.
          value
          ∙ pages.1 (λ j lo hi. elim (Bool-cases (a / 4096 == j)) [
            | inl first ↦
                subst (λ y. is_mapped (y * 4096) ≡ true) (==→eq _ _ first) (all a (omega arith) le)
            | inr later ↦
                let inner = all (j * 4096) (ground arith) (omega arith) in
                subst (λ y. is_mapped (y * 4096) ≡ true) (omega arith) inner
          ]),
    )

chain_iff :
    (z l w u v r : Bool)
    → l ≡ false
    → u ≡ true
    → ((if z
          then false
          else if l
          then true
          else if w
          then false
          else if not u
          then true
          else if v
          then false
          else r)
        ≡ true)
      ↔ ((z ≡ false) × (w ≡ false) × (v ≡ false) × (r ≡ true))
chain_iff z l w u v r h k = ground arith

word_parts :
    (uaddr len : ℕ)
    → (ltb uc_max_range len || ltb ((uaddr + len) % 2 ^ 64) uaddr) ≡ false
    → (len ≤ uc_max_range) × (uaddr ≤ (uaddr + len) % 2 ^ 64)
word_parts uaddr len h = ground arith

user_parts :
    (uaddr len : ℕ)
    → (leb uc_user_va_max uaddr || ltb (uc_user_va_max - uaddr) len) ≡ false
    → uaddr + len ≤ uc_user_va_max
user_parts uaddr len h = ground arith

-- `user_range_ok` for a range that is not empty, of a caller in ring 3, with 64-bit arguments: it holds
-- exactly if the address is not 0, the length is at most 64 MiB, and every byte of the range lies in the
-- user's half of the address space, on a page that is mapped.
pub user_range_ok_iff :
    (ctx : UcopyCtx) (uaddr len : ℕ)
    → ctx.from_user ≡ true
    → 0 < len
    → uaddr < 2 ^ 64
    → len < 2 ^ 64
    → (user_range_ok ctx uaddr len ≡ true) ↔ (
        (0 < uaddr)
        × (len ≤ uc_max_range)
        × ((x : ℕ)
            → uaddr ≤ x
            → x < uaddr + len
            → (x < uc_user_va_max) × (ctx.is_mapped (page_start x) ≡ true)))
unfolding user_range_ok
user_range_ok_iff ctx uaddr len user some_bytes ha hl =
    let b = uaddr + len - 1 in
    let not_empty : (len == 0) ≡ false = ground arith in
    let tests =
      chain_iff (uaddr == 0) (len == 0) (ltb uc_max_range len || ltb ((uaddr + len) % 2 ^ 64) uaddr)
        ctx.from_user (leb uc_user_va_max uaddr || ltb (uc_user_va_max - uaddr) len)
        (range_mapped ctx.is_mapped (page_start uaddr) (page_start b)) not_empty user in
    (
      λ e.
          let (z, w, v, r) = tests.0 e in
          let (short, _) = word_parts uaddr len w in
          let ends = user_parts uaddr len v in
          let pages = range_mapped_iff ctx.is_mapped uaddr b (omega arith) (omega arith) in
          (ground arith, short, λ x lo hi. (omega arith, pages.0 r x lo (omega arith))),
      λ (given, short, all).
          let low = (all uaddr (omega arith) (omega arith)).0 in
          let high = (all b (omega arith) (omega arith)).0 in
          let pages = range_mapped_iff ctx.is_mapped uaddr b (omega arith) (omega arith) in
          let mapped = pages.1 (λ x lo hi. (all x lo (omega arith)).1) in
          tests.1 (ground arith, ground arith, ground arith, mapped),
    )
