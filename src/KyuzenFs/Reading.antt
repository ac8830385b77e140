-- ===== src/KyuzenFs/Reading.antt =====
-- `read_data` gives back the bytes of a stored chain.
use aetheroz.Prelude.{
  ℕ, zero, suc, ◌+◌, ◌-◌, ◌*◌, ◌≤◌, ◌<◌, ◌≡◌, refl, sym, ap, ap₂, subst, ◌∙◌, inl, inr, true, false,
  ◌||◌, ◌&&◌, arith, ltb, leb, ◌==◌, if◌then◌else◌, Bool-cases,
}
use aetheroz.KyuzenFs.{Sector, Fs}
use aetheroz.KyuzenFs.Directory.{is_end}
use aetheroz.KyuzenFs.Files.{chunk_of, copied_in, read_data}
use aetheroz.KyuzenFs.Data.{Stored, no_end}

read_none : (fs : Fs) (fuel s offset : ℕ) (out : ℕ → ℕ) → read_data fs fuel s offset 0 out ≡ out
unfolding read_data
read_none fs zero s offset out = refl
read_none fs (suc fuel) s offset out =
    let q : (is_end s || 0 == 0) ≡ true = ground arith in rw q refl

-- A sector's bytes, and what the rest of the read does.
copied_chunk :
    (b : Sector) (buf out : ℕ → ℕ) (offset remaining i : ℕ)
    → ((j : ℕ) → j < 512 → offset + j < offset + remaining → b j ≡ buf (offset + j))
    → (if leb (offset + chunk_of remaining) i && ltb i (offset + remaining)
        then buf i
        else copied_in out offset b (chunk_of remaining) i)
      ≡ (if leb offset i && ltb i (offset + remaining) then buf i else out i)
copied_chunk b buf out offset remaining i same =
    elim (Bool-cases (leb offset i && ltb i (offset + chunk_of remaining))) [
      | inl here ↦
          let bound : (offset ≤ i) × (i < offset + chunk_of remaining) = ground arith in
          let at_i : offset + (i - offset) ≡ i = omega arith in
          let held = same (i - offset) (ground arith) (ground arith) in
          ground (arith, held, ap buf at_i)
      | inr there ↦ ground arith
    ]

past_end : (a b i x y : ℕ) → a ≡ b → (if leb a i && ltb i b then x else y) ≡ y
past_end a b i x y h = ground arith

-- The bytes of a stored chain, with a round of fuel for each sector.
pub read_data_lem :
    (n fuel : ℕ) (old : ℕ → ℕ) (fs : Fs) (buf : ℕ → ℕ) (offset s remaining : ℕ) (out : ℕ → ℕ)
    (i : ℕ)
    → Stored old fs buf (offset + remaining) offset s n
    → remaining ≤ 512 * n
    → n ≤ fuel
    → read_data fs fuel s offset remaining out i
      ≡ (if leb offset i && ltb i (offset + remaining) then buf i else out i)
unfolding Stored read_data
read_data_lem zero fuel old fs buf offset s remaining out i stored whole enough =
    let none_left : remaining ≡ 0 = omega arith in
    rw none_left (ap (λ f. f i) (read_none fs fuel s offset out) ∙ ground arith)
read_data_lem (suc n) zero old fs buf offset s remaining out i stored whole enough =
    absurd (omega arith)
read_data_lem (suc n) (suc fuel) old fs buf offset s remaining out i
      (positive, low, was, bytes, tail) whole enough =
    let goes_on = no_end s positive low in
    elim (Bool-cases (remaining == 0)) [
      | inl done ↦ let q : (is_end s || remaining == 0) ≡ true = ground arith in rw q (ground arith)
      | inr more ↦
          let q : (is_end s || remaining == 0) ≡ false = ground arith in
          let chunk = chunk_of remaining in
          let out' = copied_in out offset (fs.disk s) chunk in
          let goal = copied_chunk (fs.disk s) buf out offset remaining i bytes in
          rw q (elim (Bool-cases (ltb 512 remaining)) [
            | inl long ↦
                let full : chunk ≡ 512 = rw long refl in
                let over : 512 < remaining = ground arith in
                let same_end : offset + 512 + (remaining - 512) ≡ offset + remaining =
                  omega arith in
                let ih =
                  read_data_lem n fuel old fs buf (offset + 512) (fs.fat s) (remaining - 512) out' i
                    (subst (λ e. Stored old fs buf e (offset + 512) (fs.fat s) n) (sym same_end)
                      tail)
                    (omega arith) (omega arith) in
                ap (λ c. read_data fs fuel (fs.fat s) (offset + c) (remaining - c) out' i) full
                ∙ ih
                ∙ ap₂ (λ c e. if leb (offset + c) i && ltb i e then buf i else out' i) (sym full)
                    same_end
                ∙ goal
            | inr short ↦
                let whole_chunk : chunk ≡ remaining = rw short refl in
                ap (λ r. read_data fs fuel (fs.fat s) (offset + chunk) r out' i)
                  (omega (arith, whole_chunk))
                ∙ ap (λ f. f i) (read_none fs fuel (fs.fat s) (offset + chunk) out')
                ∙ sym (
                    past_end (offset + chunk) (offset + remaining) i (buf i) (out' i)
                      (omega (arith, whole_chunk)))
                ∙ goal
          ])
    ]
