-- ===== src/KyuzenFs/Entries.antt =====
-- The entries of a sector: what one write of an entry leaves, and what a search finds after it.
use aetheroz.Prelude.{
  ℕ, zero, suc, ◌+◌, ◌*◌, ◌^◌, ◌≤◌, ◌<◌, ◌≡◌, ◌≢◌, refl, ap, ap₂, subst, ◌∙◌, inl, inr, true, false,
  not, ◌&&◌, none, some, List, [], ◌∷◌, arith, ltb, leb, ◌==◌, if◌then◌else◌, Bool-cases, length,
  get_or,
}
use aetheroz.Strings.Compare.{IsText}
use aetheroz.KyuzenFs.{Sector, byte_of, word_at}
use aetheroz.KyuzenFs.Directory.{
  Entry, flag_empty, entry_at, entry_byte, put_entry, text_from, name_of, same_name, search_sector,
  empty_slot,
}
use aetheroz.KyuzenFs.Files.{filename_of}

put_entry_in :
    (b : Sector) (i : ℕ) (e : Entry) (k : ℕ)
    → k < 32
    → put_entry b i e (32 * i + k) ≡ entry_byte e k
unfolding put_entry
put_entry_in b i e k h =
    let q : (leb (32 * i) (32 * i + k) && ltb (32 * i + k) (32 * i + 32)) ≡ true = ground arith in
    rw q (ap (entry_byte e) (omega arith))

put_entry_out :
    (b : Sector) (i : ℕ) (e : Entry) (j k : ℕ)
    → i ≢ j
    → k < 32
    → put_entry b i e (32 * j + k) ≡ b (32 * j + k)
unfolding put_entry
put_entry_out b i e j k h hk =
    let q : (leb (32 * i) (32 * j + k) && ltb (32 * j + k) (32 * i + 32)) ≡ false = ground arith in
    rw q refl

module _ (b c : Sector) (j : ℕ) (same : (k : ℕ) → k < 32 → b (32 * j + k) ≡ c (32 * j + k)) where
  same_at : (k d : ℕ) → k + d < 32 → b (32 * j + k + d) ≡ c (32 * j + k + d)
  same_at k d h =
      let q : 32 * j + (k + d) ≡ 32 * j + k + d = omega arith in
      subst (λ x. b x ≡ c x) q (same (k + d) h)

  same_word : (k : ℕ) → k + 3 < 32 → word_at b (32 * j + k) ≡ word_at c (32 * j + k)
  same_word k h = omega (
    arith,
    same k (omega arith),
    same_at k 1 (omega arith),
    same_at k 2 (omega arith),
    same_at k 3 h,
  )

  same_name_byte :
      (k : ℕ) → (if ltb k 23 then b (32 * j + k) else 0) ≡ (if ltb k 23 then c (32 * j + k) else 0)
  same_name_byte k = elim (Bool-cases (ltb k 23)) [
    | inl h ↦ let s = same k (ground arith) in ground arith
    | inr h ↦ rw h refl
  ]

  -- An entry is made of its 32 bytes.
  entry_at_eq : entry_at b j ≡ entry_at c j
  unfolding entry_at
  entry_at_eq = λ t. record {
    filename = λ k. same_name_byte k t;
    flags = same 23 (omega arith) t;
    start_sector = same_word 24 (omega arith) t;
    size_bytes = same_word 28 (omega arith) t;
  }

pub entry_at-put_entry_ne :
    (b : Sector) (i : ℕ) (e : Entry) (j : ℕ) → i ≢ j → entry_at (put_entry b i e) j ≡ entry_at b j
entry_at-put_entry_ne b i e j h =
    entry_at_eq (put_entry b i e) b j (λ k hk. put_entry_out b i e j k h hk)

-- The four bytes of a word.
word_of_bytes :
    (x : ℕ)
    → x < 2 ^ 32
    → byte_of x 0 + 256 * byte_of x 1 + 65536 * byte_of x 2 + 16777216 * byte_of x 3 ≡ x
word_of_bytes x h = omega arith

module _ (b : Sector) (i : ℕ) (e : Entry) where
  in_at : (k d : ℕ) → k + d < 32 → put_entry b i e (32 * i + k + d) ≡ entry_byte e (k + d)
  in_at k d h =
      let q : 32 * i + (k + d) ≡ 32 * i + k + d = omega arith in
      subst (λ x. put_entry b i e x ≡ entry_byte e (k + d)) q (put_entry_in b i e (k + d) h)

  pub put_flags : e.flags < 256 → (entry_at (put_entry b i e) i).flags ≡ e.flags
  unfolding entry_at entry_byte
  put_flags h = put_entry_in b i e 23 (omega arith) ∙ omega arith

  pub put_start :
      e.start_sector < 2 ^ 32 → (entry_at (put_entry b i e) i).start_sector ≡ e.start_sector
  unfolding entry_at entry_byte
  put_start h = omega (
    arith,
    put_entry_in b i e 24 (omega arith),
    in_at 24 1 (omega arith),
    in_at 24 2 (omega arith),
    in_at 24 3 (omega arith),
    word_of_bytes e.start_sector h,
  )

  pub put_size : e.size_bytes < 2 ^ 32 → (entry_at (put_entry b i e) i).size_bytes ≡ e.size_bytes
  unfolding entry_at entry_byte
  put_size h = omega (
    arith,
    put_entry_in b i e 28 (omega arith),
    in_at 28 1 (omega arith),
    in_at 28 2 (omega arith),
    in_at 28 3 (omega arith),
    word_of_bytes e.size_bytes h,
  )

text_from_lem :
    (f : ℕ → ℕ) (s : List ℕ) (k n : ℕ)
    → IsText s
    → ((j : ℕ) → j < length s → f (k + j) ≡ get_or s j 0)
    → f (k + length s) ≡ 0
    → length s < n
    → text_from f k n ≡ s
unfolding text_from
text_from_lem f s k zero t chars ends h = absurd (omega arith)
text_from_lem f [] k (suc n) t chars ends h =
    let q : (f k == 0) ≡ true =
      let z : k + 0 ≡ k = omega arith in ground (arith, subst (λ x. f x ≡ 0) z ends) in
    rw q refl
text_from_lem f (c ∷ s) k (suc n) (positive, t) chars ends h =
    let z : k + 0 ≡ k = omega arith in
    let first : f k ≡ c = subst (λ x. f x ≡ c) z (chars 0 (omega arith)) in
    let q : (f k == 0) ≡ false = ground arith in
    let up : (j : ℕ) → k + suc j ≡ suc k + j = λ j. omega arith in
    let rest =
      text_from_lem f s (suc k) n t
        (λ j l. subst (λ x. f x ≡ get_or s j 0) (up j) (chars (suc j) (omega arith)))
        (subst (λ x. f x ≡ 0) (up (length s)) ends) (omega arith) in
    rw q (ap₂ (λ x xs. x ∷ xs) first rest)

-- The field of a name gives the name back.
pub put_name :
    (b : Sector) (i : ℕ) (e : Entry) (stale : ℕ → ℕ) (name : List ℕ)
    → e.filename ≡ filename_of stale name
    → IsText name
    → length name < 23
    → name_of (entry_at (put_entry b i e) i) ≡ name
unfolding name_of entry_at entry_byte
put_name b i e stale name named t h =
    text_from_lem (λ k. if ltb k 23 then put_entry b i e (32 * i + k) else 0) name 0 23 t
      (λ j l.
        let z : 0 + j ≡ j = omega arith in
        let field = ap (λ (f : ℕ → ℕ). f j) named in
        let byte = put_entry_in b i e j (omega arith) in rw z (ground (arith, byte, field)))
      (let z : 0 + length name ≡ length name = omega arith in
        let field = ap (λ (f : ℕ → ℕ). f (length name)) named in
        let byte = put_entry_in b i e (length name) (omega arith) in
        rw z (ground (arith, byte, field)))
      h

empty_slot-ge : (b : Sector) (i k n : ℕ) → empty_slot b k n ≡ some i → k ≤ i
unfolding empty_slot
empty_slot-ge b i k zero e = ground arith
empty_slot-ge b i k (suc n) e = elim (Bool-cases ((entry_at b k).flags == flag_empty)) [
  | inl free ↦ let h : some k ≡ some i = rw free at e in ground arith
  | inr used ↦ let h = empty_slot-ge b i (suc k) n (rw used at e) in omega arith
]

-- The search for the new entry's name passes the entries in front of it, none of which has the name.
pub search_sector-put_entry :
    (b : Sector) (e : Entry) (name : List ℕ) (i n k : ℕ)
    → not ((entry_at (put_entry b i e) i).flags == flag_empty)
        && same_name (name_of (entry_at (put_entry b i e) i)) name
      ≡ true
    → search_sector b name k n ≡ none
    → empty_slot b k n ≡ some i
    → search_sector (put_entry b i e) name k n ≡ some (entry_at (put_entry b i e) i, i)
unfolding search_sector empty_slot
search_sector-put_entry b e name i zero k fits missing slot = ground arith
search_sector-put_entry b e name i (suc n) k fits missing slot =
    elim (Bool-cases ((entry_at b k).flags == flag_empty)) [
      | inl free ↦
          let here : some k ≡ some i = rw free at slot in
          let same : i ≡ k = ground arith in
          subst
            (λ x.
              search_sector (put_entry b i e) name x (suc n)
              ≡ some (entry_at (put_entry b i e) i, i))
            same (rw fits refl)
      | inr used ↦
          let rest : empty_slot b (suc k) n ≡ some i = rw used at slot in
          let apart : i ≢ k = λ q. absurd (omega (arith, empty_slot-ge b i (suc k) n rest)) in
          elim (Bool-cases
            (not ((entry_at b k).flags == flag_empty) && same_name (name_of (entry_at b k)) name)) [
              | inl hit ↦ absurd (let h = rw hit at missing in ground arith)
              | inr miss ↦ rw (entry_at-put_entry_ne b i e k apart) (
                  rw miss
                    (search_sector-put_entry b e name i n (suc k) fits (rw miss at missing) rest))
            ]
    ]
