-- ===== src/KyuzenFs/Kept.antt =====
-- What stays of a directory while new sectors are taken: its chain, and what a search finds.
use aetheroz.Prelude.{
  ℕ, zero, suc, ◌+◌, ◌≤◌, ◌<◌, ◌≡◌, ◌≢◌, refl, sym, ap, ap₂, subst, ◌∙◌, ◌⊎◌, inl, inr, true, false,
  Option, none, some, List, arith, ltb, if◌then◌else◌, Bool-cases, Option-cases,
}
use aetheroz.KyuzenFs.{Sector, Fs, count_free}
use aetheroz.KyuzenFs.Directory.{
  Entry, Found, search_sector, empty_slot, is_end, or_rest, found_in, search_chain, chain_fuel,
  find_entry_in, vacant, full_after, vacant_or, find_slot,
}
use aetheroz.KyuzenFs.Data.{Stored}

-- The taken sectors behind the table are as they were.
pub record Kept (a b : Fs) : Type 0 where
  pub fat_kept : (x : ℕ) → a.fat x ≢ 0 → b.fat x ≡ a.fat x
  pub disk_kept : (x : ℕ) → a.fat_sectors < x → a.fat x ≢ 0 → b.disk x ≡ a.disk x

-- The chain ends within `fuel` rounds, and its sectors are taken and stand behind the table. On such a
-- chain the loops end before their fuel does, which `search_chain_fuel` and `find_slot_fuel` say.
unfoldable pub OnTable : Fs → ℕ → ℕ → Type 0
OnTable fs zero s = ◌≡◌ {A = ℕ} 0 1
OnTable fs (suc fuel) s =
    (is_end s ≡ true) ⊎ ((fs.fat_sectors < s) × (fs.fat s ≢ 0) × OnTable fs fuel (fs.fat s))

module _ (a b : Fs) (k : Kept a b) where
  pub search_chain-Kept :
      (name : List ℕ) (fuel s : ℕ)
      → OnTable a fuel s
      → search_chain b name s fuel ≡ search_chain a name s fuel
  unfolding search_chain OnTable
  search_chain-Kept name zero s on = absurd (ground arith)
  search_chain-Kept name (suc fuel) s (inl ends) = rw ends refl
  search_chain-Kept name (suc fuel) s (inr (behind, taken, on)) =
      let same = k.disk_kept s behind taken in
      let next = k.fat_kept s taken in
      ap₂ (λ d r. if is_end s then none else or_rest (found_in s (search_sector d name 0 16)) r)
        same (ap (λ x. search_chain b name x fuel) next ∙ search_chain-Kept name fuel (a.fat s) on)

  pub find_slot-Kept :
      (fuel last s : ℕ) → OnTable a fuel s → find_slot b last s fuel ≡ find_slot a last s fuel
  unfolding find_slot OnTable
  find_slot-Kept zero last s on = absurd (ground arith)
  find_slot-Kept (suc fuel) last s (inl ends) = rw ends refl
  find_slot-Kept (suc fuel) last s (inr (behind, taken, on)) =
      let same = k.disk_kept s behind taken in
      let next = k.fat_kept s taken in
      ap₂ (λ d r. if is_end s then full_after last else vacant_or s (empty_slot d 0 16) r) same
        (ap (λ x. find_slot b s x fuel) next ∙ find_slot-Kept fuel s (a.fat s) on)

-- More fuel finds the same entry.
search_chain_fuel :
    (a : Fs) (name : List ℕ) (fuel more s : ℕ)
    → OnTable a fuel s
    → fuel ≤ more
    → search_chain a name s more ≡ search_chain a name s fuel
unfolding search_chain OnTable
search_chain_fuel a name zero more s on le = absurd (ground arith)
search_chain_fuel a name (suc fuel) zero s on le = absurd (omega arith)
search_chain_fuel a name (suc fuel) (suc more) s (inl ends) le = rw ends refl
search_chain_fuel a name (suc fuel) (suc more) s (inr (behind, taken, on)) le =
    ap (λ r. if is_end s then none else or_rest (found_in s (search_sector (a.disk s) name 0 16)) r)
      (search_chain_fuel a name fuel more (a.fat s) on (omega arith))

-- More fuel finds the same slot.
find_slot_fuel :
    (a : Fs) (fuel more last s : ℕ)
    → OnTable a fuel s
    → fuel ≤ more
    → find_slot a last s more ≡ find_slot a last s fuel
unfolding find_slot OnTable
find_slot_fuel a zero more last s on le = absurd (ground arith)
find_slot_fuel a (suc fuel) zero last s on le = absurd (omega arith)
find_slot_fuel a (suc fuel) (suc more) last s (inl ends) le = rw ends refl
find_slot_fuel a (suc fuel) (suc more) last s (inr (behind, taken, on)) le =
    ap (λ r. if is_end s then full_after last else vacant_or s (empty_slot (a.disk s) 0 16) r)
      (find_slot_fuel a fuel more s (a.fat s) on (omega arith))

-- A free slot stands in a sector of the chain.
pub find_slot-OnTable :
    (a : Fs) (t i fuel last s : ℕ)
    → OnTable a fuel s
    → find_slot a last s fuel ≡ vacant t i
    → (is_end t ≡ false) × (a.fat_sectors < t) × (a.fat t ≢ 0)
unfolding find_slot OnTable
find_slot-OnTable a t i zero last s on e = absurd (ground arith)
find_slot-OnTable a t i (suc fuel) last s (inl ends) e =
    absurd (let q : full_after last ≡ vacant t i = rw ends at e in ground arith)
find_slot-OnTable a t i (suc fuel) last s (inr (behind, taken, on)) e =
    elim (Bool-cases (is_end s)) [
      | inl ends ↦ absurd (let q : full_after last ≡ vacant t i = rw ends at e in ground arith)
      | inr goes_on ↦ elim (Option-cases (empty_slot (a.disk s) 0 16)) [
        | inl full ↦ find_slot-OnTable a t i fuel s (a.fat s) on (rw (goes_on, full) at e)
        | inr (j, free) ↦
            let here : vacant s j ≡ vacant t i = rw (goes_on, free) at e in
            let at_t : s ≡ t = ground arith in
            subst (λ x. (is_end x ≡ false) × (a.fat_sectors < x) × (a.fat x ≢ 0)) at_t
              (goes_on, behind, taken)
      ]
    ]

abbrev sector_or_zero : Option Found → ℕ
sector_or_zero none = 0
sector_or_zero (some (_, t, _)) = t

some_sector :
    {e e' : Entry} {s t i j : ℕ} → ◌≡◌ {A = Option Found} (some (e', s, j)) (some (e, t, i)) → s ≡ t
some_sector q = ap sector_or_zero q

search_chain-OnTable :
    (a : Fs) (name : List ℕ) (e : Entry) (t i fuel s : ℕ)
    → OnTable a fuel s
    → search_chain a name s fuel ≡ some (e, t, i)
    → a.fat_sectors < t
unfolding search_chain OnTable
search_chain-OnTable a name e t i zero s on q = absurd (ground arith)
search_chain-OnTable a name e t i (suc fuel) s (inl ends) q =
    absurd (let f : ◌≡◌ {A = Option Found} none (some (e, t, i)) = rw ends at q in ground arith)
search_chain-OnTable a name e t i (suc fuel) s (inr (behind, taken, on)) q =
    elim (Bool-cases (is_end s)) [
      | inl ends ↦
          absurd
            (let f : ◌≡◌ {A = Option Found} none (some (e, t, i)) = rw ends at q in ground arith)
      | inr goes_on ↦ elim (Option-cases (search_sector (a.disk s) name 0 16)) [
        | inl absent ↦
            search_chain-OnTable a name e t i fuel (a.fat s) on (rw (goes_on, absent) at q)
        | inr ((e', j), here) ↦
            let f : ◌≡◌ {A = Option Found} (some (e', s, j)) (some (e, t, i)) =
              rw (goes_on, here) at q in
            subst (λ x. a.fat_sectors < x) (some_sector f) behind
      ]
    ]

-- An entry stands in a sector of the chain.
pub find_entry_in-OnTable :
    (a : Fs) (name : List ℕ) (e : Entry) (t i dir : ℕ)
    → OnTable a (chain_fuel a) dir
    → find_entry_in a dir name ≡ some (e, t, i)
    → a.fat_sectors < t
unfolding find_entry_in
find_entry_in-OnTable a name e t i dir on q = elim (Bool-cases (ltb dir 2)) [
  | inl low ↦
      absurd (let f : ◌≡◌ {A = Option Found} none (some (e, t, i)) = rw low at q in ground arith)
  | inr high ↦ search_chain-OnTable a name e t i (chain_fuel a) dir on (rw high at q)
]

-- A stored chain on a disk that differs elsewhere.
pub Stored-disk :
    (old : ℕ → ℕ) (a b : Fs) (buf : ℕ → ℕ) (size offset s n : ℕ)
    → b.fat ≡ a.fat
    → ((x : ℕ) → 0 < x → old x ≡ 0 → b.disk x ≡ a.disk x)
    → Stored old a buf size offset s n
    → Stored old b buf size offset s n
unfolding Stored
Stored-disk old a b buf size offset s zero same_fat same v = v
Stored-disk old a b buf size offset s (suc n) same_fat same (positive, low, was, bytes, tail) = (
  positive,
  low,
  was,
  λ j hj hs. ap (λ (d : Sector). d j) (same s positive was) ∙ bytes j hj hs,
  subst (λ f. Stored old b buf size (offset + 512) (f s) n) (sym same_fat)
      (Stored-disk old a b buf size (offset + 512) (a.fat s) n same_fat same tail),
)

pub count_free-le : (f : ℕ → ℕ) (i n : ℕ) → count_free f i n ≤ n
unfolding count_free
count_free-le f i zero = omega arith
count_free-le f i (suc n) = ground (arith, count_free-le f (suc i) n)
