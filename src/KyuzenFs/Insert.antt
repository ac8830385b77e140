-- ===== src/KyuzenFs/Insert.antt =====
-- A directory after the insertion of an entry in a free slot: a search finds the new entry.
use aetheroz.Prelude.{
  ℕ, zero, suc, ◌≡◌, ◌≢◌, refl, sym, ap, subst, ◌∙◌, inl, inr, true, false, not, ◌&&◌, Option, none,
  some, List, arith, ◌==◌, if◌then◌else◌, Bool-cases, Option-cases,
}
use aetheroz.KyuzenFs.{Fs}
use aetheroz.KyuzenFs.Directory.{
  Entry, Found, flag_empty, entry_at, put_entry, name_of, same_name, search_sector, empty_slot,
  is_end, or_rest, found_in, search_chain, vacant, full_after, find_slot,
}
use aetheroz.KyuzenFs.Entries.{search_sector-put_entry}

-- The disk `b` is the disk `a` with an entry in a slot, and another header.
pub record Inserted (a : Fs) (t i : ℕ) (e : Entry) (b : Fs) : Type 0 where
  pub same_fat : b.fat ≡ a.fat
  pub written : b.disk t ≡ put_entry (a.disk t) i e
  pub others : (x : ℕ) → x ≢ t → x ≢ 0 → b.disk x ≡ a.disk x

-- The entry that stands in the slot.
abbrev pub entry_in : Fs → ℕ → ℕ → Entry
entry_in b t i = entry_at (b.disk t) i

abbrev pub Named : Entry → List ℕ → Type 0
Named e name = (not (e.flags == flag_empty) && same_name (name_of e) name) ≡ true

pub not_zero : (s : ℕ) → is_end s ≡ false → s ≢ 0
not_zero s h e = ground arith

pub find_slot_free :
    (a : Fs) (t i fuel last s : ℕ)
    → find_slot a last s fuel ≡ vacant t i
    → empty_slot (a.disk t) 0 16 ≡ some i
unfolding find_slot
find_slot_free a t i zero last s e = ground arith
find_slot_free a t i (suc fuel) last s e = elim (Bool-cases (is_end s)) [
  | inl ends ↦ absurd (let q : full_after last ≡ vacant t i = rw ends at e in ground arith)
  | inr goes_on ↦ elim (Option-cases (empty_slot (a.disk s) 0 16)) [
    | inl full ↦ find_slot_free a t i fuel s (a.fat s) (rw (goes_on, full) at e)
    | inr (k, free) ↦
        let here : vacant s k ≡ vacant t i = rw (goes_on, free) at e in
        let at_t : s ≡ t = ground arith in
        let at_i : k ≡ i = ground arith in
        subst (λ x. empty_slot (a.disk x) 0 16 ≡ some i) at_t (free ∙ ap (λ x. some x) at_i)
  ]
]

module _ (a b : Fs) (t i : ℕ) (e : Entry) (name : List ℕ) (h : Inserted a t i e b) where
  abbrev chain_step : ℕ → ℕ → Option Found
  chain_step x fuel =
      if is_end x
      then none
      else or_rest (found_in x (search_sector (b.disk x) name 0 16))
          (search_chain b name (b.fat x) fuel)

  in_sector :
      Named (entry_in b t i) name
      → search_sector (a.disk t) name 0 16 ≡ none
      → empty_slot (a.disk t) 0 16 ≡ some i
      → search_sector (b.disk t) name 0 16 ≡ some (entry_in b t i, i)
  in_sector named q free =
      subst (λ d. search_sector d name 0 16 ≡ some (entry_at d i, i)) (sym h.written)
        (search_sector-put_entry (a.disk t) e name i 16 0
          (subst (λ d. Named (entry_at d i) name) h.written named) q free)

  pub search_chain-Inserted :
      (fuel last s : ℕ)
      → Named (entry_in b t i) name
      → search_chain a name s fuel ≡ none
      → find_slot a last s fuel ≡ vacant t i
      → search_chain b name s fuel ≡ some (entry_in b t i, t, i)
  unfolding search_chain find_slot
  search_chain-Inserted zero last s named missing slot = ground arith
  search_chain-Inserted (suc fuel) last s named missing slot = elim (Bool-cases (is_end s)) [
    | inl ends ↦ absurd (let q : full_after last ≡ vacant t i = rw ends at slot in ground arith)
    | inr goes_on ↦ elim (Option-cases (search_sector (a.disk s) name 0 16)) [
      | inr (hit, q) ↦ absurd (let w = rw (goes_on, q) at missing in ground arith)
      | inl q ↦
          let later : search_chain a name (a.fat s) fuel ≡ none = rw (goes_on, q) at missing in
          elim (Option-cases (empty_slot (a.disk s) 0 16)) [
            | inr (k, free) ↦
                let here : vacant s k ≡ vacant t i = rw (goes_on, free) at slot in
                let at_t : s ≡ t = ground arith in
                let at_i : k ≡ i = ground arith in
                let free_t : empty_slot (a.disk t) 0 16 ≡ some i =
                  subst (λ x. empty_slot (a.disk x) 0 16 ≡ some i) at_t
                    (free ∙ ap (λ x. some x) at_i) in
                let q_t = subst (λ x. search_sector (a.disk x) name 0 16 ≡ none) at_t q in
                subst (λ x. chain_step x fuel ≡ some (entry_in b t i, t, i)) (sym at_t)
                  (rw (subst (λ x. is_end x ≡ false) at_t goes_on, in_sector named q_t free_t) refl)
            | inl full ↦
                let there : find_slot a s (a.fat s) fuel ≡ vacant t i =
                  rw (goes_on, full) at slot in
                let apart : s ≢ t = λ w. absurd (
                  let z = subst (λ x. empty_slot (a.disk x) 0 16 ≡ none) w full in
                  let y = find_slot_free a t i fuel s (a.fat s) there in ground arith) in
                let ih = search_chain-Inserted fuel s (a.fat s) named later there in
                rw (goes_on, h.others s apart (not_zero s goes_on), q)
                  (ap (λ f. search_chain b name (f s) fuel) h.same_fat ∙ ih)
          ]
    ]
  ]
