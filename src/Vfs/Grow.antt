-- ===== src/Vfs/Grow.antt =====
-- The buffer of an open file grows: the doubling loop of `ensure_cap` ends, and the buffer that it
-- leads to holds the bytes asked for.
use aetheroz.Prelude.{
  ℕ, zero, suc, ◌-◌, ◌*◌, ◌%◌, ◌^◌, ◌≤◌, ◌<◌, ◌≡◌, refl, subst, ◌⊎◌, inl, inr, false, Option, none,
  some, arith, ltb, leb, ◌==◌, Bool-cases,
}
use aetheroz.Vfs.{
  Allocator, VfsFile, Growth, grown, too_big, out_of_fuel, double_cap, grow_fuel, regrown,
  ensure_cap,
}

-- What a result of the loop promises; running out of fuel is no result.
pub Grows : ℕ → ℕ → Growth → Type 0
Grows newcap need (grown c) = (need ≤ c) × (newcap ≤ c) × (c < 2 ^ 32)
Grows newcap need too_big = 2 ^ 31 < need
Grows newcap need out_of_fuel = ⊥

Grows-weaken : (a b need : ℕ) (g : Growth) → a ≤ b → Grows b need g → Grows a need g
unfolding Grows
Grows-weaken a b need (grown c) h (p, q, r) = (p, omega arith, r)
Grows-weaken a b need too_big h p = p
Grows-weaken a b need out_of_fuel h p = elim p [ ]

pow_suc : (n : ℕ) → 2 ^ suc n ≡ 2 * 2 ^ n
pow_suc n = omega arith

regroup : (a p : ℕ) → 2 ^ 32 ≤ a * (2 * p) → 2 ^ 32 ≤ a * 2 * p
regroup a p h = grind arith

-- The rounds left carry the capacity past 32 bits.
double_cap-Grows :
    (fuel newcap need : ℕ)
    → 0 < newcap
    → newcap < 2 ^ 32
    → 2 ^ 32 ≤ newcap * 2 ^ fuel
    → Grows newcap need (double_cap fuel newcap need)
unfolding double_cap Grows
double_cap-Grows zero newcap need h k e = absurd (omega arith)
double_cap-Grows (suc fuel) newcap need h k e = elim (Bool-cases (ltb newcap need)) [
  | inr done ↦ rw done (ground arith)
  | inl more ↦ elim (Bool-cases (leb (newcap * 2 % 2 ^ 32) newcap)) [
    | inl wraps ↦ rw (more, wraps) (ground arith)
    | inr fits ↦
        let next : newcap * 2 % 2 ^ 32 ≡ newcap * 2 = ground arith in
        rw (more, fits, next)
          (Grows-weaken newcap (newcap * 2) need (double_cap fuel (newcap * 2) need) (omega arith) (
            double_cap-Grows fuel (newcap * 2) need (omega arith) (ground arith)
              (regroup newcap (2 ^ fuel) (subst (λ p. 2 ^ 32 ≤ newcap * p) (pow_suc fuel) e))))
  ]
]

-- The doubling loop of `ensure_cap`, from any capacity of 32 bits but 0 and for any need: it ends before
-- its fuel does. Where it gives a capacity, that is at least the need and the old capacity and fits 32
-- bits; where it gives up, the need is over 2 ^ 31.
pub double_cap_lem :
    (newcap need : ℕ)
    → 0 < newcap
    → newcap < 2 ^ 32
    → Grows newcap need (double_cap grow_fuel newcap need)
double_cap_lem newcap need h k = double_cap-Grows grow_fuel newcap need h k (omega arith)

-- The file with room for `need` bytes, which keeps all it had; or a reason for the failure.
unfoldable pub Room : Allocator → VfsFile → ℕ → Option VfsFile → Type 0
Room m f need none = (2 ^ 31 < need) ⊎ ((c : ℕ) × (need ≤ c) × (c < 2 ^ 32) × (m.grants c ≡ false))
Room m f need (some g) =
    (need ≤ g.cap)
    × (f.cap ≤ g.cap)
    × (g.cap < 2 ^ 32)
    × ((i : ℕ) → i < f.cap → g.buf i ≡ f.buf i)
    × (g ≡ record f { buf = g.buf; cap = g.cap })

regrown-Room :
    (m : Allocator) (f : VfsFile) (newcap need : ℕ) (g : Growth)
    → f.cap ≤ newcap
    → Grows newcap need g
    → Room m f need (regrown m f g)
unfolding Room regrown Grows
regrown-Room m f newcap need too_big h p = inl p
regrown-Room m f newcap need out_of_fuel h p = elim p [ ]
regrown-Room m f newcap need (grown c) h (p, q, r) = elim (Bool-cases (m.grants c)) [
  | inl granted ↦ rw granted (p, omega arith, r, λ i below. ground arith, refl)
  | inr refused ↦ rw refused (inr (c, p, r, refused))
]

-- `ensure_cap` for a file with a capacity of 32 bits and any need: on success the file has room for
-- the need, its capacity has not shrunk, its bytes below the old capacity are the same, and nothing but buffer and capacity has
-- changed; it fails only where the need is over 2 ^ 31, or where the heap refuses a size of 32 bits
-- that is enough.
pub ensure_cap_lem :
    (m : Allocator) (f : VfsFile) (need : ℕ) → f.cap < 2 ^ 32 → Room m f need (ensure_cap m f need)
unfolding ensure_cap Room
ensure_cap_lem m f need h = elim (Bool-cases (leb need f.cap)) [
  | inl enough ↦ rw enough (ground arith, omega arith, h, λ i below. refl, refl)
  | inr short ↦ elim (Bool-cases (ltb (2 ^ 32 - 1) need)) [
    | inl huge ↦ rw (short, huge) (inl (ground arith))
    | inr fits ↦ elim (Bool-cases (f.cap == 0)) [
      | inl empty ↦
          rw (short, fits, empty)
            (regrown-Room m f 64 need _ (ground arith)
              (double_cap_lem 64 need (omega arith) (omega arith)))
      | inr full ↦
          rw (short, fits, full)
            (regrown-Room m f f.cap need _ (omega arith)
              (double_cap_lem f.cap need (ground arith) h))
    ]
  ]
]
