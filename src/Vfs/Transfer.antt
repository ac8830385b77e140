-- ===== src/Vfs/Transfer.antt =====
-- What a descriptor reads is what was written at the same place.
use aetheroz.Prelude.{
  ℕ, zero, suc, ◌+◌, ◌-◌, ◌%◌, ◌^◌, ◌≤◌, ◌<◌, ◌≡◌, refl, sym, ap, ap₂, subst, ◌∙◌, ◌⊎◌, inl, inr,
  true, false, Option, none, some, List, ◌∷◌, arith, ltb, ◌==◌, Bool-cases, update, update_self,
  ==→eq,
}
use aetheroz.Prelude.Int.{ℤ, pos, ◌+ℤ◌}
use aetheroz.Vfs.{
  Allocator, VfsFile, Fds, flag_set, o_wronly, o_append, to_int, set_pos, resolve, bytes_from,
  read_count, read_slot, vfs_read, ensure_cap, store_bytes, written, at_end_if_append, write_file,
  write_slot, vfs_write, seek_to, seek_slot, vfs_lseek,
}
use aetheroz.Vfs.Grow.{Room, ensure_cap_lem}
use aetheroz.Vfs.Slots.{resolve-update}

store_bytes_off :
    (buf : ℕ → ℕ) (p : ℕ) (src : ℕ → ℕ) (n i : ℕ)
    → p + n ≤ 2 ^ 32
    → (i < p) ⊎ (p + n ≤ i)
    → store_bytes buf p src n i ≡ buf i
unfolding store_bytes
store_bytes_off buf p src zero i h off = refl
store_bytes_off buf p src (suc n) i h off = ground (arith, store_bytes_off buf p src n i)

store_bytes_at :
    (buf : ℕ → ℕ) (p : ℕ) (src : ℕ → ℕ) (n k : ℕ)
    → p + n ≤ 2 ^ 32
    → k < n
    → store_bytes buf p src n (p + k) ≡ src k
unfolding store_bytes
store_bytes_at buf p src zero k h below = absurd (omega arith)
store_bytes_at buf p src (suc n) k h below = elim (Bool-cases (n == k)) [
  | inl e ↦ ground (arith, ap src (==→eq _ _ e))
  | inr e ↦ ground (arith, store_bytes_at buf p src n k)
]

shifted : (i k : ℕ) → i + 1 + k ≡ i + suc k
shifted i k = omega arith

bytes_from-eq :
    (b c : ℕ → ℕ) (i j n : ℕ)
    → i + n ≤ 2 ^ 32
    → j + n ≤ 2 ^ 32
    → ((k : ℕ) → k < n → b (i + k) ≡ c (j + k))
    → bytes_from b i n ≡ bytes_from c j n
unfolding bytes_from
bytes_from-eq b c i j zero hi hj same = refl
bytes_from-eq b c i j (suc n) hi hj same =
    let si : i % 2 ^ 32 ≡ i = omega arith in
    let sj : j % 2 ^ 32 ≡ j = omega arith in
    let zi : i + 0 ≡ i = omega arith in
    let zj : j + 0 ≡ j = omega arith in
    let head : b i ≡ c j = rw (zi, zj) at (same 0 (omega arith)) in
    ap₂ (λ x xs. x ∷ xs) (rw (si, sj) head)
      (bytes_from-eq b c (i + 1) (j + 1) n (omega arith) (omega arith)
        (λ k below. ap b (shifted i k) ∙ same (suc k) (omega arith) ∙ sym (ap c (shifted j k))))

from_start : (p : ℕ) → pos 0 +ℤ pos p ≡ pos p
unfolding ◌+ℤ◌
from_start p = ground arith

module _ (fds : Fds) (task fd : ℤ) (s : ℕ) (found : resolve fds task fd ≡ some s) where
  pub vfs_read_open :
      (count : ℕ)
      → flag_set (fds s).flags o_wronly ≡ false
      → vfs_read fds task fd true count ≡ (
        to_int (read_count (fds s) count),
        bytes_from (fds s).buf (fds s).pos (read_count (fds s) count),
        update fds s (set_pos (fds s) (((fds s).pos + read_count (fds s) count) % 2 ^ 32)),
      )
  unfolding vfs_read read_slot
  vfs_read_open count readable = rw (found, readable) refl

  pub vfs_lseek_open :
      (p : ℕ)
      → p < 2 ^ 32
      → vfs_lseek fds task fd (pos p) 0 ≡ (to_int p, update fds s (set_pos (fds s) p))
  unfolding vfs_lseek seek_slot seek_to
  vfs_lseek_open p h = rw found (
      ap (seek_to fds s) (from_start p)
      ∙ (let fits : ltb (2 ^ 32 - 1) p ≡ false = ground arith in rw fits refl))

  -- Where `ensure_cap` makes room.
  vfs_write_open :
      (m : Allocator) (src : ℕ → ℕ) (count : ℕ) (g : VfsFile)
      → flag_set (fds s).flags 0x3 ≡ true
      → let f = at_end_if_append (fds s) in
        ensure_cap m f (f.pos + count) ≡ some g
        → vfs_write m fds task fd (some src) count
          ≡ (to_int count, update (update fds s f) s (written g src count))
  unfolding vfs_write write_slot write_file
  vfs_write_open m src count g writable room = rw (found, writable, room) refl

from_zero : (k : ℕ) → k ≡ 0 + k
from_zero k = omega arith

-- The file after a write and the seek back.
read_back :
    (g : VfsFile) (src : ℕ → ℕ) (count p : ℕ)
    → g.pos ≡ p
    → p + count ≤ 2 ^ 31
    → let x = set_pos (written g src count) p in
      (read_count x count ≡ count) × (bytes_from x.buf p count ≡ bytes_from src 0 count)
unfolding read_count
read_back g src count p e h = (
  ground arith,
  subst (λ y. bytes_from (store_bytes g.buf y src count) p count ≡ bytes_from src 0 count) (sym e)
      (bytes_from-eq (store_bytes g.buf p src count) src p 0 count (omega arith) (omega arith)
        (λ k below. store_bytes_at g.buf p src count k (omega arith) below ∙ ap src (from_zero k))),
)

module _ (m : Allocator) (fds : Fds) (task fd : ℤ) (s : ℕ) (src : ℕ → ℕ) (count : ℕ)
    (found : resolve fds task fd ≡ some s) (append : flag_set (fds s).flags o_append ≡ false)
    (readable : flag_set (fds s).flags o_wronly ≡ false)
    (writable : flag_set (fds s).flags 0x3 ≡ true) (bound : (fds s).pos + count ≤ 2 ^ 31) where
  -- The three calls, given the file with the room that the write needs.
  round_trip :
      (g : VfsFile)
      → ensure_cap m (at_end_if_append (fds s)) ((at_end_if_append (fds s)).pos + count) ≡ some g
      → g ≡ record (at_end_if_append (fds s)) { buf = g.buf; cap = g.cap }
      → let wrote = vfs_write m fds task fd (some src) count in
        let sought = vfs_lseek wrote.1 task fd (pos (fds s).pos) 0 in
        let got = vfs_read sought.1 task fd true count in
        (wrote.0 ≡ to_int count) × (got.0 ≡ to_int count) × (got.1 ≡ bytes_from src 0 count)
  round_trip g room same =
      let p = (fds s).pos in
      let f = at_end_if_append (fds s) in
      let w = written g src count in
      let fds1 = update (update fds s f) s w in
      let fds2 = update fds1 s (set_pos (fds1 s) p) in
      let wrote = vfs_write_open fds task fd s found m src count g writable room in
      let at1 : fds1 s ≡ w = update_self (update fds s f) s w in
      let at2 : fds2 s ≡ set_pos w p =
        update_self fds1 s (set_pos (fds1 s) p) ∙ ap (λ x. set_pos x p) at1 in
      let at_p : g.pos ≡ p = ap (λ (x : VfsFile). x.pos) same ∙ rw append refl in
      let found0 = resolve-update fds task fd s f found refl refl in
      let self = update_self fds s f in
      let found1 : resolve fds1 task fd ≡ some s =
        resolve-update (update fds s f) task fd s w found0
          (ap (λ (x : VfsFile). x.used) same ∙ sym (ap (λ (x : VfsFile). x.used) self))
          (ap (λ (x : VfsFile). x.owner) same ∙ sym (ap (λ (x : VfsFile). x.owner) self)) in
      let sought = vfs_lseek_open fds1 task fd s found1 p (omega arith) in
      let found2 = resolve-update fds1 task fd s (set_pos (fds1 s) p) found1 refl refl in
      let readable2 : flag_set (fds2 s).flags o_wronly ≡ false =
        ap (λ (x : VfsFile). flag_set x.flags o_wronly) (at2)
        ∙ ap (λ (x : VfsFile). flag_set x.flags o_wronly) same
        ∙ readable in
      let got = vfs_read_open fds2 task fd s found2 count readable2 in
      let (counted, bytes) = read_back g src count p at_p bound in
      let counted2 : read_count (fds2 s) count ≡ count =
        ap (λ x. read_count x count) at2 ∙ counted in
      let bytes2 =
        ap (λ (x : VfsFile). bytes_from x.buf x.pos (read_count x count)) at2
        ∙ ap (bytes_from w.buf p) counted
        ∙ bytes in
      let whole =
        ap (λ (q : ℤ × Fds). vfs_read (vfs_lseek q.1 task fd (pos p) 0).1 task fd true count) wrote
        ∙ ap (λ (q : ℤ × Fds). vfs_read q.1 task fd true count) sought
        ∙ got in
      (
        ap (λ (q : ℤ × Fds). q.0) wrote,
        ap (λ (q : ℤ × List ℕ × Fds). q.0) whole ∙ ap to_int counted2,
        ap (λ (q : ℤ × List ℕ × Fds). q.1) whole ∙ bytes2,
      )

-- A write where no size is refused makes room.
grants-Room :
    (m : Allocator) (f : VfsFile) (need : ℕ) (o : Option VfsFile)
    → Room m f need o
    → need ≤ 2 ^ 31
    → ((c : ℕ) → m.grants c ≡ true)
    → (g : VfsFile) × (o ≡ some g) × (g ≡ record f { buf = g.buf; cap = g.cap })
unfolding Room
grants-Room m f need none (inl big) h granted = absurd (omega arith)
grants-Room m f need none (inr (c, _, _, refused)) h granted = absurd (let q = granted c in cc)
grants-Room m f need (some g) room h granted = (g, refl, room.4)

-- A write to an open file with the flag O_RDWR and neither O_WRONLY nor O_APPEND, of any number of bytes
-- that ends at 2 ^ 31 or below, where the heap refuses no request: it succeeds with the count, and a
-- read of the same count, after a seek back to the place of the write, gives the bytes written.
pub vfs_read-vfs_write :
    (m : Allocator) (fds : Fds) (task fd : ℤ) (s : ℕ) (src : ℕ → ℕ) (count : ℕ)
    → resolve fds task fd ≡ some s
    → (fds s).cap < 2 ^ 32
    → flag_set (fds s).flags o_append ≡ false
    → flag_set (fds s).flags o_wronly ≡ false
    → flag_set (fds s).flags 0x3 ≡ true
    → (fds s).pos + count ≤ 2 ^ 31
    → ((c : ℕ) → m.grants c ≡ true)
    → let wrote = vfs_write m fds task fd (some src) count in
      let sought = vfs_lseek wrote.1 task fd (pos (fds s).pos) 0 in
      let got = vfs_read sought.1 task fd true count in
      (wrote.0 ≡ to_int count) × (got.0 ≡ to_int count) × (got.1 ≡ bytes_from src 0 count)
vfs_read-vfs_write m fds task fd s src count found fits append readable writable bound granted =
    let f = at_end_if_append (fds s) in
    let same_pos : f.pos ≡ (fds s).pos = rw append refl in
    let (g, room, same) =
      grants-Room m f (f.pos + count) _ (ensure_cap_lem m f (f.pos + count) fits)
        (omega (arith, same_pos)) granted in
    round_trip m fds task fd s src count found append readable writable bound g room same
