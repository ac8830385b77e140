-- ===== src/UserCopy.antt =====
-- kernel/usercopy.c: the copies between a user task and the kernel. The page tables are a test on page
-- addresses, the user's memory a function of the address; a copy to the user is the list of bytes that
-- it writes. The window of user access around a copy (SMAP) is not modelled.
pub mod Ranges
mod Witnesses
use aetheroz.Prelude.{
  ℕ, zero, suc, ◌+◌, ◌-◌, ◌*◌, ◌/◌, ◌%◌, ◌^◌, Bool, true, false, ◌&&◌, ◌||◌, not, Option, none,
  some, List, [], ◌∷◌, ltb, leb, ◌==◌, if◌then◌else◌,
}

-- `ucopy_ctx_t`, with `paging_is_mapped_into` for its page tables.
pub record UcopyCtx : Type 0 where
  pub from_user : Bool
  pub is_mapped : ℕ → Bool

abbrev pub uc_user_va_max : ℕ
uc_user_va_max = 0x0000800000000000

abbrev pub uc_max_range : ℕ
uc_max_range = 64 * 1024 * 1024

-- `addr & ~0xFFF`
abbrev pub page_start : ℕ → ℕ
page_start addr = addr / 4096 * 4096

-- `for (p = first;; p += 0x1000)`, for at most so many rounds.
unfoldable pub pages_mapped : (ℕ → Bool) → ℕ → ℕ → ℕ → Bool
pages_mapped is_mapped last p zero = false
pages_mapped is_mapped last p (suc n) =
    let rest = pages_mapped is_mapped last ((p + 0x1000) % 2 ^ 64) n in
    if not (is_mapped p) then false else if p == last then true else rest

-- The loop has one round for each page.
unfoldable pub range_mapped : (ℕ → Bool) → ℕ → ℕ → Bool
range_mapped is_mapped first last = pages_mapped is_mapped last first ((last - first) / 4096 + 1)

unfoldable pub user_range_ok : UcopyCtx → ℕ → ℕ → Bool
user_range_ok ctx uaddr len =
    if uaddr == 0
    then false
    else if len == 0
    then true
    else if ltb uc_max_range len || ltb ((uaddr + len) % 2 ^ 64) uaddr
    then false
    else if not ctx.from_user
    then true
    else if leb uc_user_va_max uaddr || ltb (uc_user_va_max - uaddr) len
    then false
    else range_mapped ctx.is_mapped (page_start uaddr) (page_start (uaddr + len - 1))

-- `memcpy` of `n` bytes out of a memory.
unfoldable pub bytes_at : (ℕ → ℕ) → ℕ → ℕ → List ℕ
bytes_at m addr zero = []
bytes_at m addr (suc n) = m addr ∷ bytes_at m (addr + 1) n

-- `none` for -1.
unfoldable pub copy_from_user : UcopyCtx → (ℕ → ℕ) → ℕ → ℕ → Option (List ℕ)
copy_from_user ctx m usrc len =
    if user_range_ok ctx usrc len then some (bytes_at m usrc len) else none

-- The user's memory after the copy of the kernel's bytes.
unfoldable pub copy_to_user : UcopyCtx → (ℕ → ℕ) → ℕ → (ℕ → ℕ) → ℕ → Option (ℕ → ℕ)
copy_to_user ctx m udst src len =
    if not (user_range_ok ctx udst len)
    then none
    else some (λ a. if leb udst a && ltb a (udst + len) then src (a - udst) else m a)

abbrev pub cons_byte : ℕ → Option (List ℕ) → Option (List ℕ)
cons_byte c none = none
cons_byte c (some s) = some (c ∷ s)

-- The loop of a kernel caller, with `n` rounds to go.
unfoldable pub kernel_string : (ℕ → ℕ) → ℕ → ℕ → List ℕ
kernel_string m addr zero = []
kernel_string m addr (suc n) =
    let rest = kernel_string m (addr + 1) n in if m addr == 0 then [] else m addr ∷ rest

-- A page that is not the last one checked must lie in the user's range and be mapped.
abbrev pub page_fails : UcopyCtx → ℕ → ℕ → Bool
page_fails ctx checked page =
    not (page == checked) && (leb uc_user_va_max page || not (ctx.is_mapped page))

-- The loop of a user's call from the address `usrc + i` on, with `n` rounds to go.
unfoldable pub user_string : UcopyCtx → (ℕ → ℕ) → ℕ → ℕ → ℕ → ℕ → Option (List ℕ)
user_string ctx m usrc checked i zero = some []
user_string ctx m usrc checked i (suc n) =
    let addr = (usrc + i) % 2 ^ 64 in
    let rest = user_string ctx m usrc (page_start addr) (suc i) n in
    if ltb addr usrc || page_fails ctx checked (page_start addr)
    then none
    else if m addr == 0
    then some []
    else cons_byte (m addr) rest

-- The string without its terminator, of less than `cap` characters.
unfoldable pub strncpy_from_user : UcopyCtx → (ℕ → ℕ) → ℕ → ℕ → Option (List ℕ)
strncpy_from_user ctx m usrc cap =
    if usrc == 0 || cap == 0
    then none
    else if ctx.from_user
    then user_string ctx m usrc 1 0 (cap - 1)
    else some (kernel_string m usrc (cap - 1))
