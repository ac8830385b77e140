-- ===== src/UserCopy/Witnesses.antt =====
-- The user copies at concrete inputs.
use aetheroz.Prelude.{ℕ, ◌+◌, ◌≤◌, ◌<◌, ◌≡◌, ◌↔◌, refl, true, false, arith, ltb}
use aetheroz.UserCopy.{
  UcopyCtx, uc_user_va_max, uc_max_range, page_start, user_range_ok, range_mapped, pages_mapped,
}
use aetheroz.UserCopy.Ranges.{user_range_ok_iff}

-- The pages below 0x5000 are mapped.
abbrev low_pages : UcopyCtx
low_pages = record { from_user = true; is_mapped = λ p. ltb p 0x5000 }

user_range_ok_iff_example : (user_range_ok low_pages 0x3FF0 100 ≡ true) ↔ (
    (0 < 0x3FF0)
    × (100 ≤ uc_max_range)
    × ((x : ℕ)
        → 0x3FF0 ≤ x
        → x < 0x3FF0 + 100
        → (x < uc_user_va_max) × (low_pages.is_mapped (page_start x) ≡ true)))
user_range_ok_iff_example =
    user_range_ok_iff low_pages 0x3FF0 100 refl (omega arith) (omega arith) (omega arith)

two_pages : user_range_ok low_pages 0x3FF0 100 ≡ true
unfolding user_range_ok range_mapped pages_mapped
two_pages = refl

past_the_end : user_range_ok low_pages 0x4FF0 100 ≡ false
unfolding user_range_ok range_mapped pages_mapped
past_the_end = refl
