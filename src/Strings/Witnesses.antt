-- ===== src/Strings/Witnesses.antt =====
-- kernel/string.c at concrete inputs.
use aetheroz.Prelude.{◌%◌, ◌≡◌, refl, ◌&&◌, leb, ltb, if◌then◌else◌}
use aetheroz.Strings.{Memory, memmove, copy_up, copy_down, memset}
use aetheroz.Strings.Blocks.{copied, memmove_lem, memset_lem}

-- Each byte holds its address.
abbrev ramp : Memory
ramp x = x

-- The blocks overlap, and the copy runs backwards.
memmove_lem_example : memmove ramp 12 10 5 14 ≡ copied ramp 12 10 5 14
memmove_lem_example = memmove_lem ramp 12 10 5 14

moved : memmove ramp 12 10 5 14 ≡ 12
unfolding memmove copy_up copy_down
moved = refl

memset_lem_example : memset ramp 8 300 4 9 ≡ (if leb 8 9 && ltb 9 12 then 300 % 256 else ramp 9)
memset_lem_example = memset_lem ramp 8 300 4 9
