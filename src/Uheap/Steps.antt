-- ===== src/Uheap/Steps.antt =====
-- The regions of a user heap do not meet, whatever calls are made.
use aetheroz.Prelude.{ℕ, Bool, arith}
use aetheroz.Uheap.{AddressSpace, Uheap, uheap_alloc, uheap_free, uheap_realloc, uheap_reset}
use aetheroz.Uheap.Regions.{
  Stacked, IsUheap, uheap_alloc-IsUheap, uheap_free-IsUheap, uheap_realloc-IsUheap,
}

-- One call of the task that owns the heap, with any state of the frames and the page tables.
pub data Step (k : AddressSpace) : Uheap → Uheap → Type 0 where
  allocs :
      (s : k.State) (has_space : Bool) (size : ℕ) (h : Uheap)
      → Step k h (uheap_alloc k s has_space h size).1
  frees : (s : k.State) (uaddr : ℕ) (h : Uheap) → Step k h (uheap_free k s h uaddr).1
  reallocs :
      (s : k.State) (has_space : Bool) (uaddr size : ℕ) (h : Uheap)
      → Step k h (uheap_realloc k s has_space h uaddr size).1
  resets : (h : Uheap) → Step k h (uheap_reset h)

pub data Run (k : AddressSpace) : Uheap → Uheap → Type 0 where
  start : (h : Uheap) → Run k h h
  next : (a b c : Uheap) → Run k a b → Step k b c → Run k a c

uheap_reset-IsUheap : (h : Uheap) → IsUheap (uheap_reset h)
unfolding uheap_reset Stacked
uheap_reset-IsUheap h = record { stacked = omega arith; below_end = omega arith }

Step-IsUheap : (k : AddressSpace) (a b : Uheap) → Step k a b → IsUheap a → IsUheap b
Step-IsUheap k a _ (allocs s has_space size _) v = uheap_alloc-IsUheap k s has_space a size v
Step-IsUheap k a _ (frees s uaddr _) v = uheap_free-IsUheap k s a uaddr v
Step-IsUheap k a _ (reallocs s has_space uaddr size _) v =
    uheap_realloc-IsUheap k s has_space a uaddr size v
Step-IsUheap k a _ (resets _) v = uheap_reset-IsUheap a

Run-keeps : (k : AddressSpace) (a b : Uheap) → Run k a b → IsUheap a → IsUheap b
Run-keeps k a _ (start _) v = v
Run-keeps k a _ (next _ b c run step) v = Step-IsUheap k b c step (Run-keeps k a b run v)

-- After a reset and any calls, whatever the frame allocator and the page tables answer: the regions lie
-- between the base and the end of the user heap, one below the other with a free page behind each, so
-- that no two of them meet; none is empty, and none holds more bytes than its pages.
pub Run-IsUheap : (k : AddressSpace) (h a : Uheap) → Run k (uheap_reset h) a → IsUheap a
Run-IsUheap k h a run = Run-keeps k (uheap_reset h) a run (uheap_reset-IsUheap h)
