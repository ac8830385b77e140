-- ===== src/Event/Fifo.antt =====
-- What a task's event queue promises: a FIFO of at most 63 events that drops its oldest when full.
use aetheroz.Prelude.{ℕ, Option, none, some, List, [], ◌∷◌, ◌++◌, ◌==◌, if◌then◌else◌, length}
use aetheroz.Event.{Event}

abbrev pub capacity : ℕ
capacity = 63

abbrev pub drop_oldest : List Event → List Event
drop_oldest [] = []
drop_oldest (e ∷ q) = q

unfoldable pub enqueue : List Event → Event → List Event
enqueue q e = if length q == capacity then drop_oldest q ++ (e ∷ []) else q ++ (e ∷ [])

unfoldable pub dequeue : List Event → Option Event × List Event
dequeue [] = (none, [])
dequeue (e ∷ q) = (some e, q)
