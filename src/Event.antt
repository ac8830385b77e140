-- ===== src/Event.antt =====
-- kernel/event.c: one circular event queue for each task. Every function holds `event_lock` from its
-- first access to the queues to its last, so each is one function from a state to a state.
pub mod Fifo
pub mod Refine
pub mod Calls
mod Witnesses
use aetheroz.Prelude.{
  ℕ, ◌+◌, ◌%◌, Option, none, some, ltb, ◌==◌, if◌then◌else◌, update, List, [], ◌∷◌,
}
use aetheroz.Prelude.Int.{ℤ, pos, negsuc}

-- MAX_TASKS of include/task.h and EVENT_QUEUE_SIZE.
abbrev pub max_tasks : ℕ
max_tasks = 16

abbrev pub queue_size : ℕ
queue_size = 64

-- `kyuzen_event_t`
pub record Event : Type 0 where
  pub kind : ℕ
  pub param1 : ℤ
  pub param2 : ℤ
  pub param3 : ℤ
  pub win_id : ℤ

-- The rows of `task_queues`, `eq_head` and `eq_tail` for one task.
pub record Ring : Type 0 where
  pub slots : ℕ → Event
  pub head : ℕ
  pub tail : ℕ

abbrev pub Queues : Type 0
Queues = ℕ → Ring

-- `!(task_id < 0 || task_id >= MAX_TASKS)`
abbrev pub valid_id : ℤ → Option ℕ
valid_id (pos n) = if ltb n max_tasks then some n else none
valid_id (negsuc n) = none

abbrev pub next : ℕ → ℕ
next i = (i + 1) % queue_size

-- A full queue loses its oldest event.
pub push_ring : Ring → Event → Ring
push_ring r e = record {
  slots = update r.slots r.head e;
  head = next r.head;
  tail = if next r.head == r.tail then next r.tail else r.tail;
}

pub push_event_to : Queues → ℤ → ℕ → ℤ → ℤ → ℤ → ℤ → Queues
push_event_to qs task_id kind p1 p2 p3 win = elim (valid_id task_id) [
  | none ↦ qs
  | some t ↦ update qs t (push_ring (qs t) event)
]
  where
    event : Event
    event = record { kind = kind; param1 = p1; param2 = p2; param3 = p3; win_id = win }

-- `none` for the result 0, which leaves `*out` alone.
pub pop_ring : Ring → Option Event × Ring
pop_ring r =
    if r.head == r.tail then (none, r) else (some (r.slots r.tail), record r { tail = next r.tail })

pub pop_event : Queues → ℤ → Option Event × Queues
pop_event qs task_id = elim (valid_id task_id) [
  | none ↦ (none, qs)
  | some t ↦ let (out, r) = pop_ring (qs t) in (out, update qs t r)
]

pub flush_event_queue : Queues → ℤ → Queues
flush_event_queue qs task_id = elim (valid_id task_id) [
  | none ↦ qs
  | some t ↦ update qs t (record (qs t) { head = 0; tail = 0 })
]
