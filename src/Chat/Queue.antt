-- ===== src/Chat/Queue.antt =====
-- hw2/chatroom_server.c: the linked queue of jobs, on an explicit store. Each call runs under the
-- mutex of the queue, so it is one step.
pub mod Refine
use csci_4220_network_progra.Base.{
  ℕ, Bool, true, false, ◌&&◌, Option, none, some, List, [], ◌∷◌, ◌==◌, if◌then◌else◌,
}

pub record Job : Type 0 where
  pub sender_fd : ℕ
  pub username : List ℕ
  pub msg : List ℕ

-- A job in the store with its `next` pointer; `none` is NULL.
pub record Node : Type 0 where
  pub job : Job
  pub next : Option ℕ

abbrev pub Store : Type 0
Store = ℕ → Node

pub record Queue : Type 0 where
  pub head : Option ℕ
  pub tail : Option ℕ
  pub closed : Bool

-- `p->next = n`
abbrev pub set_next : Store → ℕ → Option ℕ → Store
set_next m p n q = if p == q then record (m q) { next = n } else m q

pub q_init : Queue
q_init = record { head = none; tail = none; closed = false }

pub q_close : Queue → Queue
q_close q = record q { closed = true }

pub q_push : Store → Queue → ℕ → Store × Queue
q_push m q j = elim q.tail [
  | none ↦ (set_next m j none, record q { head = some j; tail = some j })
  | some t ↦ (set_next (set_next m j none) t (some j), record q { tail = some j })
]

-- Taking the head off, where there is one.
pub take_head : Store → Queue → ℕ → Queue
take_head m q h = elim (m h).next [
  | none ↦ record q { head = none; tail = none }
  | some n ↦ record q { head = some n }
]

-- What a waiting call comes back with: it still waits, the queue is closed (NULL), or a job.
pub data Popped : Type 0 where
  waits closed_empty : Popped
  popped : ℕ → Queue → Popped

pub q_pop : Store → Queue → Popped
unfolding take_head
q_pop m q = elim q.head [
  | none ↦ if q.closed then closed_empty else waits
  | some h ↦ popped h (take_head m q h)
]

pub q_try_pop : Store → Queue → Option (ℕ × Queue)
unfolding take_head
q_try_pop m q = elim q.head [ none ↦ none | some h ↦ some (h, take_head m q h) ]
