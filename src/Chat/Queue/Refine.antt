-- ===== src/Chat/Queue/Refine.antt =====
-- The linked queue is a first-in, first-out list of jobs.
use csci_4220_network_progra.Base.{
  ℕ, ◌≡◌, ◌≢◌, refl, sym, true, Option, none, some, List, [], ◌∷◌, ◌++◌, if◌then◌else◌, arith, All,
  inl, inr, Option-cases, ◌∙◌,
}
use mathlib.Core.List.{cons≢nil}
use mathlib.Core.Option.{some-injective}
use csci_4220_network_progra.Chat.Queue.{
  Store, Queue, set_next, q_init, q_close, q_push, take_head, waits, closed_empty, popped, q_pop,
  q_try_pop,
}

abbrev pub first : List ℕ → Option ℕ
first [] = none
first (p ∷ ps) = some p

abbrev pub last : List ℕ → Option ℕ
last [] = none
last (p ∷ ps) = elim (last ps) [ none ↦ some p | some t ↦ some t ]

-- Each node points to the one behind it, and the last to nothing.
abbrev pub Linked : Store → List ℕ → Type 0
Linked m [] = Unit
Linked m (p ∷ ps) = ((m p).next ≡ first ps) × Linked m ps

abbrev pub Absent : ℕ → List ℕ → Type 0
Absent j ps = All (λ p. p ≢ j) ps

abbrev pub Apart : List ℕ → Type 0
Apart [] = Unit
Apart (p ∷ ps) = Absent p ps × Apart ps

-- The queue holds the jobs at the addresses `ps`, oldest first.
pub record Represents (m : Store) (q : Queue) (ps : List ℕ) : Type 0 where
  pub head_eq : q.head ≡ first ps
  pub tail_eq : q.tail ≡ last ps
  pub linked : Linked m ps
  pub apart : Apart ps

Linked-set_next :
    (m : Store) (ps : List ℕ) (j : ℕ) (n : Option ℕ)
    → Absent j ps
    → Linked m ps
    → Linked (set_next m j n) ps
Linked-set_next m [] j n a l = tt
Linked-set_next m (p ∷ ps) j n a l = (ground arith, Linked-set_next m ps j n a.1 l.1)

last-append : (ps : List ℕ) (j : ℕ) → last (ps ++ j ∷ []) ≡ some j
last-append [] j = refl
last-append (p ∷ ps) j = rw (last-append ps j)

first-append : (p : ℕ) (ps : List ℕ) (j : ℕ) → first ((p ∷ ps) ++ j ∷ []) ≡ some p
first-append p ps j = refl

Absent-append : (ps : List ℕ) (j k : ℕ) → Absent k ps → j ≢ k → Absent k (ps ++ j ∷ [])
Absent-append [] j k a ne = (ne, tt)
Absent-append (p ∷ ps) j k a ne = (a.0, Absent-append ps j k a.1 ne)

Apart-append : (ps : List ℕ) (j : ℕ) → Absent j ps → Apart ps → Apart (ps ++ j ∷ [])
Apart-append [] j a d = (tt, tt)
Apart-append (p ∷ ps) j a d =
    (Absent-append ps j p d.0 (λ e. a.0 (sym e)), Apart-append ps j a.1 d.1)

last-none : (ps : List ℕ) → last ps ≡ none → ps ≡ []
last-none [] e = refl
last-none (p ∷ ps) e = elim (Option-cases (last ps)) [
  | inl n ↦ let e' : some p ≡ none = (rw n at e) in cc
  | inr (t, h) ↦ let e' : some t ≡ none = (rw h at e) in cc
]

last-cons : (p r : ℕ) (ps : List ℕ) (t : ℕ) → last (p ∷ r ∷ ps) ≡ some t → last (r ∷ ps) ≡ some t
last-cons p r ps t e = elim (Option-cases (last ps)) [
  | inl n ↦ rw n (rw n at e)
  | inr (u, h) ↦ rw h (rw h at e)
]

last-Absent : (ps : List ℕ) (p t : ℕ) → last ps ≡ some t → Absent p ps → t ≢ p
last-Absent [] p t e a = cc
last-Absent (q ∷ []) p t e a = λ same. a.0 (some-injective q t e ∙ same)
last-Absent (q ∷ r ∷ ps) p t e a = last-Absent (r ∷ ps) p t (last-cons q r ps t e) a.1

set_next-same : (m : Store) (p : ℕ) (n : Option ℕ) → (set_next m p n p).next ≡ n
set_next-same m p n = ground arith

set_next-other : (m : Store) (p q : ℕ) (n : Option ℕ) → p ≢ q → (set_next m p n q).next ≡ (m q).next
set_next-other m p q n h = ground arith

-- Hanging `j` behind the last node.
Linked-append :
    (m : Store) (ps : List ℕ) (j t : ℕ)
    → last ps ≡ some t
    → Absent j ps
    → Apart ps
    → Linked m ps
    → Linked (set_next (set_next m j none) t (some j)) (ps ++ j ∷ [])
Linked-append m [] j t e a d l = cc
Linked-append m (p ∷ []) j t e a d l =
    let same = some-injective p t e in
    (
      rw (← same) (set_next-same (set_next m j none) p (some j)),
      (
        set_next-other (set_next m j none) t j (some j) (λ h. a.0 (same ∙ h))
            ∙ set_next-same m j none,
        tt,
      ),
    )
Linked-append m (p ∷ r ∷ ps) j t e a d l =
    let e' = last-cons p r ps t e in
    (
      set_next-other (set_next m j none) t p (some j) (last-Absent (r ∷ ps) p t e' d.0)
          ∙ (set_next-other m j p none (λ h. a.0 (sym h)) ∙ l.0),
      Linked-append m (r ∷ ps) j t e' a.1 d.1 l.1,
    )

-- An initialised queue holds no job, and closing a queue changes nothing in it.
q_init-q_close-Represents :
    (m : Store) (q : Queue) (ps : List ℕ)
    → Represents m q ps
    → Represents m q_init [] × Represents m (q_close q) ps × ((q_close q).closed ≡ true)
unfolding q_init q_close
q_init-q_close-Represents m q ps h = (
  record { head_eq = refl; tail_eq = refl; linked = tt; apart = tt },
  record { head_eq = h.head_eq; tail_eq = h.tail_eq; linked = h.linked; apart = h.apart },
  refl,
)

push_onto :
    (m : Store) (q : Queue) (ps : List ℕ) (j : ℕ) (o : Option ℕ)
    → last ps ≡ o
    → q.tail ≡ o
    → Represents m q ps
    → Absent j ps
    → let (m2, q2) = q_push m q j in Represents m2 q2 (ps ++ j ∷ [])
unfolding q_push
push_onto m q [] j none e f h a = rw f (record {
  head_eq = refl;
  tail_eq = refl;
  linked = (set_next-same m j none, tt);
  apart = (tt, tt);
})
push_onto m q (p ∷ ps) j none e f h a = absurd (cons≢nil (last-none (p ∷ ps) e))
push_onto m q [] j (some t) e f h a = cc
push_onto m q (p ∷ ps) j (some t) e f h a = rw f (record {
  head_eq = h.head_eq;
  tail_eq = sym (last-append (p ∷ ps) j);
  linked = Linked-append m (p ∷ ps) j t e a h.apart h.linked;
  apart = Apart-append (p ∷ ps) j a h.apart;
})

-- Pushing a job that is not in the queue puts it behind the others: `q_push` on the linked nodes is
-- appending to the list of waiting jobs.
pub q_push-Represents :
    (m : Store) (q : Queue) (ps : List ℕ) (j : ℕ)
    → Represents m q ps
    → Absent j ps
    → let (m2, q2) = q_push m q j in Represents m2 q2 (ps ++ j ∷ [])
q_push-Represents m q ps j h a = push_onto m q ps j (last ps) refl h.tail_eq h a

take_head-Represents :
    (m : Store) (q : Queue) (p : ℕ) (ps : List ℕ)
    → Represents m q (p ∷ ps)
    → Represents m (take_head m q p) ps
unfolding take_head
take_head-Represents m q p [] h =
    rw (h.linked.0, take_head) (record { head_eq = refl; tail_eq = refl; linked = tt; apart = tt })
take_head-Represents m q p (r ∷ ps) h =
    rw (h.linked.0, take_head)
      (record {
        head_eq = refl;
        tail_eq = h.tail_eq ∙ last-tail;
        linked = h.linked.1;
        apart = h.apart.1;
      })
  where
    last-tail : last (p ∷ r ∷ ps) ≡ last (r ∷ ps)
    last-tail = elim (Option-cases (last ps)) [ inl n ↦ rw n refl | inr (t, e) ↦ rw e refl ]

-- What a call of `q_pop` comes back with, for each list of waiting jobs.
abbrev pub PopsFrom : Store → Queue → List ℕ → Type 0
PopsFrom m q [] = (q_pop m q ≡ (if q.closed then closed_empty else waits)) × (q_try_pop m q ≡ none)
PopsFrom m q (p ∷ ps) =
    (q2 : Queue) × (q_pop m q ≡ popped p q2)
    × (q_try_pop m q ≡ some (p, q2))
    × Represents m q2 ps
    × (q2.closed ≡ q.closed)

take_head-closed : (m : Store) (q : Queue) (p : ℕ) → (take_head m q p).closed ≡ q.closed
unfolding take_head
take_head-closed m q p = elim (Option-cases (m p).next) [
  | inl n ↦ rw (n, take_head) refl
  | inr (t, e) ↦ rw (e, take_head) refl
]

-- From a queue with waiting jobs both `q_pop` and `q_try_pop` take the oldest and leave the others in
-- order, also when the queue has been closed; an empty one makes `q_pop` wait until it is closed, and
-- then answer NULL, and `q_try_pop` answer NULL at once.
pub q_pop-PopsFrom : (m : Store) (q : Queue) (ps : List ℕ) → Represents m q ps → PopsFrom m q ps
unfolding q_pop q_try_pop
q_pop-PopsFrom m q [] h = rw h.head_eq (refl, refl)
q_pop-PopsFrom m q (p ∷ ps) h = (
  take_head m q p,
  rw h.head_eq refl,
  rw h.head_eq refl,
  take_head-Represents m q p ps h,
  take_head-closed m q p,
)
