-- ===== src/Process/Event/Linked.antt =====
-- src/process/manager.hpp: an event lists the threads that wait for it, and a thread the events that
-- it waits for.
use klee.Base.{
  ℕ, ◌+◌, ◌^◌, ◌<◌, ◌≡◌, no_such_event, unfinished_event, Code, ◌≢◌, refl, sym, ap, ◌∙◌, ◌⊎◌, inl,
  inr, Bool, true, false, ◌&&◌, List, [], ◌∷◌, ◌++◌, Option, none, some, arith, get_or, set, length,
  length-set, ◌==◌, if◌then◌else◌, ==_refl, ==_ne, ℕ_discrete, Bool-cases, get_or-set_self,
  get_or-set_ne, dec_lt, set_past, success,
}
use klee.Util.DenseMap.{find_empty_slot, contains}
use klee.Util.DenseMap.Slots.{find_empty_slot-IsSlot}
use klee.Process.{Manager}
use klee.Process.Local.{erase_all}
use klee.Process.Switch.{local_at}
use klee.Process.Switch.Queues.{count, count-push, count-erase_all}
use klee.Process.Event.{
  waiters, set_waiters, set_events_of, push_thread_to_events, unwait_event, create_event,
  delete_event, is_nil,
}

-- A thread that is not a zombie waits for an event as often as the event lists it, and no event lists
-- a zombie.
pub record IsLinked (m : Manager) : Type 0 where
  pub linked :
      (e t : ℕ)
      → (m.threads t).zombie ≡ false
      → count t (waiters m e) ≡ count e (m.threads t).events
  pub dead : (e t : ℕ) → (m.threads t).zombie ≡ true → count t (waiters m e) ≡ 0

pub contains-lt : (d : List (Option (List ℕ))) (e : ℕ) → contains d e ≡ true → e < length d
contains-lt d e h = ground arith

pub waiters-set_waiters :
    (m : Manager) (e f : ℕ) (ts : List ℕ)
    → contains m.events e ≡ true
    → waiters (set_waiters m e ts) f ≡ (if e == f then ts else waiters m f)
waiters-set_waiters m e f ts h = elim (ℕ_discrete e f) [
  | yes p ↦
      rw (p, ==_refl f)
        (rw (get_or-set_self m.events f (some ts) none (rw p at (contains-lt m.events e h))))
  | no p ↦ rw (==_ne e f p) (rw (get_or-set_ne m.events e f (some ts) none p))
]

-- The two lists of one event and one thread, written at once.
module _ (m : Manager) (e t : ℕ) (ts es : List ℕ) (v : IsLinked m)
    (there : contains m.events e ≡ true)
    (others : (u : ℕ) → u ≢ t → count u ts ≡ count u (waiters m e))
    (other_events : (f : ℕ) → f ≢ e → count f es ≡ count f (m.threads t).events)
    (agree : (m.threads t).zombie ≡ false → count t ts ≡ count e es)
    (gone : (m.threads t).zombie ≡ true → count t ts ≡ 0) where
  written : Manager
  written = set_events_of (set_waiters m e ts) t es

  zombie-written : (u : ℕ) → (written.threads u).zombie ≡ (m.threads u).zombie
  unfolding written
  zombie-written u = elim (ℕ_discrete u t) [ yes p ↦ rw (p, ==_refl t) | no p ↦ rw (==_ne u t p) ]

  waiters-written :
      (f u : ℕ)
      → count u (waiters written f) ≡ (if e == f then count u ts else count u (waiters m f))
  unfolding written
  waiters-written f u =
      ap (count u) (waiters-set_waiters m e f ts there)
      ∙ (elim (Bool-cases (e == f)) [ inl h ↦ rw h | inr h ↦ rw h ])

  events-written :
      (u f : ℕ)
      → count f (written.threads u).events
        ≡ (if u == t then count f es else count f (m.threads u).events)
  unfolding written
  events-written u f = elim (Bool-cases (u == t)) [ inl h ↦ rw h | inr h ↦ rw h ]

  core :
      (f u : ℕ)
      → (m.threads u).zombie ≡ false
      → (if e == f then count u ts else count u (waiters m f))
        ≡ (if u == t then count f es else count f (m.threads u).events)
  core f u a = elim (ℕ_discrete u t) [
    | yes p ↦
        let a' : (m.threads t).zombie ≡ false = rw (← p) a in
        elim (ℕ_discrete f e) [
          | yes q ↦ rw (p, q, ==_refl t, ==_refl e) (agree a')
          | no q ↦
              rw (p, ==_refl t, ==_ne e f (λ r. q (sym r)))
                (v.linked f t a' ∙ sym (other_events f q))
        ]
    | no p ↦ elim (ℕ_discrete f e) [
      | yes q ↦ rw (q, ==_refl e, ==_ne u t p) (others u p ∙ v.linked e u a)
      | no q ↦ rw (==_ne e f (λ r. q (sym r)), ==_ne u t p) (v.linked f u a)
    ]
  ]

  dead_core :
      (f u : ℕ)
      → (m.threads u).zombie ≡ true
      → (if e == f then count u ts else count u (waiters m f)) ≡ 0
  dead_core f u z = elim (ℕ_discrete f e) [
    | no q ↦ rw (==_ne e f (λ r. q (sym r))) (v.dead f u z)
    | yes q ↦
        rw (q, ==_refl e)
          (elim (ℕ_discrete u t) [
            | yes p ↦ rw p (gone (rw (← p) z))
            | no p ↦ others u p ∙ v.dead e u z
          ])
  ]

  pub written-IsLinked : IsLinked (set_events_of (set_waiters m e ts) t es)
  unfolding written
  written-IsLinked = record {
    linked = λ f u a.
        waiters-written f u ∙ core f u (sym (zombie-written u) ∙ a) ∙ sym (events-written u f);
    dead = λ f u z. waiters-written f u ∙ dead_core f u (sym (zombie-written u) ∙ z);
  }

-- push_thread_to_events, for a thread that is no zombie, keeps events and threads linked: a thread
-- that is no zombie lists an event as often as the event lists it, and no event lists a zombie.
pub push_thread_to_events-IsLinked :
    (m : Manager) (e t : ℕ)
    → IsLinked m
    → (m.threads t).zombie ≡ false
    → IsLinked (push_thread_to_events m e t).1
unfolding push_thread_to_events
push_thread_to_events-IsLinked m e t v alive = elim (Bool-cases (contains m.events e)) [
  | inr absent ↦ rw absent v
  | inl there ↦
      let absent_before = v.linked e t alive in
      rw there (
        written-IsLinked m e t (waiters m e ++ t ∷ []) ((m.threads t).events ++ e ∷ []) v there
          (λ u p. count-push u t (waiters m e) ∙ rw (==_ne t u (λ r. p (sym r))) (omega arith))
          (λ f p.
            count-push f e (m.threads t).events ∙ rw (==_ne e f (λ r. p (sym r))) (omega arith))
          (λ a. ground (
            arith,
            count-push t t (waiters m e),
            count-push e e (m.threads t).events,
            absent_before,
          ))
          (λ z. absurd (cc)))
]

-- unwait_event keeps events and threads linked: a thread that is no zombie lists an event as often as
-- the event lists it, and no event lists a zombie.
pub unwait_event-IsLinked :
    (m : Manager) (cpu e : ℕ) → IsLinked m → IsLinked (unwait_event m cpu e).1
unfolding unwait_event
unwait_event-IsLinked m cpu e v = elim (Bool-cases (contains m.events e)) [
  | inr absent ↦ rw absent v
  | inl there ↦
      let t = (local_at m cpu).this_thread in
      rw there (
        written-IsLinked m e t (erase_all (waiters m e) t) (erase_all (m.threads t).events e) v
          there (λ u p. count-erase_all u t (waiters m e) ∙ rw (==_ne t u (λ r. p (sym r))))
          (λ f p. count-erase_all f e (m.threads t).events ∙ rw (==_ne e f (λ r. p (sym r))))
          (λ a.
            ground
              (arith, count-erase_all t t (waiters m e), count-erase_all e e (m.threads t).events))
          (λ z. count-erase_all t t (waiters m e) ∙ rw (==_refl t)))
]

-- An event as find_empty_slot makes room for it is empty, and no other event changes.
waiters-create_event :
    (m : Manager) (f : ℕ)
    → length m.events + 1 < 2 ^ 32
    → waiters (create_event m).1 f ≡ waiters m f
unfolding create_event
waiters-create_event m f h =
    let s = find_empty_slot-IsSlot m.events h in
    let d = (find_empty_slot m.events).1 in
    let e = (find_empty_slot m.events).0 in
    elim (ℕ_discrete e f) [
      | yes p ↦ rw (← p) (rw (get_or-set_self d e (some []) none s.in_range, s.unused))
      | no p ↦ rw (get_or-set_ne d e f (some []) none p, s.kept f)
    ]

-- create_event, with fewer than 2 ^ 32 - 1 event slots, gives an event that was not there, for which
-- nobody waits, and keeps events and threads linked.
pub create_event-IsLinked :
    (m : Manager)
    → length m.events + 1 < 2 ^ 32
    → IsLinked m
    → (contains m.events (create_event m).0 ≡ false)
      × (contains (create_event m).1.events (create_event m).0 ≡ true)
      × (waiters (create_event m).1 (create_event m).0 ≡ [])
      × IsLinked (create_event m).1
unfolding create_event
create_event-IsLinked m h v =
    let s = find_empty_slot-IsSlot m.events h in
    let d = (find_empty_slot m.events).1 in
    let e = (find_empty_slot m.events).0 in
    let found : get_or (set d e (some [])) e none ≡ some [] =
      get_or-set_self d e (some []) none s.in_range in
    (
      ground (arith, s.unused),
      ground (arith, length-set d e (some []), s.in_range, found),
      rw found,
      record {
        linked = λ f u a. ap (count u) (waiters-create_event m f h) ∙ v.linked f u a;
        dead = λ f u z. ap (count u) (waiters-create_event m f h) ∙ v.dead f u z;
      },
    )

is_nil_lem : (ts : List ℕ) → is_nil ts ≡ true → ts ≡ []
is_nil_lem [] h = refl
is_nil_lem (t ∷ ts) h = absurd (cc)

is_nil_used : (ts : List ℕ) → ts ≡ [] → is_nil ts ≡ false → ⊥
is_nil_used [] n used = absurd (cc)
is_nil_used (t ∷ ts) n used = absurd (cc)

&&-false : (b : Bool) → (b && false) ≡ false
&&-false true = refl
&&-false false = refl

waiters-delete_event :
    (m : Manager) (e f : ℕ)
    → waiters m e ≡ []
    → waiters (record m { events = set m.events e none }) f ≡ waiters m f
waiters-delete_event m e f h = elim (ℕ_discrete e f) [
  | no p ↦ rw (get_or-set_ne m.events e f none none p)
  | yes p ↦ rw (← p) (elim (dec_lt e (length m.events)) [
    | yes lt ↦ rw (get_or-set_self m.events e none none lt, h)
    | no ge ↦ rw (set_past m.events e none (omega arith))
  ])
]

-- What deleting event `e` of `m` comes to: the event is not there, or some thread waits for it, and
-- nothing changes; or it is there, nobody waits for it, and it is removed.
abbrev pub DeletesEvent : Manager → ℕ → Code × Manager → Type 0
DeletesEvent m e (c, m') =
    ((contains m.events e ≡ false) × (c ≡ no_such_event) × (m' ≡ m))
    ⊎ ((contains m.events e ≡ true) × (waiters m e ≢ []) × (c ≡ unfinished_event) × (m' ≡ m))
    ⊎ ((contains m.events e ≡ true)
        × (waiters m e ≡ [])
        × (c ≡ success)
        × (contains m'.events e ≡ false)
        × (m'.threads ≡ m.threads))

-- delete_event removes an event that is there and for which nobody waits, and otherwise changes
-- nothing and says why. It keeps events and threads linked.
pub delete_event-IsLinked :
    (m : Manager) (e : ℕ)
    → IsLinked m
    → DeletesEvent m e (delete_event m e) × IsLinked (delete_event m e).1
unfolding delete_event
delete_event-IsLinked m e v = elim (Bool-cases (contains m.events e)) [
  | inr absent ↦ rw absent (inl (refl, refl, refl), v)
  | inl there ↦ elim (Bool-cases (is_nil (waiters m e))) [
    | inr used ↦
        rw (there, used) (inr (inl (refl, λ n. is_nil_used (waiters m e) n used, refl, refl)), v)
    | inl unused ↦
        let nobody = is_nil_lem (waiters m e) unused in
        let slot = get_or-set_self m.events e none none (contains-lt m.events e there) in
        rw (there, unused)
          (
            inr (inr (refl, nobody, refl, rw slot (&&-false _), refl)),
            record {
              linked = λ f u a. ap (count u) (waiters-delete_event m e f nobody) ∙ v.linked f u a;
              dead = λ f u z. ap (count u) (waiters-delete_event m e f nobody) ∙ v.dead f u z;
            },
          )
  ]
]
