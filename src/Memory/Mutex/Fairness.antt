-- ===== src/Memory/Mutex/Fairness.antt =====
-- The mutex lets one call of a key in at a time, in the order of the calls.
use agent_diaries_core.Prelude.{
  ◌≤◌, ◌≡◌, refl, sym, ◌∙◌, ◌≢◌, if_pos, if_neg, Bool, true, false, [], ◌∷◌, ◌++◌, arith, Text,
  Text-discrete, All, length, filter, ite,
}
use agent_diaries_core.Memory.Mutex.{
  Phase-discrete, waiting, running, released, Call, Queue, join, is_resolved, Step, joins, starts,
  releases, Reach, empty, then,
}

-- A call that has started comes after released calls of its key only.
abbrev pub Precedes : Call → Call → Type 0
Precedes c d = d.key ≡ c.key → d.phase ≢ waiting → c.phase ≡ released

abbrev pub IsFair : Queue → Type 0
IsFair [] = Unit {0}
IsFair (c ∷ cs) = All (Precedes c) cs × IsFair cs

running-waiting : running ≢ waiting
running-waiting e = cc

waiting-released : waiting ≢ released
waiting-released e = cc

running-released : running ≢ released
running-released e = cc

All-snoc :
    (c d : Call) (q : Queue) → All (Precedes c) q → Precedes c d → All (Precedes c) (q ++ d ∷ [])
All-snoc c d [] h p = (p, tt)
All-snoc c d (x ∷ q) (p, h) k = (p, All-snoc c d q h k)

IsFair-join : (key : Text) (q : Queue) → IsFair q → IsFair (join key q)
unfolding join
IsFair-join key [] h = (tt, tt)
IsFair-join key (c ∷ q) (p, h) = (All-snoc c _ q p (λ _ n. absurd (n refl)), IsFair-join key q h)

-- A call in the queue is replaced by one that other calls precede, and that precedes others, if
-- that was so before.
module _ (old new : Call) (after : Queue) where
  Precedes-replaced :
      (c : Call) (before : Queue)
      → (Precedes c old → Precedes c new)
      → All (Precedes c) (before ++ old ∷ after)
      → All (Precedes c) (before ++ new ∷ after)
  Precedes-replaced c [] k (p, h) = (k p, h)
  Precedes-replaced c (x ∷ before) k (p, h) = (p, Precedes-replaced c before k h)

  followed_by :
      (ds : Queue)
      → ((d : Call) → Precedes old d → Precedes new d)
      → All (Precedes old) ds
      → All (Precedes new) ds
  followed_by [] k h = tt
  followed_by (d ∷ ds) k (p, h) = (k d p, followed_by ds k h)

  IsFair-replaced :
      (before : Queue)
      → All (λ c. Precedes c old → Precedes c new) before
      → ((d : Call) → Precedes old d → Precedes new d)
      → IsFair (before ++ old ∷ after)
      → IsFair (before ++ new ∷ after)
  IsFair-replaced [] k l (p, h) = (followed_by after l p, h)
  IsFair-replaced (c ∷ before) (j, k) l (p, h) =
      (Precedes-replaced c before j p, IsFair-replaced before k l h)

resolved-cons :
    (key : Text) (c : Call) (cs : Queue)
    → is_resolved key (c ∷ cs) ≡ true
    → (c.key ≡ key → c.phase ≡ released) × (is_resolved key cs ≡ true)
unfolding is_resolved
resolved-cons key c cs e = ground arith

resolved-All :
    (key : Text) (new : Call) (before : Queue)
    → new.key ≡ key
    → is_resolved key before ≡ true
    → All (λ c. Precedes c (record { key = key; phase = waiting }) → Precedes c new) before
unfolding is_resolved
resolved-All key new [] e h = tt
resolved-All key new (c ∷ before) e h =
    let (r, k) = resolved-cons key c before h in
    (λ p i n. r (sym i ∙ e), resolved-All key new before e k)

released-All :
    (key : Text) (before : Queue)
    → All
        (λ c.
          Precedes c (record { key = key; phase = running })
          → Precedes c (record { key = key; phase = released }))
        before
released-All key [] = tt
released-All key (c ∷ before) = (λ p k n. p k running-waiting, released-All key before)

Step-IsFair : {q r : Queue} → Step q r → IsFair q → IsFair r
Step-IsFair (joins key q) h = IsFair-join key q h
Step-IsFair (starts key before after e) h =
    IsFair-replaced (record { key = key; phase = waiting }) (record { key = key; phase = running })
      after before (resolved-All key _ before refl e) (λ d p k n. absurd (waiting-released (p k n)))
      h
Step-IsFair (releases key before after) h =
    IsFair-replaced (record { key = key; phase = running }) (record { key = key; phase = released })
      after before (released-All key before) (λ d p k n. refl) h

-- In every state that the mutex reaches, a call that has started is preceded by released calls of
-- its key only: the calls of a key start in the order in which they were made.
pub Reach-IsFair : {q : Queue} → Reach q → IsFair q
Reach-IsFair empty = tt
Reach-IsFair (then r s) = Step-IsFair s (Reach-IsFair r)

-- Is the call inside its `fn`?
abbrev pub runs : Text → Call → Bool
unfolding Phase-discrete
runs key c = ite (Text-discrete c.key key) (ite (Phase-discrete c.phase running) true false) false

none_running :
    (c : Call) (cs : Queue) (key : Text)
    → All (Precedes c) cs
    → c.key ≡ key
    → c.phase ≡ running
    → length (filter (runs key) cs) ≡ 0
unfolding runs
none_running c [] key h k r = refl
none_running c (d ∷ cs) key (p, h) k r = elim (Text-discrete d.key key) [
  | yes i ↦ elim (Phase-discrete d.phase running) [
    | yes j ↦ absurd (running-released (sym r ∙ p (i ∙ sym k) (λ w. running-waiting (sym j ∙ w))))
    | no j ↦
        rw (if_pos (Text-discrete d.key key) i, if_neg (Phase-discrete d.phase running) j)
          (none_running c cs key h k r)
  ]
  | no i ↦ rw (if_neg (Text-discrete d.key key) i) (none_running c cs key h k r)
]

one_running : (key : Text) (q : Queue) → IsFair q → length (filter (runs key) q) ≤ 1
unfolding runs
one_running key [] h = omega arith
one_running key (c ∷ q) (p, h) = elim (Text-discrete c.key key) [
  | yes i ↦ elim (Phase-discrete c.phase running) [
    | yes j ↦
        rw (if_pos (Text-discrete c.key key) i, if_pos (Phase-discrete c.phase running) j)
          (let none = none_running c q key p i j in omega arith)
    | no j ↦
        rw (if_pos (Text-discrete c.key key) i, if_neg (Phase-discrete c.phase running) j)
          (one_running key q h)
  ]
  | no i ↦ rw (if_neg (Text-discrete c.key key) i) (one_running key q h)
]

-- At most one call of a key runs at a time.
pub Reach-exclusive : (key : Text) {q : Queue} → Reach q → length (filter (runs key) q) ≤ 1
Reach-exclusive key {q} r = one_running key q (Reach-IsFair r)
