-- ===== src/Memory/Mutex/Progress.antt =====
-- A call of the mutex is let in once the calls before it have released their holds.
use agent_diaries_core.Prelude.{
  ◌≡◌, refl, sym, ◌∙◌, ap, subst, ite, if_pos, if_neg, true, false, [], ◌∷◌, ◌++◌, map, arith, Text,
  Text-discrete,
}
use agent_diaries_core.Windows.{append-nil, append_assoc}
use agent_diaries_core.Memory.Mutex.{
  Phase-discrete, Phase, waiting, running, released, Call, Queue, is_resolved, Step, starts,
  releases,
}

pub data Steps (q : Queue) : Queue → Type 0 where
  here : Steps q q
  next : {r s : Queue} → Steps q r → Step r s → Steps q s

-- A call of the key has released its hold; the other calls are as they were.
abbrev pub done : Text → Call → Call
done key c = ite (Text-discrete c.key key) (record c { phase = released }) c

joined : {q r s : Queue} → Steps q r → Steps r s → Steps q s
joined a here = a
joined a (next b x) = next (joined a b) x

resolved-append :
    (key : Text) (front : Queue) (c : Call)
    → is_resolved key front ≡ true
    → is_resolved key (c ∷ []) ≡ true
    → is_resolved key (front ++ c ∷ []) ≡ true
unfolding is_resolved
resolved-append key [] c e f = f
resolved-append key (d ∷ front) c e f = ground (arith, resolved-append key front c)

done-resolved : (key : Text) (c : Call) → is_resolved key (done key c ∷ []) ≡ true
unfolding is_resolved Phase-discrete
done-resolved key c = elim (Text-discrete c.key key) [
  | yes e ↦ rw (if_pos (Text-discrete c.key key) e (record c { phase = released }) c) (
      rw
        (if_pos (Text-discrete c.key key) e (ite (Phase-discrete released released) true false)
          true)
        refl)
  | no n ↦ rw (if_neg (Text-discrete c.key key) n (record c { phase = released }) c) (
      rw
        (if_neg (Text-discrete c.key key) n (ite (Phase-discrete c.phase released) true false) true)
        refl)
]

module _ (key : Text) (front after : Queue) (free : is_resolved key front ≡ true) where
  phase-Steps :
      (phase : Phase)
      → Steps
          (front ++ record { key = key; phase = phase } ∷ after)
          (front ++ record { key = key; phase = released } ∷ after)
  phase-Steps released = here
  phase-Steps running = next here (releases key front after)
  phase-Steps waiting = next (next here (starts key front after free)) (releases key front after)

  call-Steps : (c : Call) → Steps (front ++ c ∷ after) (front ++ done key c ∷ after)
  call-Steps c = elim (Text-discrete c.key key) [
    | yes e ↦ rw (if_pos (Text-discrete c.key key) e) (
        subst
          (λ k.
            Steps (front ++ record { key = k; phase = c.phase } ∷ after)
              (front ++ record { key = k; phase = released } ∷ after))
          (sym e) (phase-Steps c.phase))
    | no n ↦ rw (if_neg (Text-discrete c.key key) n) here
  ]

all-Steps :
    (key : Text) (front before after : Queue)
    → is_resolved key front ≡ true
    → Steps (front ++ (before ++ after)) (front ++ (map (done key) before ++ after))
      × (is_resolved key (front ++ map (done key) before) ≡ true)
all-Steps key front [] after free = (here, ap (is_resolved key) (append-nil front) ∙ free)
all-Steps key front (c ∷ before) after free =
    let front' = front ++ done key c ∷ [] in
    let (rest, free') =
      all-Steps key front' before after
        (resolved-append key front (done key c) free (done-resolved key c)) in
    (
      joined (call-Steps key front (before ++ after) free c) (
          subst (λ q. Steps q (front ++ done key c ∷ (map (done key) before ++ after)))
            (append_assoc front (done key c ∷ []) (before ++ after))
            (subst (Steps (front' ++ (before ++ after)))
              (append_assoc front (done key c ∷ []) (map (done key) before ++ after)) rest)),
      ap (is_resolved key) (sym (append_assoc front (done key c ∷ []) (map (done key) before)))
          ∙ free',
    )

-- In every queue a waiting call starts after finitely many steps, in which the calls of its key
-- before it have run and released their holds, and no other call has done anything.
pub waiting-Steps :
    (key : Text) (before after : Queue)
    → Steps
        (before ++ record { key = key; phase = waiting } ∷ after)
        (map (done key) before ++ record { key = key; phase = running } ∷ after)
unfolding is_resolved
waiting-Steps key before after =
    let (drained, free) =
      all-Steps key [] before (record { key = key; phase = waiting } ∷ after) refl in
    next drained (starts key (map (done key) before) after free)
