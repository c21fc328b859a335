-- ===== src/Diary/Probing.antt =====
-- What `probe` answers, and what it leaves alone.
use agent_diaries_core.Prelude.{
  ℕ, ◌≤◌, ◌≡◌, refl, inl, inr, true, false, List, ◌∷◌, none, some, arith, Text, length, Bool-cases,
  Option-cases,
}
use agent_diaries_core.JsMap.{get-set_self}
use agent_diaries_core.Shared.{TaskRecord, AgentState, Error}
use agent_diaries_core.Shared.Effect.{Result, ok, err, return, bind-ok, bind-err}
use agent_diaries_core.Diary.{
  Config, World, loaded, saved, or_empty, is_expired, find_record, drop_record, call_hook, Probe,
  held, free, probe,
}
use agent_diaries_core.Diary.Records.{
  IsFree, IsDistinct, IsFree-find_record, drop_record-IsDistinct, drop_record-frees,
  length-drop_record-le,
}

pub loaded-saved : (c : Config) (s : AgentState) (w : World) → loaded c (saved c s w) ≡ s
unfolding loaded saved or_empty
loaded-saved c s w = rw get-set_self

pub loaded-of-store : (c : Config) (v w : World) → v.store ≡ w.store → loaded c v ≡ loaded c w
unfolding loaded
loaded-of-store c v w e = rw e

-- The history with room for the signature: as it was, or without the record that ran out.
pub data Vacated (s : Text) (now : ℕ) (h kept : List TaskRecord) : Type 0 where
  never : find_record s h ≡ none → kept ≡ h → Vacated s now h kept
  lapsed :
      (r : TaskRecord)
      → find_record s h ≡ some r
      → is_expired r now ≡ true
      → kept ≡ drop_record s h
      → Vacated s now h kept

pub data Probed (c : Config) (s : Text) (now : ℕ) (h : List TaskRecord) (w : World)
    (p : World × Result Probe) : Type 0 where
  vacant :
      (v : World) (kept : List TaskRecord)
      → v.store ≡ w.store
      → Vacated s now h kept
      → p ≡ (v, ok (free kept))
      → Probed c s now h w p
  taken :
      (r : TaskRecord)
      → find_record s h ≡ some r
      → is_expired r now ≡ false
      → p ≡ (w, ok (held r))
      → Probed c s now h w p
  hook_failed :
      (r : TaskRecord)
      → find_record s h ≡ some r
      → is_expired r now ≡ true
      → (v : World) (e : Error) → v.store ≡ w.store
      → p ≡ (v, err e)
      → Probed c s now h w p

-- The hook writes nothing to the store.
pub data Hooked (w : World) (p : World × Result (Unit {0})) : Type 0 where
  passed : (v : World) → v.store ≡ w.store → p ≡ (v, ok tt) → Hooked w p
  threw : (v : World) (e : Error) → v.store ≡ w.store → p ≡ (v, err e) → Hooked w p

Hooked-result : (w v : World) (q : Result (Unit {0})) → v.store ≡ w.store → Hooked w (v, q)
Hooked-result w v (ok tt) e = passed v e refl
Hooked-result w v (err x) e = threw v x e refl

pub call_hook-Hooked : (c : Config) (r : TaskRecord) (w : World) → Hooked w (call_hook c r w)
unfolding call_hook
call_hook-Hooked c r w = elim (Option-cases c.on_task_expired) [
  | inl e ↦ rw (e, call_hook) (passed w refl refl)
  | inr (hook, e) ↦
      rw (e, call_hook)
        (Hooked-result w (record w { expirations = r ∷ w.expirations }) (hook r) refl)
]

pub probe-Probed :
    (c : Config) (s : Text) (now : ℕ) (h : List TaskRecord) (w : World)
    → Probed c s now h w (probe c s now h w)
unfolding probe
probe-Probed c s now h w = elim (Option-cases (find_record s h)) [
  | inl e ↦ rw (e, probe) (vacant w h refl (never e refl) refl)
  | inr (r, e) ↦ elim (Bool-cases (is_expired r now)) [
    | inl over ↦
        let k = λ (_ : Unit {0}). return {S = World} (free (drop_record s h)) in
        elim (call_hook-Hooked c r w) [
          | passed v q d ↦
              rw (e, probe, over)
                (vacant v (drop_record s h) q (lapsed r e over refl) (bind-ok (call_hook c r) k d))
          | threw v x q d ↦
              rw (e, probe, over) (hook_failed r e over v x q (bind-err (call_hook c r) k d))
        ]
    | inr live ↦ rw (e, probe, live) (taken r e live refl)
  ]
]

pub Vacated-room :
    {s : Text} {now : ℕ} {h kept : List TaskRecord}
    → Vacated s now h kept
    → IsDistinct h
    → IsFree s kept × IsDistinct kept × (length kept ≤ length h)
Vacated-room {s} {now} {h} (never e k) d = rw k (IsFree-find_record s h e, d, omega arith)
Vacated-room {s} {now} {h} (lapsed r e o k) d =
    rw k (drop_record-frees s h d, drop_record-IsDistinct s h d, length-drop_record-le s h)
