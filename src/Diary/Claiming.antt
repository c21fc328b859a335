-- ===== src/Diary/Claiming.antt =====
-- What `claimTask` answers and writes, by cases.
use agent_diaries_core.Prelude.{ℕ, ◌≡◌, Bool, true, false, List, Option, some, Text}
use agent_diaries_core.Shared.{TaskRecord, Error}
use agent_diaries_core.Shared.Effect.{Result, ok, err, bind-ok, bind-err}
use agent_diaries_core.Diary.{
  Config, World, is_expired, signature_of, or_else, loaded, saved, find_record, probe, enter,
  new_claim,
}
use agent_diaries_core.Diary.Claims.{finish_claim, claim_task}
use agent_diaries_core.Diary.Probing.{Vacated, vacant, taken, hook_failed, probe-Probed}

-- What `claimTask` answers and writes.
pub data ClaimOutcome (c : Config) (title : Text) (ttl : Option ℕ) (now : ℕ) (w : World)
    (p : World × Result Bool) : Type 0 where
  entered :
      (v : World) (kept : List TaskRecord)
      → v.store ≡ w.store
      → Vacated (signature_of c title) now (loaded c w).history kept
      → p ≡ (
        saved c
            (enter c
              (new_claim title (signature_of c title) now (or_else ttl c.default_ttl_ms))
              now
              (loaded c w)
              kept)
            v,
        ok true,
      )
      → ClaimOutcome c title ttl now w p
  refused :
      (r : TaskRecord)
      → find_record (signature_of c title) (loaded c w).history ≡ some r
      → is_expired r now ≡ false
      → p ≡ (w, ok false)
      → ClaimOutcome c title ttl now w p
  stopped :
      (r : TaskRecord)
      → find_record (signature_of c title) (loaded c w).history ≡ some r
      → is_expired r now ≡ true
      → (v : World) (e : Error) → v.store ≡ w.store
      → p ≡ (v, err e)
      → ClaimOutcome c title ttl now w p

pub claim_task-outcome :
    (c : Config) (title : Text) (ttl : Option ℕ) (now : ℕ) (w : World)
    → ClaimOutcome c title ttl now w (claim_task c title ttl now w)
unfolding claim_task
claim_task-outcome c title ttl now w =
    let look = probe c (signature_of c title) now (loaded c w).history in
    let end = finish_claim c title ttl now (loaded c w) in
    elim (probe-Probed c (signature_of c title) now (loaded c w).history w) [
      | vacant v kept q k e ↦ entered v kept q k (bind-ok look end e)
      | taken r f l e ↦ refused r f l (bind-ok look end e)
      | hook_failed r f o v x q e ↦ stopped r f o v x q (bind-err look end e)
    ]
