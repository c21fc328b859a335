-- ===== src/Tests/Workflows.antt =====
-- One stored workflow, and the coordinator's calls on it.
mod Handover
mod Timeline
mod Benchmark
use agent_diaries_core.Prelude.{
  ℕ, ◌+◌, ◌≡◌, refl, sym, ◌∙◌, ap, ◌≢◌, inl, if_pos, if_neg, true, [], ◌∷◌, none, some, Text, codes,
  Text-discrete,
}
use agent_diaries_core.JsMap
use agent_diaries_core.Shared.{
  undefined, string, WorkflowRecord, queued, claimed, completed, failed, thrown,
}
use agent_diaries_core.Shared.Effect.{ok, err, return, throw}
use agent_diaries_core.Memory.Persistence.{get_workflow}
use agent_diaries_core.Workflow.Domain.{Env, World}
use agent_diaries_core.Workflow.Machine.{can_transition, validate_transition}
use agent_diaries_core.Workflow.Repository.{move, move_found, cancel_workflow}
use agent_diaries_core.Workflow.Coordinator
use agent_diaries_core.Workflow.Coordinator.{Payloads}
use agent_diaries_core.Workflow.Lifecycle.{AreDistinct, IsSound, answer, cancel, execute, run}
use agent_diaries_core.Workflow.Lifecycle.Runs.{run-final}
use agent_diaries_core.Workflow.Lifecycle.Moves.{
  Decided, claims, completes, perform, perform-Decided,
}
use agent_diaries_core.Shared.{invalid_transition}
use agent_diaries_core.Workflow.Repository
use agent_diaries_core.Workflow.Execution.{stored}
use agent_diaries_core.Workflow.Execution.Running.{
  Ends, Leaves, execute_workflow-returns, execute_workflow-throws,
}

pub program : Unit {0}
unfolding run get_workflow JsMap.get Text-discrete move_found move validate_transition
    can_transition cancel_workflow
program = tt

abbrev pub host : Env
host = record { time = λ n. 100 + n; uuid = λ n. n ∷ [] }

host-AreDistinct : AreDistinct host
host-AreDistinct m n e = cc

abbrev pub payloads : Payloads
payloads = record {
  reused = λ s. string s;
  created = λ n o. string n;
  worker = λ w. string w;
  duration = λ n. undefined;
  error = λ e. string e;
}

abbrev pub key : Text
key = codes "wf"

abbrev pub waits : WorkflowRecord
waits = record {
  id = key;
  name = codes "Sync";
  state = queued;
  signature = some (codes "sync");
  worker_id = none;
  payload = undefined;
  result = undefined;
  fail_reason = none;
  created_at = 1;
  updated_at = 1;
  completed_at = none;
  ttl_ms = none;
}

abbrev pub with_workflow : WorkflowRecord → World
with_workflow wf = record {
  db = record {
    workflows = (key, wf) ∷ [];
    traces = [];
    timeline = [];
    metrics = [];
    reports = [];
  };
  workers = [];
  events = [];
  ticks = 0;
  ids = 0;
}

pub stores : (wf : WorkflowRecord) → get_workflow key (with_workflow wf).db ≡ some wf
unfolding get_workflow JsMap.get
stores wf = if_pos (Text-discrete key key) refl _ _

pub keyed :
    (wf : WorkflowRecord)
    → wf.id ≡ key
    → (id : Text) (x : WorkflowRecord) → get_workflow id (with_workflow wf).db ≡ some x
    → x.id ≡ id
unfolding get_workflow JsMap.get
keyed wf i id x e = elim (Text-discrete key id) [
  | yes p ↦
      let q : some wf ≡ some x = sym (if_pos (Text-discrete key id) p (some wf) none) ∙ e in
      let same : x ≡ wf = cc in ap (λ y. y.id) same ∙ i ∙ p
  | no p ↦ let q = sym (if_neg (Text-discrete key id) p (some wf) none) ∙ e in absurd cc
]

not_uuid : (n : ℕ) → key ≢ n ∷ []
not_uuid n e = cc

with_workflow-IsSound : (wf : WorkflowRecord) → wf.id ≡ key → IsSound host (with_workflow wf)
unfolding get_workflow JsMap.get
with_workflow-IsSound wf i = record {
  keyed = keyed wf i;
  fresh = λ n l. if_neg (Text-discrete key (n ∷ [])) (not_uuid n) (some wf) none;
}

only_key :
    (id : Text) (wf : WorkflowRecord)
    → get_workflow id (with_workflow waits).db ≡ some wf
    → wf.id ≡ id
only_key id wf e = (with_workflow-IsSound waits refl).keyed id wf e

perform-Decided_example :
    Decided host key
      (claims (codes "w1"))
      (with_workflow waits)
      (perform host key (claims (codes "w1")) (with_workflow waits))
perform-Decided_example =
    perform-Decided host key (claims (codes "w1")) (with_workflow waits) (only_key key)

-- A queued workflow that no worker has claimed is not completed.
not_completed :
    perform host key (completes undefined) (with_workflow waits)
    ≡ (with_workflow waits, err (invalid_transition queued completed))
unfolding program perform Repository.complete_workflow
not_completed = refl

abbrev pub is_done : WorkflowRecord
is_done = record waits { state = completed }

stays_done :
    get_workflow key
      (run host payloads (cancel key (answer (ok undefined))) (with_workflow is_done)).0.db
    ≡ some is_done
unfolding program
stays_done = refl

pub may_be_claimed : can_transition queued claimed ≡ true
unfolding can_transition
may_be_claimed = refl

run-final_example : is_done.state ≡ is_done.state
run-final_example =
    run-final host payloads (cancel key (answer (ok undefined))) (with_workflow is_done) key is_done
      is_done host-AreDistinct (with_workflow-IsSound is_done refl) (stores is_done) (inl refl)
      stays_done

-- The functions leave the workflow alone.
returns_3 :
    Ends key
      (codes "w1")
      (return (string (codes "3")))
      (ok (string (codes "3")))
      (λ x. x.id ≡ key × can_transition x.state completed ≡ true)
unfolding can_transition
returns_3 v (stored wf e (i, s, h)) = (v, refl, stored wf e (i, rw s refl))

execute_workflow-returns_example :
    Leaves host payloads key
      (Coordinator.execute_workflow host payloads key
        (codes "w1")
        (return (string (codes "3")))
        (with_workflow waits))
      (ok (string (codes "3")))
      (λ x. x.state ≡ completed × x.result ≡ string (codes "3"))
execute_workflow-returns_example =
    execute_workflow-returns host payloads key (codes "w1") (return (string (codes "3")))
      (string (codes "3")) waits (with_workflow waits) (stores waits) refl may_be_claimed returns_3

throws_x :
    Ends key
      (codes "w1")
      (throw (thrown (codes "x")))
      (err (thrown (codes "x")))
      (λ x. x.id ≡ key × can_transition x.state failed ≡ true)
unfolding can_transition
throws_x v (stored wf e (i, s, h)) = (v, refl, stored wf e (i, rw s refl))

execute_workflow-throws_example :
    Leaves host payloads key
      (Coordinator.execute_workflow host payloads key
        (codes "w1")
        (throw (thrown (codes "x")))
        (with_workflow waits))
      (err (thrown (codes "x")))
      (λ x.
        x.state ≡ failed × x.fail_reason ≡ some (Coordinator.error_message (thrown (codes "x"))))
execute_workflow-throws_example =
    execute_workflow-throws host payloads key (codes "w1") (throw (thrown (codes "x")))
      (thrown (codes "x")) waits (with_workflow waits) (stores waits) refl may_be_claimed throws_x
