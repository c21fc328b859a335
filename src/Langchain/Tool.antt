-- ===== src/Langchain/Tool.antt =====
-- src/langchain/DeduplicatedTool.ts. The JSON text of a value is given by the host.
use agent_diaries_core.Prelude.{
  ℕ, zero, suc, ◌≡◌, refl, ◌∙◌, ap, List, [], ◌∷◌, ◌++◌, map, Option, none, some, Text, codes,
}
use agent_diaries_core.Shared.{Value, string}
use agent_diaries_core.Shared.Effect.{M, Result, ok, err, return, ◌>>=◌}
use agent_diaries_core.Diary.{Config, World}
use agent_diaries_core.Diary.Claims.{Times, Answer, fresh, cached, execute_once}
use agent_diaries_core.Diary.Replay.{IsQuiet}
use agent_diaries_core.Diary.Once.{ExecuteCall, execute_all, execute_all-once, AreRepeats}

-- `DeduplicatedToolOptions`, but for the storage; `stringify` is `JSON.stringify`.
pub record Options : Type 0 where
  pub agent_id : Option Text
  pub ttl_ms : Option ℕ
  pub key_builder : Option (Text → Value → Text)
  pub max_history : Option ℕ
  pub stringify : Value → Text

abbrev pub or_text : Option Text → Text → Text
or_text none t = t
or_text (some u) t = u

abbrev pub or_2000 : Option ℕ → ℕ
or_2000 none = 2000
or_2000 (some n) = n

unfoldable pub diary_of : Options → Config
diary_of o = record {
  agent_id = or_text o.agent_id (codes "langchain-tools");
  max_history = some (or_2000 o.max_history);
  default_ttl_ms = o.ttl_ms;
  hash_fn = none;
  on_task_expired = none;
}

-- `typeof v === "string" ? v : JSON.stringify(v)`
abbrev pub text_of : Options → Value → Text
text_of o (string t) = t
text_of o v = o.stringify v

unfoldable pub build_key : Options → Option (Text → Value → Text) → Text → Value → Text
build_key o (some builder) name input = builder name input
build_key o none name input = codes "tool:" ++ name ++ codes ":" ++ text_of o input

-- `this.ttlMs ? { ttlMs: this.ttlMs } : undefined`
abbrev pub ttl_option : Option ℕ → Option ℕ
ttl_option none = none
ttl_option (some zero) = none
ttl_option (some (suc n)) = some (suc n)

-- The output of the inner tool, as a text.
unfoldable pub inner : Options → M World Value → M World Text
inner o call = call >>= λ output. return (text_of o output)

-- What the caller gets; `undefined` is none.
abbrev pub result_of : Result (Answer Text) → Result (Option Text)
result_of (ok (fresh t)) = ok (some t)
result_of (ok (cached r)) = ok r
result_of (err e) = err e

-- `invoke`, for an inner tool that does `call` on this input.
unfoldable pub invoke :
    Options → Text → Value → M World Value → Times → World → World × Result (Option Text)
unfolding diary_of build_key inner execute_once
invoke o name input call t w =
    let (v, r) =
      execute_once (λ (x : Text). some x) (diary_of o) (build_key o o.key_builder name input)
        (inner o call) (ttl_option o.ttl_ms) t w in
    (v, result_of r)

pub record Invocation : Type 0 where
  pub input : Value
  pub call : M World Value
  pub times : Times

unfoldable pub invoke_all :
    Options → Text → List Invocation → World → World × List (Result (Option Text))
unfolding invoke
invoke_all o name [] w = (w, [])
invoke_all o name (k ∷ ks) w =
    let (v, r) = invoke o name k.input k.call k.times w in
    let (u, rs) = invoke_all o name ks v in (u, r ∷ rs)

abbrev pub execution : Options → Text → Invocation → ExecuteCall Text
execution o name k = record {
  title = build_key o o.key_builder name k.input;
  fn = inner o k.call;
  ttl = ttl_option o.ttl_ms;
  times = k.times;
}

invoke_all-executes :
    (o : Options) (name : Text) (ks : List Invocation) (w : World)
    → let p = execute_all (λ (x : Text). some x) (diary_of o) (map (execution o name) ks) w in
      invoke_all o name ks w ≡ (p.0, map result_of p.1)
unfolding invoke_all invoke execute_all
invoke_all-executes o name [] w = refl
invoke_all-executes o name (k ∷ ks) w =
    let v = (invoke o name k.input k.call k.times w).0 in
    ap
      (λ (p : World × List (Result (Option Text))).
        (p.0, (invoke o name k.input k.call k.times w).1 ∷ p.1))
      (invoke_all-executes o name ks v)

-- The keys of the invocations have the signature of that of this input, and they come before its result runs out.
abbrev pub AreSame : Options → Text → Value → ℕ → List Invocation → Type 0
AreSame o name input finished ks =
    AreRepeats (λ (x : Text). some x) (diary_of o) (build_key o o.key_builder name input)
      (ttl_option o.ttl_ms) finished (map (execution o name) ks)

all_cached :
    (o : Options) (name : Text) (t : Text) (ks : List Invocation)
    → map result_of (map (λ _. ok (cached (some t))) (map (execution o name) ks))
      ≡ map (λ _. ok (some t)) ks
all_cached o name t [] = refl
all_cached o name t (k ∷ ks) = ap (◌∷◌ (ok (some t))) (all_cached o name t ks)

-- Once an invocation has run the inner tool and returned its text, invocations whose keys have the
-- same signature, that follow it with no other calls of the diary between and before the time to
-- live of the result has passed, all return the same text, without running the inner tool or
-- writing anything. The call of the inner tool leaves the diaries alone.
pub invoke_all-same :
    (o : Options) (name : Text) (input : Value) (call : M World Value) (t : Times) (x : Text)
    (w v : World) (ks : List Invocation)
    → IsQuiet (inner o call)
    → execute_once
        (λ (y : Text). some y)
        (diary_of o)
        (build_key o o.key_builder name input)
        (inner o call)
        (ttl_option o.ttl_ms)
        t
        w
      ≡ (v, ok (fresh x))
    → AreSame o name input t.finished ks
    → (invoke o name input call t w ≡ (v, ok (some x)))
      × (invoke_all o name ks v ≡ (v, map (λ _. ok (some x)) ks))
unfolding invoke
invoke_all-same o name input call t x w v ks quiet e a =
    let p =
      execute_all-once (λ (y : Text). some y) (diary_of o) (build_key o o.key_builder name input)
        (inner o call) (ttl_option o.ttl_ms) t x w v (map (execution o name) ks) quiet e a in
    (
      ap (λ (q : World × Result (Answer Text)). (q.0, result_of q.1)) e,
      invoke_all-executes o name ks v
          ∙ ap (λ (q : World × List (Result (Answer Text))). (q.0, map result_of q.1)) p
          ∙ ap (λ rs. (v, rs)) (all_cached o name x ks),
    )
