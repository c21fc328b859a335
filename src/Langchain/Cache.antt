-- ===== src/Langchain/Cache.antt =====
-- src/langchain/AgentDiariesCache.ts. `JSON.stringify` and `JSON.parse` are given by the host; an
-- error of the latter is none.
use agent_diaries_core.Prelude.{
  ℕ, ◌≡◌, refl, ◌∙◌, ap, List, ◌++◌, Option, none, some, Text, codes, false, if◌then◌else◌,
}
use agent_diaries_core.Shared.{TaskRecord}
use agent_diaries_core.Shared.Effect.{M, ok, return}
use agent_diaries_core.Shared.Signature.{normalize_signature}
use agent_diaries_core.Diary.{Config, World, signature_of, loaded, find_record, is_expired, or_else}
use agent_diaries_core.Diary.Claims.{Times, Answer, fresh, execute_once}
use agent_diaries_core.Diary.Views.{get_task_result}
use agent_diaries_core.Diary.Exclusive.{IsWithin}
use agent_diaries_core.Diary.Once.{execute_once-stored}
use agent_diaries_core.Langchain.Tool.{or_text, or_2000, ttl_option}

-- `AgentDiariesCacheOptions`, but for the storage.
pub record Options : Type 0 where
  pub agent_id : Option Text
  pub default_ttl_ms : Option ℕ
  pub max_history : Option ℕ

unfoldable pub diary_of : Options → Config
diary_of o = record {
  agent_id = or_text o.agent_id (codes "langchain-cache");
  max_history = some (or_2000 o.max_history);
  default_ttl_ms = o.default_ttl_ms;
  hash_fn = none;
  on_task_expired = none;
}

unfoldable pub build_cache_key : Text → Text → Text
unfolding normalize_signature
build_cache_key prompt llm_key =
    codes "llm-cache:" ++ normalize_signature (llm_key ++ codes ":" ++ prompt)

get_task_result-live :
    (c : Config) (title : Text) (now : ℕ) (w : World) (r : TaskRecord)
    → find_record (signature_of c title) (loaded c w).history ≡ some r
    → is_expired r now ≡ false
    → get_task_result c title now w ≡ r.result
unfolding get_task_result
get_task_result-live c title now w r e live =
    ap
      (λ (o : Option TaskRecord). elim o as (λ _. Option Text) [
        | none ↦ none
        | some x ↦ if is_expired x now then none else x.result
      ])
      e
    ∙ rw live refl

module _ {G : Type 0} (stringify : List G → Text) (parse : Text → Option (List G)) where
  abbrev pub parsed : Option Text → Option (List G)
  parsed none = none
  parsed (some t) = parse t

  unfoldable pub lookup : Options → Text → Text → ℕ → World → Option (List G)
  unfolding diary_of build_cache_key get_task_result
  lookup o prompt llm_key now w =
      parsed (get_task_result (diary_of o) (build_cache_key prompt llm_key) now w)

  -- `update`, with what `executeOnce` answers.
  unfoldable pub update : Options → Text → Text → List G → Times → M World (Answer Text)
  unfolding diary_of build_cache_key execute_once
  update o prompt llm_key value t =
      execute_once (λ (x : Text). some x) (diary_of o) (build_cache_key prompt llm_key)
        (return (stringify value)) (ttl_option o.default_ttl_ms) t

  -- A response that was stored afresh is found again until its time to live has passed, by every
  -- prompt and configuration with the same key, that is, with the same text but for case and white
  -- space. JSON reads back what it wrote.
  pub lookup-update :
      (o : Options) (prompt llm_key prompt' llm_key' : Text) (value : List G) (t : Times) (now : ℕ)
      (w v : World)
      → parse (stringify value) ≡ some value
      → update o prompt llm_key value t w ≡ (v, ok (fresh (stringify value)))
      → normalize_signature (llm_key' ++ codes ":" ++ prompt')
        ≡ normalize_signature (llm_key ++ codes ":" ++ prompt)
      → IsWithin (or_else (ttl_option o.default_ttl_ms) o.default_ttl_ms) t.finished now
      → lookup o prompt' llm_key' now v ≡ some value
  unfolding lookup update build_cache_key
  lookup-update o prompt llm_key prompt' llm_key' value t now w v back e same within =
      let (r, found, result, live) =
        execute_once-stored (λ (x : Text). some x) (diary_of o) (build_cache_key prompt llm_key)
          (return (stringify value)) (ttl_option o.default_ttl_ms) t (stringify value) w v
          (λ u. refl) e in
      ap (λ k. parsed (get_task_result (diary_of o) (codes "llm-cache:" ++ k) now v)) same
      ∙ ap parsed (
          get_task_result-live (diary_of o) (build_cache_key prompt llm_key) now v r found
            (live now within)
          ∙ result)
      ∙ back
