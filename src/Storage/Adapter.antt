-- ===== src/Storage/Adapter.antt =====
-- src/memory/storage.ts: `get` and `set` of `MemoryStorage`, which keeps JSON texts. JSON and its texts
-- are the host's; a text that it cannot parse is none. Of the lock see Memory/Mutex, whose code it shares.
use agent_diaries_core.Prelude.{
  if◌then◌else◌, ◌≡◌, ◌≢◌, refl, sym, ◌∙◌, ap, Bool, false, Option, none, some, Text, Text-discrete,
  ite, if_pos, if_neg,
}
use agent_diaries_core.JsMap.{JsMap}
use agent_diaries_core.JsMap

-- `JSON.stringify` and `JSON.parse` on the documents `D`; `null` is none.
pub record Json (D : Type 0) : Type 1 where
  pub Source : Type 0
  pub is_empty : Source → Bool
  pub stringify : Option D → Source
  pub parse : Source → Option (Option D)
  -- What is written is no empty text, and is read back.
  pub is_empty-stringify : (d : Option D) → is_empty (stringify d) ≡ false
  pub parse-stringify : (d : Option D) → parse (stringify d) ≡ some d

module _ {D : Type 0} (json : Json D) where
  open json use {Source, is_empty, stringify, parse, is_empty-stringify, parse-stringify}

  abbrev pub or_null : Option (Option D) → Option D
  or_null none = none
  or_null (some d) = d

  or_null-some : (d : Option D) → or_null (some d) ≡ d
  or_null-some none = refl
  or_null-some (some d) = refl

  -- `if (!data) return null`, and the `catch` of the parser.
  unfoldable pub read_text : Option Source → Option D
  read_text none = none
  read_text (some t) = if is_empty t then none else or_null (parse t)

  unfoldable pub get : Text → JsMap Source → Option D
  unfolding read_text
  get key store = read_text (JsMap.get key store)

  unfoldable pub set : Text → Option D → JsMap Source → JsMap Source
  set key d store = JsMap.set key (stringify d) store

  read_text-stringify : (d : Option D) → read_text (some (stringify d)) ≡ d
  unfolding read_text
  read_text-stringify d = rw (is_empty-stringify d) (rw (parse-stringify d) (or_null-some d))

  -- A document is read back, and `null` is as good as nothing.
  pub get-set :
      (j k : Text) (d : Option D) (store : JsMap Source)
      → get j (set k d store) ≡ ite (Text-discrete k j) d (get j store)
  unfolding get set
  get-set j k d store = elim (Text-discrete k j) [
    | yes e ↦
        ap read_text (JsMap.get-set j k (stringify d) store ∙ if_pos (Text-discrete k j) e _ _)
        ∙ read_text-stringify d
        ∙ sym (if_pos (Text-discrete k j) e _ _)
    | no n ↦
        ap read_text (JsMap.get-set_ne j k (stringify d) store n)
        ∙ sym (if_neg (Text-discrete k j) n _ _)
  ]

  pub get-set_self : (k : Text) (d : Option D) (store : JsMap Source) → get k (set k d store) ≡ d
  get-set_self k d store = get-set k k d store ∙ if_pos (Text-discrete k k) refl _ _

  pub get-set_ne :
      (j k : Text) (d : Option D) (store : JsMap Source)
      → k ≢ j
      → get j (set k d store) ≡ get j store
  get-set_ne j k d store n = get-set j k d store ∙ if_neg (Text-discrete k j) n _ _
