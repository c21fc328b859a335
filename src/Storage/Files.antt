-- ===== src/Storage/Files.antt =====
-- src/memory/storage.ts: `LocalFileStorage`, one JSON file for each key. The files are the texts by
-- their paths; a write that the file system refuses is not followed.
use agent_diaries_core.Prelude.{
  ℕ, ◌≡◌, refl, sym, ◌∙◌, ap, Bool, ◌&&◌, ◌||◌, ◌++◌, map, Option, none, some, Text, Text-discrete,
  codes, ite, if_pos, if_neg, if◌then◌else◌, leb, ◌==◌,
}
use agent_diaries_core.JsMap.{JsMap}
use agent_diaries_core.JsMap
use agent_diaries_core.Storage.Adapter.{Json, or_null}

-- `[a-zA-Z0-9_-]`
unfoldable pub is_safe : ℕ → Bool
is_safe c =
    (leb 97 c && leb c 122)
    || ((leb 65 c && leb c 90) || ((leb 48 c && leb c 57) || ((c == 95) || (c == 45))))

unfoldable pub safe_key : Text → Text
unfolding is_safe
safe_key key = map (λ c. if is_safe c then c else 95) key

module _ {D : Type 0} (json : Json D) (base_dir : Text) where
  open json use {Source, stringify, parse, parse-stringify}

  unfoldable pub get_file_path : Text → Text
  unfolding safe_key
  get_file_path key = base_dir ++ codes "/" ++ safe_key key ++ codes ".json"

  unfoldable pub read_file : Option Source → Option D
  read_file none = none
  read_file (some t) = or_null json (parse t)

  unfoldable pub get : Text → JsMap Source → Option D
  unfolding read_file get_file_path
  get key files = read_file (JsMap.get (get_file_path key) files)

  unfoldable pub set : Text → Option D → JsMap Source → JsMap Source
  unfolding get_file_path
  set key d files = JsMap.set (get_file_path key) (stringify d) files

  -- `withLock` makes the file that it locks, with the text of `null`.
  unfoldable pub make_file : Text → Option Source → JsMap Source → JsMap Source
  make_file path none files = JsMap.set path (stringify none) files
  make_file path (some t) files = files

  unfoldable pub prepare : Text → JsMap Source → JsMap Source
  unfolding make_file get_file_path
  prepare key files = make_file (get_file_path key) (JsMap.get (get_file_path key) files) files

  read_file-stringify : (d : Option D) → read_file (some (stringify d)) ≡ d
  unfolding read_file
  read_file-stringify none = ap (or_null json) (parse-stringify none)
  read_file-stringify (some d) = ap (or_null json) (parse-stringify (some d))

  -- A key shares its file with the keys of the same safe text, and with no other.
  pub get-set :
      (j k : Text) (d : Option D) (files : JsMap Source)
      → get j (set k d files)
        ≡ ite (Text-discrete (get_file_path k) (get_file_path j)) d (get j files)
  unfolding get set
  get-set j k d files = elim (Text-discrete (get_file_path k) (get_file_path j)) [
    | yes e ↦
        ap read_file (
          JsMap.get-set (get_file_path j) (get_file_path k) (stringify d) files
          ∙ if_pos (Text-discrete (get_file_path k) (get_file_path j)) e _ _)
        ∙ read_file-stringify d
        ∙ sym (if_pos (Text-discrete (get_file_path k) (get_file_path j)) e _ _)
    | no n ↦
        ap read_file (JsMap.get-set_ne (get_file_path j) (get_file_path k) (stringify d) files n)
        ∙ sym (if_neg (Text-discrete (get_file_path k) (get_file_path j)) n _ _)
  ]

  -- Taking the lock of a key is not seen by any reader.
  pub get-prepare : (j k : Text) (files : JsMap Source) → get j (prepare k files) ≡ get j files
  unfolding get prepare set read_file
  get-prepare j k files = made (JsMap.get (get_file_path k) files) refl
    where
      made :
          (o : Option Source)
          → JsMap.get (get_file_path k) files ≡ o
          → read_file (JsMap.get (get_file_path j) (make_file (get_file_path k) o files))
            ≡ read_file (JsMap.get (get_file_path j) files)
      made (some t) e = refl
      made none e = elim (Text-discrete (get_file_path k) (get_file_path j)) [
        | yes q ↦
            get-set j k none files
            ∙ if_pos (Text-discrete (get_file_path k) (get_file_path j)) q _ _
            ∙ sym (ap read_file (ap (λ path. JsMap.get path files) (sym q) ∙ e))
        | no n ↦
            get-set j k none files
            ∙ if_neg (Text-discrete (get_file_path k) (get_file_path j)) n _ _
      ]
