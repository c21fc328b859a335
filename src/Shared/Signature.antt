-- ===== src/Shared/Signature.antt =====
-- src/shared/utils.ts and `AgentDiary.normalizeSignature`: task titles to signatures.
-- `toLowerCase` is exact for titles whose letters with case are ASCII; the white space is all that
-- `trim` and `\s` know.
pub mod Laws
use agent_diaries_core.Prelude.{
  ℕ, ◌+◌, [], ◌∷◌, map, Option, none, some, Bool, false, ◌&&◌, ◌||◌, Text, leb, ◌==◌, if◌then◌else◌,
}

pub lower : ℕ → ℕ
lower c = if leb 65 c && leb c 90 then c + 32 else c

pub is_space : ℕ → Bool
is_space c =
    (leb 9 c && leb c 13)
    || c == 32
    || c == 160
    || c == 0x1680
    || (leb 0x2000 c && leb c 0x200a)
    || c == 0x2028
    || c == 0x2029
    || c == 0x202f
    || c == 0x205f
    || c == 0x3000
    || c == 0xfeff

-- `String.prototype.toLowerCase`.
unfoldable pub lower_case : Text → Text
unfolding lower
lower_case t = map lower t

trim_start : Text → Text
trim_start [] = []
trim_start (c ∷ cs) = if is_space c then trim_start cs else c ∷ cs

-- A character goes if it is white space and nothing is kept behind it.
trim_cons : ℕ → Text → Text
trim_cons c [] = if is_space c then [] else c ∷ []
trim_cons c (d ∷ ds) = c ∷ d ∷ ds

trim_end : Text → Text
unfolding trim_cons
trim_end [] = []
trim_end (c ∷ cs) = trim_cons c (trim_end cs)

-- `replace(/\s+/g, " ")`: the flag says that the run of white space has been written.
squeeze : Bool → Text → Text
squeeze written [] = []
squeeze written (c ∷ cs) =
    let rest = squeeze (is_space c) cs in
    if is_space c then (if written then rest else 32 ∷ rest) else c ∷ rest

-- `String.prototype.trim`.
unfoldable pub trim : Text → Text
unfolding is_space trim_start trim_end
trim t = trim_end (trim_start t)

unfoldable pub normalize_signature : Text → Text
unfolding lower_case trim squeeze
normalize_signature title = squeeze false (trim (lower_case title))

unfoldable pub compute_signature : Option (Text → Text) → Text → Text
compute_signature none title = normalize_signature title
compute_signature (some hash) title = hash title
