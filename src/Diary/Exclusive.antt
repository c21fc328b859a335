-- ===== src/Diary/Exclusive.antt =====
-- Of many claims of one task, one succeeds. Concurrent calls are taken in the order in which the
-- lock lets them in.
use agent_diaries_core.Prelude.{
  ℕ, zero, suc, ◌+◌, ◌≤◌, ◌<◌, ◌≡◌, refl, sym, ◌∙◌, ap, subst, ◌≢◌, if_pos, if_neg, Bool, true,
  false, List, [], ◌∷◌, Option, none, some, arith, Text, Text-discrete, length, take, All,
}
use agent_diaries_core.Shared.{TaskRecord}
use agent_diaries_core.Shared.Effect.{Result, ok}
use agent_diaries_core.Diary.{
  Config, World, limit, signature_of, or_else, is_expired, loaded, find_record, drop_record,
  new_claim, enter,
}
use agent_diaries_core.Diary.Claims.{claim_task}
use agent_diaries_core.Diary.Claiming.{entered, refused, stopped, claim_task-outcome}
use agent_diaries_core.Diary.Probing.{loaded-saved, loaded-of-store, Vacated, never, lapsed}
use agent_diaries_core.Diary.Invariant.{new_claim-signature, history_limit-pos}

pub record ClaimCall : Type 0 where
  pub title : Text
  pub ttl : Option ℕ
  pub at : ℕ

-- The calls with their answers.
unfoldable pub claim_all : Config → List ClaimCall → World → List (ClaimCall × Result Bool)
claim_all c [] w = []
claim_all c (k ∷ ks) w = let (v, r) = claim_task c k.title k.ttl k.at w in (k, r) ∷ claim_all c ks v

-- A claim made at `now` with this time to live has not run out.
abbrev pub IsWithin : Option ℕ → ℕ → ℕ → Type 0
IsWithin none now at = Unit {0}
IsWithin (some ttl) now at = at ≤ now + ttl

-- The signature's record stands among the newest `n`.
abbrev pub Stands : Text → ℕ → List TaskRecord → TaskRecord → Type 0
Stands s n h r = find_record s (take n h) ≡ some r

pub Stands-find_record :
    (s : Text) (n : ℕ) (h : List TaskRecord) {r : TaskRecord}
    → Stands s n h r
    → find_record s h ≡ some r
unfolding find_record
Stands-find_record s zero h e = cc
Stands-find_record s (suc n) [] e = cc
Stands-find_record s (suc n) (x ∷ h) {r} e = ground (arith, Stands-find_record s n h {r = r})

Stands-suc :
    (s : Text) (n : ℕ) (h : List TaskRecord) {r : TaskRecord}
    → Stands s n h r
    → Stands s (suc n) h r
unfolding find_record
Stands-suc s zero h e = cc
Stands-suc s (suc n) [] e = cc
Stands-suc s (suc n) (x ∷ h) {r} e = ground (arith, Stands-suc s n h {r = r})

Stands-drop_record :
    (s t : Text) (n : ℕ) (h : List TaskRecord) {r : TaskRecord}
    → t ≢ s
    → Stands s n h r
    → Stands s n (drop_record t h) r
unfolding find_record drop_record
Stands-drop_record s t zero h ne e = cc
Stands-drop_record s t (suc n) [] ne e = cc
Stands-drop_record s t (suc n) (x ∷ h) {r} ne e = elim (Text-discrete x.signature t) [
  | yes p ↦ rw (if_pos _ p) (ground (arith, Stands-suc s n h {r = r}))
  | no p ↦ rw (if_neg _ p) (ground (arith, Stands-drop_record s t n h {r = r} ne))
]

take-take : (m n : ℕ) (h : List TaskRecord) → m ≤ n → take m (take n h) ≡ take m h
take-take zero n h l = refl
take-take (suc m) zero h l = absurd (omega arith)
take-take (suc m) (suc n) [] l = refl
take-take (suc m) (suc n) (x ∷ h) l = ap (◌∷◌ x) (take-take m n h (omega arith))

Stands-enter :
    (c : Config) (s : Text) (claim : TaskRecord) (now : ℕ) (w : World) (kept : List TaskRecord)
    (n : ℕ) {r : TaskRecord}
    → claim.signature ≢ s
    → suc n ≤ limit c
    → Stands s n kept r
    → Stands s (suc n) (enter c claim now (loaded c w) kept).history r
unfolding enter find_record
Stands-enter c s claim now w kept n ne l e =
    rw (take-take (suc n) (limit c) (claim ∷ kept) l)
      (if_neg (Text-discrete claim.signature s) ne (some claim) (find_record s (take n kept)) ∙ e)

Stands-Vacated :
    (s t : Text) (now n : ℕ) (h kept : List TaskRecord) {r : TaskRecord}
    → t ≢ s
    → Vacated t now h kept
    → Stands s n h r
    → Stands s n kept r
Stands-Vacated s t now n h kept ne (never e k) d = rw k d
Stands-Vacated s t now n h kept ne (lapsed x e o k) d = rw k (Stands-drop_record s t n h ne d)

module _ (c : Config) (s : Text) (r : TaskRecord) where
  -- A claim of the task is refused while its record is live.
  claim_refused :
      (k : ClaimCall) (w : World)
      → signature_of c k.title ≡ s
      → find_record s (loaded c w).history ≡ some r
      → is_expired r k.at ≡ false
      → claim_task c k.title k.ttl k.at w ≡ (w, ok false)
  claim_refused k w same e live = elim (claim_task-outcome c k.title k.ttl k.at w) [
    | entered v kept q (never f p) d ↦ cc
    | entered v kept q (lapsed x f o p) d ↦ cc
    | refused x f l d ↦ d
    | stopped x f o v y q d ↦ cc
  ]

  -- A claim of another task pushes the record back by one place at most.
  claim_other :
      (k : ClaimCall) (w : World) (n : ℕ)
      → signature_of c k.title ≢ s
      → suc n ≤ limit c
      → Stands s n (loaded c w).history r
      → Stands s (suc n) (loaded c (claim_task c k.title k.ttl k.at w).0).history r
  claim_other k w n other l e =
      let t = signature_of c k.title in
      let h = (loaded c w).history in
      elim (claim_task-outcome c k.title k.ttl k.at w) [
        | entered v kept q room d ↦
            rw (d, loaded-saved)
              (Stands-enter c s (new_claim k.title t k.at (or_else k.ttl c.default_ttl_ms)) k.at w
                kept n (subst (λ x. x ≢ s) (sym (new_claim-signature k.title t k.at _)) other) l
                (Stands-Vacated s t k.at n h kept other room e))
        | refused x f live d ↦ rw d (Stands-suc s n h e)
        | stopped x f o v y q d ↦ rw (d, loaded-of-store c v w q) (Stands-suc s n h e)
      ]

  -- While fewer claims than the history holds come in, and its record is live, the task is refused.
  claims_refused :
      (ks : List ClaimCall) (w : World) (n : ℕ)
      → Stands s n (loaded c w).history r
      → n + length ks ≤ limit c
      → All (λ k. is_expired r k.at ≡ false) ks
      → All (λ a. signature_of c a.0.title ≡ s → a.1 ≡ ok false) (claim_all c ks w)
  unfolding claim_all
  claims_refused [] w n e l live = tt
  claims_refused (k ∷ ks) w n e l live = elim (Text-discrete (signature_of c k.title) s) [
    | yes same ↦
        let answer =
          claim_refused k w same (Stands-find_record s n (loaded c w).history e) live.0 in
        (λ _. ap (λ p. p.1) answer, rw answer (claims_refused ks w n e (omega arith) live.1))
    | no other ↦ (
      λ same. absurd (other same),
      claims_refused ks (claim_task c k.title k.ttl k.at w).0 (suc n)
          (claim_other k w n other (omega arith) e) (omega arith) live.1,
    )
  ]

pub new_claim-live :
    (title s : Text) (now at : ℕ) (ttl : Option ℕ)
    → IsWithin ttl now at
    → is_expired (new_claim title s now ttl) at ≡ false
unfolding is_expired new_claim
new_claim-live title s now at none h = refl
new_claim-live title s now at (some t) h = ground arith

pub find_record-enter :
    (c : Config) (s : Text) (claim : TaskRecord) (now : ℕ) (w : World) (kept : List TaskRecord)
    → claim.signature ≡ s
    → Stands s 1 (enter c claim now (loaded c w) kept).history claim
unfolding enter find_record
find_record-enter c s claim now w kept e =
    rw (take-take 1 (limit c) (claim ∷ kept) (history_limit-pos c.max_history))
      (if_pos (Text-discrete claim.signature s) e (some claim) none)

module _ (c : Config) (title : Text) (ttl : Option ℕ) (now : ℕ) where
  made : TaskRecord
  made = new_claim title (signature_of c title) now (or_else ttl c.default_ttl_ms)

  -- The claim that succeeded is the newest record.
  made-Stands :
      (w v : World)
      → claim_task c title ttl now w ≡ (v, ok true)
      → Stands (signature_of c title) 1 (loaded c v).history made
  unfolding made
  made-Stands w v e = elim (claim_task-outcome c title ttl now w) [
    | entered u kept q room d ↦
        rw (← ap (λ p. p.0) (sym d ∙ e), loaded-saved)
          (find_record-enter c (signature_of c title) made now w kept
            (new_claim-signature title (signature_of c title) now _))
    | refused x f live d ↦ cc
    | stopped x f o u y q d ↦ cc
  ]

  made-live :
      (ks : List ClaimCall)
      → All (λ k. IsWithin (or_else ttl c.default_ttl_ms) now k.at) ks
      → All (λ k. is_expired made k.at ≡ false) ks
  unfolding made
  made-live [] h = tt
  made-live (k ∷ ks) h =
      (new_claim-live title (signature_of c title) now k.at _ h.0, made-live ks h.1)

-- After a claim that succeeded, any claims of any tasks follow. None of them that asks for the same
-- task succeeds, as long as the calls come within the time to live and are fewer than the limit.
pub claim_all-exclusive :
    (c : Config) (title : Text) (ttl : Option ℕ) (now : ℕ) (w v : World) (ks : List ClaimCall)
    → claim_task c title ttl now w ≡ (v, ok true)
    → length ks < limit c
    → All (λ k. IsWithin (or_else ttl c.default_ttl_ms) now k.at) ks
    → All (λ a. signature_of c a.0.title ≡ signature_of c title → a.1 ≡ ok false) (claim_all c ks v)
claim_all-exclusive c title ttl now w v ks e l live =
    claims_refused c (signature_of c title) (made c title ttl now) ks v 1
      (made-Stands c title ttl now w v e) (omega arith) (made-live c title ttl now ks live)
