-- ===== src/Diary/Records.antt =====
-- Lemmas on the history as a list of records: the record of a signature, and histories that hold
-- a signature once.
use agent_diaries_core.Prelude.{
  ℕ, zero, suc, ◌≤◌, ◌≡◌, refl, ◌≢◌, subst, if_pos, if_neg, Bool, List, [], ◌∷◌, none, some, arith,
  Text, Text-discrete, length, take, filter, All,
}
use agent_diaries_core.Shared.{TaskRecord}
use agent_diaries_core.Diary.{find_record, drop_record, modify_record, signatures}

-- No record of the signature.
abbrev pub IsFree : Text → List TaskRecord → Type 0
IsFree s = All (λ r. r.signature ≢ s)

-- No signature twice.
abbrev pub IsDistinct : List TaskRecord → Type 0
IsDistinct [] = Unit {0}
IsDistinct (r ∷ rs) = IsFree r.signature rs × IsDistinct rs

module _ (s : Text) where
  pub IsFree-find_record : (h : List TaskRecord) → find_record s h ≡ none → IsFree s h
  unfolding find_record
  IsFree-find_record [] e = tt
  IsFree-find_record (r ∷ rs) e = elim (Text-discrete r.signature s) [
    | yes p ↦ absurd (ground arith)
    | no p ↦ (p, IsFree-find_record rs (ground arith))
  ]

  pub find_record-signature :
      (h : List TaskRecord) {r : TaskRecord} → find_record s h ≡ some r → r.signature ≡ s
  unfolding find_record
  find_record-signature [] e = cc
  find_record-signature (x ∷ h) {r} e = ground (arith, find_record-signature h {r = r})

  pub length-drop_record-le : (h : List TaskRecord) → length (drop_record s h) ≤ length h
  unfolding drop_record
  length-drop_record-le [] = omega arith
  length-drop_record-le (r ∷ rs) = ground (arith, length-drop_record-le rs)

  pub drop_record-IsFree :
      (t : Text) (h : List TaskRecord) → IsFree t h → IsFree t (drop_record s h)
  unfolding drop_record
  drop_record-IsFree t [] f = tt
  drop_record-IsFree t (r ∷ rs) f = ground (arith, drop_record-IsFree t rs f.1)

  pub drop_record-IsDistinct : (h : List TaskRecord) → IsDistinct h → IsDistinct (drop_record s h)
  unfolding drop_record
  drop_record-IsDistinct [] d = tt
  drop_record-IsDistinct (r ∷ rs) d =
      ground (arith, drop_record-IsDistinct rs d.1, drop_record-IsFree r.signature rs d.0)

  -- What is taken out of a distinct history is gone.
  pub drop_record-frees : (h : List TaskRecord) → IsDistinct h → IsFree s (drop_record s h)
  unfolding drop_record
  drop_record-frees [] d = tt
  drop_record-frees (r ∷ rs) d = elim (Text-discrete r.signature s) [
    | yes p ↦ rw (if_pos _ p) (subst (λ t. IsFree t rs) p d.0)
    | no p ↦ rw (if_neg _ p) (p, drop_record-frees rs d.1)
  ]

  module _ (f : TaskRecord → TaskRecord) where
    pub length-modify_record : (h : List TaskRecord) → length (modify_record s f h) ≡ length h
    unfolding modify_record
    length-modify_record [] = refl
    length-modify_record (r ∷ rs) = ground (arith, length-modify_record rs)

    pub signatures-modify_record :
        ((r : TaskRecord) → (f r).signature ≡ r.signature)
        → (h : List TaskRecord) → signatures (modify_record s f h) ≡ signatures h
    unfolding modify_record
    signatures-modify_record k [] = refl
    signatures-modify_record k (r ∷ rs) = ground (arith, k r, signatures-modify_record k rs)

    pub find_record-modify_record :
        ((r : TaskRecord) → (f r).signature ≡ r.signature)
        → (h : List TaskRecord) {r : TaskRecord} → find_record s h ≡ some r
        → find_record s (modify_record s f h) ≡ some (f r)
    unfolding find_record modify_record
    find_record-modify_record k [] e = cc
    find_record-modify_record k (x ∷ h) {r} e =
        ground (arith, k x, find_record-modify_record k h {r = r})

    pub modify_record-IsFree :
        ((r : TaskRecord) → (f r).signature ≡ r.signature)
        → (t : Text) (h : List TaskRecord) → IsFree t h
        → IsFree t (modify_record s f h)
    unfolding modify_record
    modify_record-IsFree k t [] d = tt
    modify_record-IsFree k t (r ∷ h) d = elim (Text-discrete r.signature s) [
      | yes p ↦ rw (if_pos _ p) ((rw (k r) d.0, d.1))
      | no p ↦ rw (if_neg _ p) (d.0, modify_record-IsFree k t h d.1)
    ]

    pub modify_record-IsDistinct :
        ((r : TaskRecord) → (f r).signature ≡ r.signature)
        → (h : List TaskRecord) → IsDistinct h
        → IsDistinct (modify_record s f h)
    unfolding modify_record
    modify_record-IsDistinct k [] d = tt
    modify_record-IsDistinct k (r ∷ h) d = elim (Text-discrete r.signature s) [
      | yes p ↦ rw (if_pos _ p) (rw (k r) d.0, d.1)
      | no p ↦
          rw (if_neg _ p)
            (modify_record-IsFree k r.signature h d.0, modify_record-IsDistinct k h d.1)
    ]

  pub take-IsFree : (n : ℕ) (h : List TaskRecord) → IsFree s h → IsFree s (take n h)
  take-IsFree zero h f = tt
  take-IsFree (suc n) [] f = tt
  take-IsFree (suc n) (r ∷ h) f = (f.0, take-IsFree n h f.1)

  pub filter-IsFree :
      (p : TaskRecord → Bool) (h : List TaskRecord) → IsFree s h → IsFree s (filter p h)
  filter-IsFree p [] f = tt
  filter-IsFree p (r ∷ h) f = ground (arith, filter-IsFree p h f.1)

pub take-IsDistinct : (n : ℕ) (h : List TaskRecord) → IsDistinct h → IsDistinct (take n h)
take-IsDistinct zero h d = tt
take-IsDistinct (suc n) [] d = tt
take-IsDistinct (suc n) (r ∷ h) d = (take-IsFree r.signature n h d.0, take-IsDistinct n h d.1)

pub filter-IsDistinct :
    (p : TaskRecord → Bool) (h : List TaskRecord) → IsDistinct h → IsDistinct (filter p h)
filter-IsDistinct p [] d = tt
filter-IsDistinct p (r ∷ h) d =
    ground (arith, filter-IsFree r.signature p h d.0, filter-IsDistinct p h d.1)
