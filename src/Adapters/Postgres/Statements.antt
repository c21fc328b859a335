-- ===== src/Adapters/Postgres/Statements.antt =====
-- One statement of a client of the Postgres adapter: what it gets, and what it leaves to the others.
use agent_diaries_core.Prelude.{
  ℕ, zero, suc, ◌+◌, ◌≤◌, ◌<◌, ◌≡◌, ◌≢◌, refl, sym, ◌∙◌, ap, if_neg, inl, inr, Bool, Bool-cases,
  Option-cases, true, false, Option, none, some, arith, Text, Text-discrete, ltb, ◌==◌,
}
use agent_diaries_core.Shared.Effect.{Result, ok, err, catch_quiet}
use agent_diaries_core.Adapters.Table.{
  Outcome, inserted, conflict, refused, LockTable, updated, kept,
}
use agent_diaries_core.Adapters.Postgres.{
  Row, Phase, idle, inserting, selecting, stealing, holding, has_id, taken_at, after_insert,
  try_insert, check_row, after_update, steal, release, perform,
}

abbrev pub row : ℕ → Text → Row
row t id = record { locked_at = t; lock_id = id }

abbrev changed : Option Row × ℕ → ℕ
changed x = x.1

updated-hit : (p : Row → Bool) (r old : Row) → p old ≡ true → updated p r (some old) ≡ (some r, 1)
updated-hit p r old e = rw e refl

updated-miss :
    (p : Row → Bool) (r old : Row) → p old ≡ false → updated p r (some old) ≡ (some old, 0)
updated-miss p r old e = rw e refl

-- A reading of the clock is not ahead of it, and a row that is to be replaced has run out.
abbrev pub IsFresh : ℕ → ℕ → Phase → Type 0
IsFresh ttl clock idle = Unit {0}
IsFresh ttl clock (inserting now) = now ≤ clock
IsFresh ttl clock (selecting now) = now ≤ clock
IsFresh ttl clock (stealing now seen) = (now ≤ clock) × (seen + ttl < now)
IsFresh ttl clock (holding t) = Unit {0}

module _ (table : LockTable Row) (lock_key : Text) (lock_ttl_ms : ℕ) where
  open table use {
    Store, select, insert, delete, update, insert-inserted, select-delete, select-delete_failed,
    select-update,
  }

  -- A statement of a client: what it gets, and what it leaves to the others.
  pub record IsSafe (id : Text) (clock : ℕ) (s : Store) (after : Store × Phase) : Type 0 where
    pub keeps_fresh : IsFresh lock_ttl_ms clock after.1
    pub own : (t : ℕ) → after.1 ≡ holding t → select lock_key after.0 ≡ some (row t id)
    pub others :
        (other : Text) (t : ℕ)
        → id ≢ other
        → clock ≤ t + lock_ttl_ms
        → select lock_key s ≡ some (row t other)
        → select lock_key after.0 ≡ some (row t other)

  -- A statement that leaves the table alone and ends in a phase that holds nothing.
  still-IsSafe :
      (id : Text) (clock : ℕ) (s : Store) (p : Phase)
      → IsFresh lock_ttl_ms clock p
      → ((t : ℕ) → p ≢ holding t)
      → IsSafe id clock s (s, p)
  still-IsSafe id clock s p f n = record {
    keeps_fresh = f;
    own = λ t e. absurd (n t e);
    others = λ other t ne l e. e;
  }

  after_insert-IsSafe :
      (id : Text) (clock now : ℕ) (s : Store) (o : Outcome Store)
      → insert lock_key (row now id) s ≡ o
      → now ≤ clock
      → IsSafe id clock s (after_insert table lock_key lock_ttl_ms now s o)
  unfolding after_insert
  after_insert-IsSafe id clock now s (inserted t) e l =
      let (free, taken) = insert-inserted lock_key (row now id) s t e in
      record {
        keeps_fresh = tt;
        own = λ u h. let same : now ≡ u = cc in taken ∙ ap (λ x. some (row x id)) same;
        others = λ other u ne k h. absurd cc;
      }
  after_insert-IsSafe id clock now s conflict e l =
      still-IsSafe id clock s (selecting now) l (λ t h. cc)
  after_insert-IsSafe id clock now s (refused x) e l = still-IsSafe id clock s idle tt (λ t h. cc)

  check_row-fresh :
      (clock now : ℕ) (o : Option Row)
      → now ≤ clock
      → IsFresh lock_ttl_ms clock (check_row table lock_key lock_ttl_ms now o)
        × ((t : ℕ) → check_row table lock_key lock_ttl_ms now o ≢ holding t)
  unfolding check_row
  check_row-fresh clock now none l = (tt, λ t h. cc)
  check_row-fresh clock now (some r) l = elim (Bool-cases (ltb (r.locked_at + lock_ttl_ms) now)) [
    | inl e ↦ rw e ((l, ground arith), λ t h. cc)
    | inr e ↦ rw e (tt, λ t h. cc)
  ]

  -- An UPDATE that changed a row has written it.
  found_row :
      (id : Text) (now seen : ℕ) (s t : Store) (n : ℕ)
      → (select lock_key t, suc n) ≡ updated (taken_at seen) (row now id) (select lock_key s)
      → select lock_key t ≡ some (row now id)
  found_row id now seen s t n e = elim (Option-cases (select lock_key s)) [
    | inl missing ↦
        let none_changed : suc n ≡ 0 =
          ap changed (e ∙ ap (updated (taken_at seen) (row now id)) missing) in
        absurd (omega arith)
    | inr (old, found) ↦
        let there = e ∙ ap (updated (taken_at seen) (row now id)) found in
        elim (Bool-cases (taken_at seen old)) [
          | inl same ↦
              ap (λ (x : Option Row × ℕ). x.0)
                (there ∙ updated-hit (taken_at seen) (row now id) old same)
          | inr differs ↦
              let none_changed : suc n ≡ 0 =
                ap changed (there ∙ updated-miss (taken_at seen) (row now id) old differs) in
              absurd (omega arith)
        ]
  ]

  -- An UPDATE that changed no row left them alone, one that changed a row found it as it was read.
  after_update-IsSafe :
      (id : Text) (clock now seen : ℕ) (s t : Store) (n : ℕ)
      → now ≤ clock
      → seen + lock_ttl_ms < now
      → (select lock_key t, n) ≡ updated (taken_at seen) (row now id) (select lock_key s)
      → IsSafe id clock s (t, after_update table lock_key lock_ttl_ms now n)
  unfolding after_update
  after_update-IsSafe id clock now seen s t zero l m e = record {
    keeps_fresh = tt;
    own = λ u h. absurd cc;
    others = λ other u ne k h.
        let found = e ∙ ap (updated (taken_at seen) (row now id)) h in
        elim (Bool-cases (u == seen)) [
          | inl same ↦
              let none_changed : 0 ≡ 1 =
                ap changed (found ∙ updated-hit (taken_at seen) (row now id) (row u other) same) in
              absurd (omega arith)
          | inr differs ↦
              ap (λ (x : Option Row × ℕ). x.0)
                (found ∙ updated-miss (taken_at seen) (row now id) (row u other) differs)
        ];
  }
  after_update-IsSafe id clock now seen s t (suc n) l m e = record {
    keeps_fresh = tt;
    own = λ u h.
        let same : now ≡ u = cc in found_row id now seen s t n e ∙ ap (λ x. some (row x id)) same;
    others = λ other u ne k h.
        let found = e ∙ ap (updated (taken_at seen) (row now id)) h in
        elim (Bool-cases (u == seen)) [
          | inl same ↦ absurd (ground arith)
          | inr differs ↦
              let one_changed : suc n ≡ 0 =
                ap changed
                  (found ∙ updated-miss (taken_at seen) (row now id) (row u other) differs) in
              absurd (omega arith)
        ];
  }

  steal-IsSafe :
      (id : Text) (clock now seen : ℕ) (s : Store)
      → now ≤ clock
      → seen + lock_ttl_ms < now
      → IsSafe id clock s (steal table lock_key lock_ttl_ms id now seen s)
  unfolding steal
  steal-IsSafe id clock now seen s l m =
      after_update-IsSafe id clock now seen s _ _ l m
        (select-update lock_key (taken_at seen) (row now id) s)

  -- A DELETE by one client's identifier leaves the row of another one, even if it fails.
  delete-others :
      (id other : Text) (t : ℕ) (s : Store) (x : Store × Result (Unit {0}))
      → delete lock_key (has_id id) s ≡ x
      → id ≢ other
      → select lock_key s ≡ some (row t other)
      → select lock_key x.0 ≡ some (row t other)
  delete-others id other t s (u, ok x) e ne h =
      select-delete lock_key (has_id id) s u e
      ∙ ap (kept (has_id id)) h
      ∙ rw (if_neg (Text-discrete other id) (λ e. ne (sym e)) true false) refl
  delete-others id other t s (u, err x) e ne h =
      elim (select-delete_failed lock_key (has_id id) s u x e) [
        | inl same ↦ same ∙ h
        | inr deleted ↦
            deleted
            ∙ ap (kept (has_id id)) h
            ∙ rw (if_neg (Text-discrete other id) (λ e. ne (sym e)) true false) refl
      ]

  release-IsSafe :
      (id : Text) (clock : ℕ) (s : Store)
      → IsSafe id clock s ((release table lock_key lock_ttl_ms id s).0, idle)
  unfolding release
  release-IsSafe id clock s = record {
    keeps_fresh = tt;
    own = λ t h. absurd cc;
    others = λ other t ne l h.
        ap (λ (x : Store × Result (Unit {0})). select lock_key x.0)
          (catch_quiet (delete lock_key (has_id id)) s)
        ∙ delete-others id other t s (delete lock_key (has_id id) s) refl ne h;
  }

  pub perform-IsSafe :
      (id : Text) (clock : ℕ) (s : Store) (p : Phase)
      → IsFresh lock_ttl_ms clock p
      → IsSafe id clock s (perform table lock_key lock_ttl_ms id clock s p)
  unfolding perform try_insert
  perform-IsSafe id clock s idle f =
      still-IsSafe id clock s (inserting clock) (omega arith) (λ t h. cc)
  perform-IsSafe id clock s (inserting now) f =
      after_insert-IsSafe id clock now s (insert lock_key (row now id) s) refl f
  perform-IsSafe id clock s (selecting now) f =
      let (a, b) = check_row-fresh clock now (select lock_key s) f in
      still-IsSafe id clock s (check_row table lock_key lock_ttl_ms now (select lock_key s)) a b
  perform-IsSafe id clock s (stealing now seen) f = steal-IsSafe id clock now seen s f.0 f.1
  perform-IsSafe id clock s (holding t) f = release-IsSafe id clock s
