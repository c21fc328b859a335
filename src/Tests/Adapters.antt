-- ===== src/Tests/Adapters.antt =====
-- The locks of the adapters on a small table.
use agent_diaries_core.Prelude.{
  ℕ, ◌+◌, ◌*◌, ◌≤◌, ◌≡◌, ◌≢◌, refl, sym, ◌∙◌, ap, ite, if_pos, Bool, true, Option, none, some,
  arith, Text, Text-discrete, codes,
}
use agent_diaries_core.Shared.{Error}
use agent_diaries_core.Shared.Effect.{M, Result, ok, err, return}
use agent_diaries_core.Adapters.Table.{Outcome, inserted, conflict, LockTable, kept, updated}
use agent_diaries_core.Adapters.Retry
use agent_diaries_core.Adapters.Retry.Ending
use agent_diaries_core.Adapters.Retry.Ending.{AreShort, with_lock-Outcome}
use agent_diaries_core.Adapters.Sqlite
use agent_diaries_core.Adapters.Postgres
use agent_diaries_core.Adapters.Postgres.{
  Row, Phase, holding, System, advance, Reach, starts, moves, passes,
}
use agent_diaries_core.Adapters.Postgres.Exclusive.{Reach-holds_alone}

-- A table as a function of its keys.
module _ {R : Type 0} where
  abbrev put : Text → Option R → (Text → Option R) → Text → Option R
  put k r s j = ite (Text-discrete k j) r (s j)

  abbrev insert_if_free : Text → R → (Text → Option R) → Option R → Outcome (Text → Option R)
  insert_if_free k r s none = inserted (put k (some r) s)
  insert_if_free k r s (some old) = conflict

  put_self : (k : Text) (r : Option R) (s : Text → Option R) → put k r s k ≡ r
  put_self k r s = if_pos (Text-discrete k k) refl _ _

  deletes :
      (k : Text) (p : R → Bool) (s t : Text → Option R)
      → ◌≡◌ {A = (Text → Option R) × Result (Unit {0})} (put k (kept p (s k)) s, ok tt) (t, ok tt)
      → t k ≡ kept p (s k)
  deletes k p s t e =
      sym (ap (λ (x : (Text → Option R) × Result (Unit {0})). x.0 k) e)
      ∙ put_self k (kept p (s k)) s

  inserts :
      (k : Text) (r : R) (s t : Text → Option R) (o : Option R)
      → s k ≡ o
      → insert_if_free k r s o ≡ inserted t
      → (s k ≡ none) × (t k ≡ some r)
  inserts k r s t none e f = (
    e,
    let stored : put k (some r) s ≡ t = cc in ap (λ x. x k) (sym stored) ∙ put_self k (some r) s,
  )
  inserts k r s t (some old) e f = absurd cc

ok-err : {x : Unit {0}} {e : Error} → ok x ≢ err e
ok-err e = cc

abbrev table_of : (R : Type 0) → LockTable R
table_of R = record {
  Store = Text → Option R;
  select = λ k s. s k;
  insert = λ k r s. insert_if_free k r s (s k);
  delete = λ k p s. (put k (kept p (s k)) s, ok tt);
  update = λ k p r s. (put k (updated p r (s k)).0 s, (updated p r (s k)).1);
  insert-inserted = λ k r s t e. inserts k r s t (s k) refl e;
  select-delete = λ k p s t e. deletes k p s t e;
  select-delete_failed = λ k p s t x e. absurd (ok-err (ap (λ y. y.1) e));
  select-update =
      λ k p r s. ap (λ x. (x, (updated p r (s k)).1)) (put_self k (updated p r (s k)).0 s);
}

abbrev name : Text
name = codes "lock:diary"

abbrev a : Text
a = codes "a"

abbrev b : Text
b = codes "b"

-- A client takes the lock at 5 and keeps it too long, so another one replaces its row at 205.
abbrev next : Text → System (table_of Row) name 100 → System (table_of Row) name 100
next id sys = advance (table_of Row) name 100 id sys

abbrev at_first : System (table_of Row) name 100
at_first = record { clock = 5; store = λ k. none; phases = λ id. Phase.idle }

abbrev held : System (table_of Row) name 100
held = next a (next a at_first)

abbrev much_later : System (table_of Row) name 100
much_later = record held { clock = held.clock + 200 }

abbrev taken_over : System (table_of Row) name 100
taken_over = next b (next b (next b (next b much_later)))

taken_over-Reach : Reach (table_of Row) name 100 (λ k. none) taken_over
taken_over-Reach =
    moves _ b (moves _ b (moves _ b (moves _ b (passes _ 200 (moves _ a (moves _ a (starts 5)))))))

b_holds : taken_over.phases b ≡ holding 205
unfolding advance Postgres.perform Postgres.try_insert Postgres.after_insert Postgres.check_row
    Postgres.steal Postgres.after_update Text-discrete
b_holds = refl

in_time : taken_over.clock ≤ 205 + 100
unfolding advance
in_time = omega arith

Reach-holds_alone_example : b ≡ b
Reach-holds_alone_example =
    Reach-holds_alone (table_of Row) name 100 (λ k. none) taken_over taken_over-Reach b b 205 205
      b_holds b_holds in_time in_time

-- In SQLite the first client's release removes the row of the second one, and a third one gets in
-- while the second one still holds the lock.
abbrev sqlite : ℕ → M (Text → Option ℕ) Bool
sqlite now = Sqlite.acquire_lock (table_of ℕ) name now

abbrev freed : Text → Option ℕ
freed = (Sqlite.release_lock (table_of ℕ) name (sqlite 10001 (sqlite 0 (λ k. none)).0).0).0

third_gets_in :
    ((sqlite 10001 (sqlite 0 (λ k. none)).0).1 ≡ ok true) × ((sqlite 10002 freed).1 ≡ ok true)
unfolding Sqlite.acquire_lock Sqlite.release_lock Sqlite.after_insert Sqlite.take_over
    Sqlite.after_cleanup Text-discrete
third_gets_in = (refl, refl)

abbrev time_of_try : ℕ → ℕ
time_of_try n = 20 * n

abbrev others_wait : ℕ → (Text → Option ℕ) → Text → Option ℕ
others_wait n s = s

abbrev work : M (Text → Option ℕ) ℕ
work s = (s, ok 7)

with_lock-Outcome_example :
    let r =
      Sqlite.with_sqlite_lock
        (table_of ℕ)
        (codes "diary")
        time_of_try
        others_wait
        work
        (λ k. none) in
    Retry.Ending.Outcome
      (λ n. sqlite (time_of_try n))
      others_wait
      (Sqlite.timeout_of (codes "diary"))
      (return tt (λ k. none))
      60
      work
      (Sqlite.release_lock (table_of ℕ) name)
      r
    × AreShort r.waits
unfolding Sqlite.with_sqlite_lock Sqlite.lock_key_of
with_lock-Outcome_example =
    with_lock-Outcome (λ n. sqlite (time_of_try n)) others_wait (Sqlite.timeout_of (codes "diary"))
      (return tt) 60 work (Sqlite.release_lock (table_of ℕ) name) (λ k. none)
