-- ===== src/Adapters/Postgres.antt =====
-- src/adapters/postgres.ts: `withLock` of `PostgresStorage` on one lock key. Clients run one statement
-- at a time, in any order, and read the clock before their first statement. The clients' clocks are
-- taken to agree, as one clock.
pub mod Statements
pub mod Exclusive
use agent_diaries_core.Prelude.{
  ℕ, zero, suc, ◌+◌, ite, Bool, true, false, Option, none, some, Text, Text-discrete, ltb, ◌==◌,
  if◌then◌else◌,
}
use agent_diaries_core.Shared.Effect.{M}
use agent_diaries_core.Adapters.Retry.{logged}
use agent_diaries_core.Adapters.Table.{Outcome, inserted, conflict, refused, LockTable}

pub record Row : Type 0 where
  pub locked_at : ℕ
  pub lock_id : Text

-- Where a call of `withLock` stands, with its readings of the clock and of the row.
pub data Phase : Type 0 where
  idle : Phase
  inserting selecting : ℕ → Phase
  stealing : ℕ → ℕ → Phase
  holding : ℕ → Phase

abbrev pub has_id : Text → Row → Bool
has_id id r = ite (Text-discrete r.lock_id id) true false

abbrev pub taken_at : ℕ → Row → Bool
taken_at t r = r.locked_at == t

module _ (table : LockTable Row) (lock_key : Text) (lock_ttl_ms : ℕ) where
  open table use {Store, select, insert, delete, update}

  -- All clients read the same clock.
  pub record System : Type 0 where
    pub clock : ℕ
    pub store : Store
    pub phases : Text → Phase

  -- The INSERT, and what follows if the key is there; any other error is thrown.
  unfoldable pub after_insert : ℕ → Store → Outcome Store → Store × Phase
  after_insert now s (inserted t) = (t, holding now)
  after_insert now s conflict = (s, selecting now)
  after_insert now s (refused e) = (s, idle)

  unfoldable pub try_insert : Text → ℕ → Store → Store × Phase
  unfolding after_insert
  try_insert id now s =
      after_insert now s (insert lock_key (record { locked_at = now; lock_id = id }) s)

  -- `now - lockedAt > this.lockTtlMs`
  unfoldable pub check_row : ℕ → Option Row → Phase
  check_row now none = idle
  check_row now (some r) =
      if ltb (r.locked_at + lock_ttl_ms) now then stealing now r.locked_at else idle

  unfoldable pub after_update : ℕ → ℕ → Phase
  after_update now zero = idle
  after_update now (suc n) = holding now

  unfoldable pub steal : Text → ℕ → ℕ → Store → Store × Phase
  unfolding after_update
  steal id now seen s =
      let (t, changed) =
        update lock_key (taken_at seen) (record { locked_at = now; lock_id = id }) s in
      (t, after_update now changed)

  -- An error is logged; the row may then stay behind.
  unfoldable pub release : Text → M Store (Unit {0})
  release id = logged (delete lock_key (has_id id))

  -- The next statement of a client.
  unfoldable pub perform : Text → ℕ → Store → Phase → Store × Phase
  unfolding try_insert check_row steal release
  perform id clock s idle = (s, inserting clock)
  perform id clock s (inserting now) = try_insert id now s
  perform id clock s (selecting now) = (s, check_row now (select lock_key s))
  perform id clock s (stealing now seen) = steal id now seen s
  perform id clock s (holding t) = ((release id s).0, idle)

  abbrev pub assign : Text → Phase → (Text → Phase) → Text → Phase
  assign id p phases other = ite (Text-discrete id other) p (phases other)

  unfoldable pub advance : Text → System → System
  unfolding perform
  advance id sys =
      let (s, p) = perform id sys.clock sys.store (sys.phases id) in
      record sys { store = s; phases = assign id p sys.phases }

  pub data Reach (start : Store) : System → Type 0 where
    starts :
        (clock : ℕ) → Reach start (record { clock = clock; store = start; phases = λ id. idle })
    passes :
        (sys : System) (n : ℕ)
        → Reach start sys
        → Reach start (record sys { clock = sys.clock + n })
    moves : (sys : System) (id : Text) → Reach start sys → Reach start (advance id sys)
