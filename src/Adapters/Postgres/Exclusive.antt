-- ===== src/Adapters/Postgres/Exclusive.antt =====
-- The lock of the Postgres adapter, whatever the order of the statements of its clients.
use agent_diaries_core.Prelude.{
  ℕ, ◌+◌, ◌≤◌, ◌≡◌, sym, ◌∙◌, ap, subst, if_pos, if_neg, some, arith, Text, Text-discrete,
}
use agent_diaries_core.Adapters.Table.{LockTable}
use agent_diaries_core.Adapters.Postgres.{
  Row, Phase, idle, inserting, selecting, stealing, holding, System, advance, Reach, starts, passes,
  moves,
}
use agent_diaries_core.Adapters.Postgres.Statements.{row, IsFresh, perform-IsSafe}

later-IsFresh : (ttl clock n : ℕ) (p : Phase) → IsFresh ttl clock p → IsFresh ttl (clock + n) p
later-IsFresh ttl clock n idle f = tt
later-IsFresh ttl clock n (inserting now) f = omega arith
later-IsFresh ttl clock n (selecting now) f = omega arith
later-IsFresh ttl clock n (stealing now seen) f = (omega arith, f.1)
later-IsFresh ttl clock n (holding t) f = tt

module _ (table : LockTable Row) (lock_key : Text) (lock_ttl_ms : ℕ) where
  open table use {Store, select}

  -- The row is that of the client whose time is not over.
  record IsGuarded (sys : System table lock_key lock_ttl_ms) : Type 0 where
    fresh : (id : Text) → IsFresh lock_ttl_ms sys.clock (sys.phases id)
    guarded :
        (id : Text) (t : ℕ)
        → sys.phases id ≡ holding t
        → sys.clock ≤ t + lock_ttl_ms
        → select lock_key sys.store ≡ some (row t id)

  advance-IsGuarded :
      (id : Text) (sys : System table lock_key lock_ttl_ms)
      → IsGuarded sys
      → IsGuarded (advance table lock_key lock_ttl_ms id sys)
  unfolding advance
  advance-IsGuarded id sys g =
      let safe =
        perform-IsSafe table lock_key lock_ttl_ms id sys.clock sys.store (sys.phases id)
          (g.fresh id) in
      record {
        fresh = λ other. elim (Text-discrete id other) [
          | yes e ↦
              subst (IsFresh lock_ttl_ms sys.clock) (sym (if_pos (Text-discrete id other) e _ _))
                safe.keeps_fresh
          | no n ↦
              subst (IsFresh lock_ttl_ms sys.clock) (sym (if_neg (Text-discrete id other) n _ _))
                (g.fresh other)
        ];
        guarded = λ other t h l. elim (Text-discrete id other) [
          | yes e ↦
              safe.own t (sym (if_pos (Text-discrete id other) e _ _) ∙ h)
              ∙ ap (λ x. some (row t x)) e
          | no n ↦
              safe.others other t n l
                (g.guarded other t (sym (if_neg (Text-discrete id other) n _ _) ∙ h) l)
        ];
      }

  Reach-IsGuarded :
      (start : Store) (sys : System table lock_key lock_ttl_ms)
      → Reach table lock_key lock_ttl_ms start sys
      → IsGuarded sys
  Reach-IsGuarded start _ (starts clock) = record {
    fresh = λ id. tt;
    guarded = λ id t h l. absurd cc;
  }
  Reach-IsGuarded start _ (passes sys n r) =
      let g = Reach-IsGuarded start sys r in
      record {
        fresh = λ id. later-IsFresh lock_ttl_ms sys.clock n (sys.phases id) (g.fresh id);
        guarded = λ id t h l. g.guarded id t h (omega arith);
      }
  Reach-IsGuarded start _ (moves sys id r) = advance-IsGuarded id sys (Reach-IsGuarded start sys r)

  -- Whatever the order in which clients run their statements, two clients that both hold the lock
  -- within their time to live are the same. The clients' clocks agree.
  pub Reach-holds_alone :
      (start : Store) (sys : System table lock_key lock_ttl_ms)
      → Reach table lock_key lock_ttl_ms start sys
      → (i j : Text) (t u : ℕ) → sys.phases i ≡ holding t
      → sys.phases j ≡ holding u
      → sys.clock ≤ t + lock_ttl_ms
      → sys.clock ≤ u + lock_ttl_ms
      → i ≡ j
  Reach-holds_alone start sys r i j t u h k l m =
      let g = Reach-IsGuarded start sys r in
      let a = g.guarded i t h l in let b = g.guarded j u k m in cc
