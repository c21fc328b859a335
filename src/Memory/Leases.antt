-- ===== src/Memory/Leases.antt =====
-- src/memory/MemoryProviders.ts, the class `MemoryLockProvider`: the leases with a time to live.
-- Each fresh token of `acquireLock` is an argument, as is each reading of the clock.
pub mod Exclusive
use agent_diaries_core.Prelude.{
  ℕ, ◌+◌, ◌<◌, ◌≢◌, ap, ite, Bool, true, false, List, [], ◌∷◌, Option, none, some, Text,
  Text-discrete, ltb, if◌then◌else◌,
}
use agent_diaries_core.JsMap.{JsMap}
use agent_diaries_core.JsMap

pub record Lease : Type 0 where
  pub token : Text
  pub expires_at : ℕ

abbrev pub Locks : Type 0
Locks = JsMap Lease

-- `existing && existing.expiresAt > now`
unfoldable pub is_leased : ℕ → Option Lease → Bool
is_leased now none = false
is_leased now (some lease) = ltb now lease.expires_at

unfoldable pub acquire_lock : Text → ℕ → ℕ → Text → Locks → Locks × Option Text
unfolding is_leased
acquire_lock key ttl now token locks =
    if is_leased now (JsMap.get key locks)
    then (locks, none)
    else (JsMap.set key (record { token = token; expires_at = now + ttl }) locks, some token)

-- `existing && existing.token === lockToken`
unfoldable pub is_owner : Text → Option Lease → Bool
is_owner token none = false
is_owner token (some lease) = ite (Text-discrete lease.token token) true false

unfoldable pub release_lock : Text → Text → Locks → Locks × Bool
unfolding is_owner
release_lock key token locks =
    if is_owner token (JsMap.get key locks) then (JsMap.delete key locks, true) else (locks, false)

unfoldable pub renew_lease : Text → Text → ℕ → ℕ → Locks → Locks × Bool
unfolding is_owner
renew_lease key token ttl now locks =
    if is_owner token (JsMap.get key locks)
    then (JsMap.set key (record { token = token; expires_at = now + ttl }) locks, true)
    else (locks, false)

-- A call of the provider.
pub data Request : Type 0 where
  acquire : Text → ℕ → ℕ → Text → Request
  release : Text → Text → Request
  renew : Text → Text → ℕ → ℕ → Request

-- The state after a request, and whether it was granted.
unfoldable pub serve : Request → Locks → Locks × Bool
unfolding acquire_lock release_lock renew_lease
serve (acquire key ttl now token) locks =
    let (after, got) = acquire_lock key ttl now token locks in
    (after, elim got [ none ↦ false | some _ ↦ true ])
serve (release key token) locks = release_lock key token locks
serve (renew key token ttl now) locks = renew_lease key token ttl now locks

unfoldable pub serve_all : List Request → Locks → Locks × List (Request × Bool)
serve_all [] locks = (locks, [])
serve_all (r ∷ rs) locks =
    let (after, granted) = serve r locks in
    let (end, answers) = serve_all rs after in (end, (r, granted) ∷ answers)

-- The request is made by somebody without the lease's token, while the lease lasts.
abbrev pub IsForeign : Lease → Request → Type 0
IsForeign lease (acquire key ttl now token) = now < lease.expires_at
IsForeign lease (release key token) = token ≢ lease.token
IsForeign lease (renew key token ttl now) = token ≢ lease.token

abbrev pub key_of : Request → Text
key_of (acquire key ttl now token) = key
key_of (release key token) = key
key_of (renew key token ttl now) = key
