-- ===== src/Memory/Leases/Exclusive.antt =====
-- Nobody gets, ends or prolongs a lease that another holds.
use agent_diaries_core.Prelude.{
  ℕ, ◌+◌, ◌≡◌, refl, ◌≢◌, ◌∙◌, ap, sym, if_pos, if_neg, true, false, List, [], ◌∷◌, some, arith,
  Text, Text-discrete, All, Bool-cases, inl, inr,
}
use agent_diaries_core.JsMap
use agent_diaries_core.Memory.Leases.{
  Lease, Locks, acquire_lock, release_lock, renew_lease, is_leased, is_owner, Request, acquire,
  release, renew, serve, serve_all, IsForeign, key_of,
}

foreign-refused :
    (r : Request) (lease : Lease) (locks : Locks)
    → IsForeign lease r
    → JsMap.get (key_of r) locks ≡ some lease
    → serve r locks ≡ (locks, false)
unfolding serve acquire_lock release_lock renew_lease is_leased is_owner
foreign-refused (acquire key ttl now token) lease locks f e =
    let live : is_leased now (some lease) ≡ true = ground arith in rw (e, live)
foreign-refused (release key token) lease locks f e =
    let other : is_owner token (some lease) ≡ false =
      if_neg (Text-discrete lease.token token) (λ p. f (sym p)) true false in
    rw (e, other)
foreign-refused (renew key token ttl now) lease locks f e =
    let other : is_owner token (some lease) ≡ false =
      if_neg (Text-discrete lease.token token) (λ p. f (sym p)) true false in
    rw (e, other)

other-kept :
    (r : Request) (key : Text) (locks : Locks)
    → key_of r ≢ key
    → JsMap.get key (serve r locks).0 ≡ JsMap.get key locks
unfolding serve acquire_lock release_lock renew_lease
other-kept (acquire k ttl now token) key locks ne =
    elim (Bool-cases (is_leased now (JsMap.get k locks))) [
      | inl b ↦ rw b refl
      | inr b ↦ rw b (JsMap.get-set_ne key k _ locks ne)
    ]
other-kept (release k token) key locks ne = elim (Bool-cases (is_owner token (JsMap.get k locks))) [
  | inl b ↦ rw b (JsMap.get-delete_ne key k locks ne)
  | inr b ↦ rw b refl
]
other-kept (renew k token ttl now) key locks ne =
    elim (Bool-cases (is_owner token (JsMap.get k locks))) [
      | inl b ↦ rw b (JsMap.get-set_ne key k _ locks ne)
      | inr b ↦ rw b refl
    ]

-- While a lease lasts, no request about its key by others is granted, whatever is asked about other
-- keys in between, and the lease is there at the end.
pub serve_all-exclusive :
    (key : Text) (lease : Lease) (rs : List Request) (locks : Locks)
    → JsMap.get key locks ≡ some lease
    → All (λ r. key_of r ≡ key → IsForeign lease r) rs
    → All (λ a. key_of a.0 ≡ key → a.1 ≡ false) (serve_all rs locks).1
      × (JsMap.get key (serve_all rs locks).0 ≡ some lease)
unfolding serve_all
serve_all-exclusive key lease [] locks e h = (tt, e)
serve_all-exclusive key lease (r ∷ rs) locks e h = elim (Text-discrete (key_of r) key) [
  | yes p ↦
      let refused = foreign-refused r lease locks (h.0 p) (ap (λ k. JsMap.get k locks) p ∙ e) in
      let (answers, kept) = serve_all-exclusive key lease rs locks e h.1 in
      rw refused ((λ _. refl, answers), kept)
  | no p ↦
      let (answers, kept) =
        serve_all-exclusive key lease rs (serve r locks).0 (other-kept r key locks p ∙ e) h.1 in
      ((λ q. absurd (p q), answers), kept)
]

owner_releases :
    (key : Text) (lease : Lease) (locks : Locks)
    → JsMap.get key locks ≡ some lease
    → (release_lock key lease.token locks).1 ≡ true
unfolding release_lock is_owner
owner_releases key lease locks e =
    let mine : is_owner lease.token (some lease) ≡ true =
      if_pos (Text-discrete lease.token lease.token) refl true false in
    rw (e, mine)

-- A lease that was granted at `now` shuts the others out until its time to live is over, and then
-- its owner can still give it back.
pub acquire_lock-exclusive :
    (key token : Text) (ttl now : ℕ) (rs : List Request) (locks : Locks)
    → (acquire_lock key ttl now token locks).1 ≡ some token
    → All (λ r. key_of r ≡ key → IsForeign (record { token = token; expires_at = now + ttl }) r) rs
    → let held = (acquire_lock key ttl now token locks).0 in
      All (λ a. key_of a.0 ≡ key → a.1 ≡ false) (serve_all rs held).1
      × ((release_lock key token (serve_all rs held).0).1 ≡ true)
unfolding acquire_lock release_lock is_owner
acquire_lock-exclusive key token ttl now rs locks g h =
    let lease : Lease = record { token = token; expires_at = now + ttl } in
    elim (Bool-cases (is_leased now (JsMap.get key locks))) [
      | inl b ↦ let k = rw b at g in absurd cc
      | inr b ↦
          let (answers, kept) =
            serve_all-exclusive key lease rs (JsMap.set key lease locks)
              (JsMap.get-set_self key lease locks) h in
          rw b (answers, owner_releases key lease (serve_all rs (JsMap.set key lease locks)).0 kept)
    ]
