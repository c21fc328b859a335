-- ===== src/Shared/Effect.antt =====
-- Asynchronous code that runs under a lock: a state, and a result or a thrown error. What was
-- written before an error stays written.
use agent_diaries_core.Prelude.{◌≡◌, refl, ap}
use agent_diaries_core.Shared.{Error}

pub data Result (A : Type 0) : Type 0 where
  ok : A → Result A
  err : Error → Result A

abbrev pub M : Type 0 → Type 0 → Type 0
M S A = S → S × Result A

module _ {S : Type 0} where
  infixl 5 ◌>>=◌ ◌>>◌
  abbrev pub ◌>>=◌ : {A B : Type 0} → M S A → (A → M S B) → M S B
  ◌>>=◌ m f s = let (s', r) = m s in elim r [ ok a ↦ f a s' | err e ↦ (s', err e) ]

  abbrev pub ◌>>◌ : {A B : Type 0} → M S A → M S B → M S B
  m >> k = m >>= λ _. k

  abbrev pub return : {A : Type 0} → A → M S A
  return a s = (s, ok a)

  abbrev pub throw : {A : Type 0} → Error → M S A
  throw e s = (s, err e)

  -- `try { m } catch (e) { h(e) }`
  abbrev pub catch : {A : Type 0} → M S A → (Error → M S A) → M S A
  catch m h s = let (s', r) = m s in elim r [ ok a ↦ (s', ok a) | err e ↦ h e s' ]

  abbrev pub modify : (S → S) → M S (Unit {0})
  modify f s = (f s, ok tt)

  abbrev pub gets : {A : Type 0} → (S → A) → M S A
  gets f s = (s, ok (f s))

  -- One step of a chain, from what it answered.
  module _ {A B : Type 0} (m : M S A) (f : A → M S B) where
    next : S × Result A → S × Result B
    next p = elim p.1 [ ok a ↦ f a p.0 | err e ↦ (p.0, err e) ]

    pub bind-ok : {s t : S} {a : A} → m s ≡ (t, ok a) → (m >>= f) s ≡ f a t
    unfolding next
    bind-ok e = ap next e

    pub bind-err : {s t : S} {e : Error} → m s ≡ (t, err e) → (m >>= f) s ≡ (t, err e)
    unfolding next
    bind-err e = ap next e

  -- An operation that keeps a property of the state, whether it returns or throws.
  abbrev pub Preserves : {A : Type 0} → (S → Type 0) → M S A → Type 0
  Preserves P m = (s : S) → P s → P (m s).0

  module _ (P : S → Type 0) {A B : Type 0} where
    kept_by_step :
        (f : A → M S B) (p : S × Result A)
        → ((a : A) → Preserves P (f a))
        → P p.0
        → P (next (λ _. p) f p).0
    unfolding next
    kept_by_step f (s, ok a) k h = k a s h
    kept_by_step f (s, err e) k h = h

    pub kept-bind :
        (m : M S A) (f : A → M S B) (s : S)
        → P (m s).0
        → ((a : A) → Preserves P (f a))
        → P ((m >>= f) s).0
    unfolding next
    kept-bind m f s h k = kept_by_step f (m s) k h

    pub Preserves-bind :
        (m : M S A) (f : A → M S B)
        → Preserves P m
        → ((a : A) → Preserves P (f a))
        → Preserves P (m >>= f)
    Preserves-bind m f h k s p = kept-bind m f s (h s p) k

  module _ {A : Type 0} where
    handled : (Error → M S A) → S × Result A → S × Result A
    handled f (s, ok a) = (s, ok a)
    handled f (s, err e) = f e s

    kept_by_handler :
        (P : S → Type 0) (f : Error → M S A) (p : S × Result A)
        → ((e : Error) → Preserves P (f e))
        → P p.0
        → P (handled f p).0
    unfolding handled
    kept_by_handler P f (s, ok a) k h = h
    kept_by_handler P f (s, err e) k h = k e s h

    pub catch-ok :
        (m : M S A) (f : Error → M S A) {s t : S} {a : A}
        → m s ≡ (t, ok a)
        → catch m f s ≡ (t, ok a)
    unfolding handled
    catch-ok m f e = ap (handled f) e

    pub catch-err :
        (m : M S A) (f : Error → M S A) {s t : S} {x : Error}
        → m s ≡ (t, err x)
        → catch m f s ≡ f x t
    unfolding handled
    catch-err m f e = ap (handled f) e

    pub Preserves-catch :
        (P : S → Type 0) (m : M S A) (f : Error → M S A)
        → Preserves P m
        → ((e : Error) → Preserves P (f e))
        → Preserves P (catch m f)
    unfolding handled
    Preserves-catch P m f h k s p = kept_by_handler P f (m s) k (h s p)

  quiet_by : (p : S × Result (Unit {0})) → handled (λ e. return tt) p ≡ (p.0, ok tt)
  unfolding handled
  quiet_by (s, ok a) = refl
  quiet_by (s, err e) = refl

  -- A handler that does nothing.
  pub catch_quiet : (m : M S (Unit {0})) (s : S) → catch m (λ e. return tt) s ≡ ((m s).0, ok tt)
  unfolding handled
  catch_quiet m s = quiet_by (m s)

  module _ {A : Type 0} where
    answered : (Error → A) → S × Result A → A
    answered a (s, ok x) = x
    answered a (s, err e) = a e

    total_by :
        (a : Error → A) (p : S × Result A)
        → handled (λ e. return (a e)) p ≡ (p.0, ok (answered a p))
    unfolding handled answered
    total_by a (s, ok x) = refl
    total_by a (s, err e) = refl

    -- A handler that returns.
    pub catch_total :
        (m : M S A) (a : Error → A) (s : S)
        → (x : A) × (catch m (λ e. return (a e)) s ≡ ((m s).0, ok x))
    unfolding handled
    catch_total m a s = (answered a (m s), total_by a (m s))
