-- ===== src/Events/Tally.antt =====
-- The calls of a handler, counted.
use native.Mathlib.Nat.{zero-add}
use agent_diaries_core.Prelude.{
  ℕ, suc, ◌+◌, ◌≡◌, refl, sym, ap, ◌≢◌, ite, if_pos, if_neg, List, [], ◌∷◌, ◌++◌, map, arith, Text,
}
use agent_diaries_core.Events.{
  Handler, Handler-discrete, Call, Bus, add, remove, Task, act, deliver,
}

-- How often a handler occurs in a list.
unfoldable pub tally : Handler → List Handler → ℕ
tally w [] = 0
tally w (h ∷ hs) = ite (Handler-discrete h w) (suc (tally w hs)) (tally w hs)

-- The deliveries that are due.
unfoldable pub targets : {P : Type 0} → List (Task P) → List Handler
targets [] = []
targets (act c ∷ ts) = targets ts
targets (deliver event p h ∷ ts) = h ∷ targets ts

pub tally-append :
    (w : Handler) (xs ys : List Handler) → tally w (xs ++ ys) ≡ tally w xs + tally w ys
unfolding tally
tally-append w [] ys = sym (zero-add (tally w ys))
tally-append w (x ∷ xs) ys = ground (arith, tally-append w xs ys)

pub targets-acts :
    {P : Type 0}
    → (cs : List (Call P)) (ts : List (Task P)) → targets (map act cs ++ ts) ≡ targets ts
unfolding targets
targets-acts [] ts = refl
targets-acts (c ∷ cs) ts = targets-acts cs ts

pub targets-deliver :
    {P : Type 0}
    → (event : Text) (p : P) (hs : List Handler) (ts : List (Task P))
    → targets (map (deliver event p) hs ++ ts) ≡ hs ++ targets ts
unfolding targets
targets-deliver event p [] ts = refl
targets-deliver event p (h ∷ hs) ts = ap (◌∷◌ h) (targets-deliver event p hs ts)

pub tally-remove_self : (w : Handler) (hs : List Handler) → tally w (remove w hs) ≡ 0
unfolding tally remove
tally-remove_self w [] = refl
tally-remove_self w (h ∷ hs) = ground (arith, tally-remove_self w hs)

pub tally-remove : (w h : Handler) (hs : List Handler) → tally w hs ≡ 0 → tally w (remove h hs) ≡ 0
unfolding tally remove
tally-remove w h [] e = refl
tally-remove w h (x ∷ xs) e = ground (arith, tally-remove w h xs)

pub tally-add : (w h : Handler) (hs : List Handler) → h ≢ w → tally w (add h hs) ≡ tally w hs
unfolding tally add
tally-add w h [] ne = if_neg (Handler-discrete h w) ne _ _
tally-add w h (x ∷ xs) ne = ground (arith, tally-add w h xs)

pub suc_out : (m n : ℕ) → m + suc n ≡ suc (m + n)
suc_out m n = omega arith

pub tally-head : (w : Handler) (hs : List Handler) → tally w (w ∷ hs) ≡ suc (tally w hs)
unfolding tally
tally-head w hs = if_pos (Handler-discrete w w) refl _ _

-- The calls of a handler that were made and those that are due.
abbrev pub total : {P : Type 0} → Handler → Bus × List (Task P) → ℕ
total w o = tally w o.0.called + tally w (targets o.1)
