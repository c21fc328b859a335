-- ===== src/Events/Listening.antt =====
-- A handler that is subscribed listens, and later subscriptions keep it.
use agent_diaries_core.Prelude.{
  ℕ, sym, refl, ◌∙◌, subst, List, [], ◌∷◌, Text, Text-discrete, if_pos, if_neg, Memᴰ,
}
use mathlib.Core.List.Memᴰ
use agent_diaries_core.JsMap
use agent_diaries_core.Events.{
  Bus, Handler, Handler-discrete, handler, add, listeners, subscribe, or_empty_set,
}

add-Memᴰ : (h : Handler) (hs : List Handler) → Memᴰ h (add h hs)
unfolding add
add-Memᴰ h [] = Memᴰ.head refl
add-Memᴰ h (x ∷ xs) = elim (Handler-discrete x h) [
  | yes e ↦ subst (λ l. Memᴰ h l) (sym (if_pos (Handler-discrete x h) e _ _)) (Memᴰ.head (sym e))
  | no n ↦
      subst (λ l. Memᴰ h l) (sym (if_neg (Handler-discrete x h) n _ _)) (Memᴰ.tail (add-Memᴰ h xs))
]

Memᴰ-later :
    {k x : Handler} {xs ys : List Handler}
    → (Memᴰ k xs → Memᴰ k ys)
    → Memᴰ k (x ∷ xs)
    → Memᴰ k (x ∷ ys)
Memᴰ-later f (Memᴰ.head e) = Memᴰ.head e
Memᴰ-later f (Memᴰ.tail n) = Memᴰ.tail (f n)

add-kept : (k h : Handler) (hs : List Handler) → Memᴰ k hs → Memᴰ k (add h hs)
unfolding add
add-kept k h [] m = absurd (Memᴰ.not-nil m)
add-kept k h (x ∷ xs) m = elim (Handler-discrete x h) [
  | yes e ↦ subst (λ l. Memᴰ k l) (sym (if_pos (Handler-discrete x h) e _ _)) m
  | no n ↦
      subst (λ l. Memᴰ k l) (sym (if_neg (Handler-discrete x h) n _ _))
        (Memᴰ-later (add-kept k h xs) m)
]

abbrev pub Listens : Text → ℕ → Bus → Type 0
Listens event h b = Memᴰ (handler h) (listeners event b)

pub subscribe-Listens :
    (event : Text) (h : ℕ) (b : Bus) → Listens event h (subscribe event (handler h) b)
unfolding subscribe listeners
subscribe-Listens event h b =
    subst (λ o. Memᴰ (handler h) (or_empty_set o))
      (sym (JsMap.get-set_self event (add (handler h) (listeners event b)) b.handlers))
      (add-Memᴰ (handler h) (listeners event b))

pub subscribe-kept :
    (event other : Text) (h k : ℕ) (b : Bus)
    → Listens event h b
    → Listens event h (subscribe other (handler k) b)
unfolding subscribe listeners
subscribe-kept event other h k b l = elim (Text-discrete other event) [
  | yes e ↦
      subst (λ o. Memᴰ (handler h) (or_empty_set o))
        (sym (
          JsMap.get-set event other (add (handler k) (listeners other b)) b.handlers
          ∙ if_pos (Text-discrete other event) e _ _))
        (add-kept (handler h) (handler k) (listeners other b)
          (subst (λ t. Listens t h b) (sym e) l))
  | no n ↦
      subst (λ o. Memᴰ (handler h) (or_empty_set o))
        (sym (JsMap.get-set_ne event other (add (handler k) (listeners other b)) b.handlers n)) l
]
