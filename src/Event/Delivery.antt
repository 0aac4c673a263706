-- ===== src/Event/Delivery.antt =====
-- internal/event/event.go: who receives what is published.
use mathlib.Core.Option.{some-injective}
use go_p2p_messenger.Base.{
  ℕ, zero, suc, ◌≤◌, ◌≡◌, refl, ap, sym, ◌∙◌, subst, Text, text_eq, text_eq_iff, some, List, [],
  ◌∷◌, ◌++◌, arith, ltb, ◌==◌, ◌&&◌, ◌||◌, if◌then◌else◌, length, take, take-all, append_assoc,
  append-nil, Bool-cases, Option-cases, inl, inr,
}
use go_p2p_messenger.Event.{
  Bus, Payload, capacity, channels, add_channel, send, send_all, publish, subscribe, contains,
  subscribed, listens,
}
use go_p2p_messenger.Event.Invariant.{
  IsValid, Distinct, Fresh, publish-IsValid, publish-subscribers,
}

channels-Distinct :
    (topic : Text) (n : ℕ) (subs : List (Text × List ℕ)) (cs : List ℕ)
    → Fresh n subs
    → channels topic subs ≡ some cs
    → Distinct cs
unfolding channels
channels-Distinct topic n [] cs h e = cc
channels-Distinct topic n ((t, c) ∷ rest) cs h e = elim (Bool-cases (text_eq t topic)) [
  | inl y ↦ subst Distinct (some-injective c cs (rw y at e)) h.0.0
  | inr z ↦ channels-Distinct topic n rest cs h.1 (rw z at e)
]

send_all-buffer :
    (cs : List ℕ) (p : Payload) (f : ℕ → List Payload) (ch : ℕ)
    → Distinct cs
    → send_all cs p f ch
      ≡ (if contains ch cs && ltb (length (f ch)) capacity then f ch ++ p ∷ [] else f ch)
unfolding send_all contains
send_all-buffer [] p f ch d = refl
send_all-buffer (c ∷ cs) p f ch d =
    send_all-buffer cs p (send c p f) ch d.1 ∙ (unfold send in ground (arith))

-- On a valid bus, publishing appends the value, once, to the buffer of each channel that listens to
-- the topic and has room, and changes no other buffer.
pub publish-buffer :
    (topic : Text) (p : Payload) (b : Bus) (ch : ℕ)
    → IsValid b
    → (publish topic p b).buffer ch ≡ (
        if listens b topic ch && ltb (length (b.buffer ch)) capacity
        then b.buffer ch ++ p ∷ []
        else b.buffer ch)
unfolding publish subscribed
publish-buffer topic p b ch v = elim (Option-cases (channels topic b.subscribers)) [
  | inl e ↦ rw (e, publish, subscribed) refl
  | inr (cs, e) ↦
      rw (e, publish, subscribed)
        (send_all-buffer cs p b.buffer ch
          (channels-Distinct topic b.next b.subscribers cs v.fresh e))
]

contains-append_last :
    (n ch : ℕ) (cs : List ℕ) → contains ch (cs ++ n ∷ []) ≡ (contains ch cs || n == ch)
unfolding contains
contains-append_last n ch [] = ground arith
contains-append_last n ch (c ∷ cs) = ground (arith, contains-append_last n ch cs)

subscribed-add_channel :
    (t topic : Text) (n ch : ℕ) (subs : List (Text × List ℕ))
    → subscribed topic ch (add_channel t n subs)
      ≡ (subscribed topic ch subs || (text_eq t topic && n == ch))
unfolding subscribed channels add_channel
subscribed-add_channel t topic n ch [] = unfold contains in ground arith
subscribed-add_channel t topic n ch ((s, cs) ∷ rest) = ground (
  arith,
  subscribed-add_channel t topic n ch rest,
  contains-append_last n ch cs,
  text_eq_iff s t,
  text_eq_iff s topic,
  text_eq_iff t topic,
)

-- Subscribing opens one channel, the returned one, with an empty buffer, on the given topic only; who
-- listens to what is otherwise as before, and no other buffer changes.
pub subscribe-listens :
    (t topic : Text) (b : Bus) (ch : ℕ)
    → let (n, b') = subscribe t b in
      (n ≡ b.next)
      × (listens b' topic ch ≡ (listens b topic ch || (text_eq t topic && n == ch)))
      × (b'.buffer ch ≡ (if n == ch then [] else b.buffer ch))
unfolding subscribe
subscribe-listens t topic b ch =
    (refl, subscribed-add_channel t topic b.next ch b.subscribers, refl)

-- Events published one after the other.
unfoldable pub publish_each : List (Text × Payload) → Bus → Bus
publish_each [] b = b
publish_each ((topic, p) ∷ rest) b = publish_each rest (publish topic p b)

-- The values of a history that a channel listens to.
unfoldable pub heard : Bus → ℕ → List (Text × Payload) → List Payload
heard b ch [] = []
heard b ch ((topic, p) ∷ rest) =
    let later = heard b ch rest in if listens b topic ch then p ∷ later else later

take-append_full {ℓ} :
    {A : Type ℓ} (n : ℕ) (xs ys : List A) → length xs ≡ n → take n (xs ++ ys) ≡ xs
take-append_full zero [] ys h = refl
take-append_full zero (x ∷ xs) ys h = absurd (omega arith)
take-append_full (suc n) [] ys h = absurd (omega arith)
take-append_full (suc n) (x ∷ xs) ys h = ap (◌∷◌ x) (take-append_full n xs ys (omega arith))

heard-publish :
    (topic : Text) (p : Payload) (b : Bus) (ch : ℕ) (hist : List (Text × Payload))
    → heard (publish topic p b) ch hist ≡ heard b ch hist
unfolding heard
heard-publish topic p b ch [] = refl
heard-publish topic p b ch ((t, q) ∷ rest) =
    rw (heard-publish topic p b ch rest) (rw (publish-subscribers topic p b))

-- A buffer with room for `n` values keeps the first `n` of all that is sent.
push_capped :
    (n : ℕ) (old : List Payload) (p : Payload) (later : List Payload)
    → length old ≤ n
    → take n ((if ltb (length old) n then old ++ p ∷ [] else old) ++ later)
      ≡ take n (old ++ p ∷ later)
push_capped n old p later h = elim (Bool-cases (ltb (length old) n)) [
  | inl t ↦ rw (t, append_assoc old (p ∷ []) later)
  | inr f ↦ rw f (
      take-append_full n old later (ground arith)
      ∙ sym (take-append_full n old (p ∷ later) (ground arith)))
]

-- On a valid bus, after any history of publications a channel holds what it held before and then, in
-- order, the values of the topics that it listens to, cut at its capacity.
pub publish_each-buffer :
    (hist : List (Text × Payload)) (b : Bus) (ch : ℕ)
    → IsValid b
    → (publish_each hist b).buffer ch ≡ take capacity (b.buffer ch ++ heard b ch hist)
unfolding publish_each heard
publish_each-buffer [] b ch v =
    sym (
      ap (take capacity) (append-nil (b.buffer ch))
      ∙ take-all capacity (b.buffer ch) (v.bounded ch))
publish_each-buffer ((topic, p) ∷ rest) b ch v =
    publish_each-buffer rest (publish topic p b) ch (publish-IsValid topic p b v)
    ∙ rw (publish-buffer topic p b ch v, heard-publish topic p b ch rest)
        (elim (Bool-cases (listens b topic ch)) [
          | inl y ↦ rw y (push_capped capacity (b.buffer ch) p (heard b ch rest) (v.bounded ch))
          | inr z ↦ rw z
        ])
