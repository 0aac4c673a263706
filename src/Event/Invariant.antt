-- ===== src/Event/Invariant.antt =====
-- internal/event/event.go: every reachable bus has fresh channel numbers, no channel twice under a
-- topic, and no buffer above its capacity.
use go_p2p_messenger.Base.{
  ℕ, suc, ◌≤◌, ◌<◌, ◌≡◌, refl, subst, Text, text_eq, false, Option, none, some, List, [], ◌∷◌, ◌++◌,
  arith, length, length-append, All, All-append, All-imp, Bool-cases, inl, inr,
}
use go_p2p_messenger.Event.{
  Bus, Payload, capacity, channels, add_channel, update, send, send_all, publish, subscribe,
  take_first, receive, contains, new_bus,
}

-- No element stands in the list twice.
abbrev pub Distinct : List ℕ → Type 0
Distinct [] = Unit
Distinct (x ∷ xs) = (contains x xs ≡ false) × Distinct xs

-- A topic's list of channels: distinct numbers below `n`.
abbrev pub Fresh : ℕ → List (Text × List ℕ) → Type 0
Fresh n [] = Unit
Fresh n ((t, chans) ∷ rest) = (Distinct chans × All (λ c. c < n) chans) × Fresh n rest

pub record IsValid (b : Bus) : Type 0 where
  pub fresh : Fresh b.next b.subscribers
  pub bounded : (ch : ℕ) → length (b.buffer ch) ≤ capacity

not-contains-ge : (n : ℕ) (cs : List ℕ) → All (λ c. c < n) cs → contains n cs ≡ false
unfolding contains
not-contains-ge n [] h = refl
not-contains-ge n (c ∷ cs) h = ground (arith, not-contains-ge n cs h.1)

contains-append :
    (c n : ℕ) (cs : List ℕ) → contains c cs ≡ false → c < n → contains c (cs ++ n ∷ []) ≡ false
unfolding contains
contains-append c n [] h lt = ground arith
contains-append c n (x ∷ cs) h lt = ground (arith, contains-append c n cs)

Distinct-append :
    (n : ℕ) (cs : List ℕ) → Distinct cs → All (λ c. c < n) cs → Distinct (cs ++ n ∷ [])
unfolding contains
Distinct-append n [] d h = (refl, tt)
Distinct-append n (c ∷ cs) d h = (contains-append c n cs d.0 h.0, Distinct-append n cs d.1 h.1)

below_suc : (n : ℕ) (cs : List ℕ) → All (λ c. c < n) cs → All (λ c. c < suc n) cs
below_suc n cs h = All-imp (λ c. c < n) (λ c. c < suc n) (λ c p. omega arith) cs h

Fresh-suc : (n : ℕ) (subs : List (Text × List ℕ)) → Fresh n subs → Fresh (suc n) subs
Fresh-suc n [] h = tt
Fresh-suc n ((t, cs) ∷ rest) h = ((h.0.0, below_suc n cs h.0.1), Fresh-suc n rest h.1)

add_channel-Fresh :
    (topic : Text) (n : ℕ) (subs : List (Text × List ℕ))
    → Fresh n subs
    → Fresh (suc n) (add_channel topic n subs)
unfolding add_channel contains
add_channel-Fresh topic n [] h = (((refl, tt), (omega arith, tt)), tt)
add_channel-Fresh topic n ((t, cs) ∷ rest) h = elim (Bool-cases (text_eq t topic)) [
  | inl e ↦ rw e (
    (
      Distinct-append n cs h.0.0 h.0.1,
      All-append (λ c. c < suc n) cs (n ∷ []) (below_suc n cs h.0.1) (omega arith, tt),
    ),
    Fresh-suc n rest h.1,
  )
  | inr e ↦ rw e ((h.0.0, below_suc n cs h.0.1), add_channel-Fresh topic n rest h.1)
]

send-bounded :
    (c : ℕ) (p : Payload) (f : ℕ → List Payload)
    → ((ch : ℕ) → length (f ch) ≤ capacity)
    → (ch : ℕ) → length (send c p f ch) ≤ capacity
unfolding send
send-bounded c p f h ch = ground (arith, h ch, length-append (f c) (p ∷ []))

send_all-bounded :
    (cs : List ℕ) (p : Payload) (f : ℕ → List Payload)
    → ((ch : ℕ) → length (f ch) ≤ capacity)
    → (ch : ℕ) → length (send_all cs p f ch) ≤ capacity
unfolding send_all
send_all-bounded [] p f h = h
send_all-bounded (c ∷ cs) p f h = send_all-bounded cs p (send c p f) (send-bounded c p f h)

pub new_bus-IsValid : IsValid new_bus
unfolding new_bus
new_bus-IsValid = record { fresh = tt; bounded = λ ch. omega arith }

-- Publishing keeps a bus valid: fresh channel numbers, no channel twice under a topic, and no buffer above
-- its capacity.
pub publish-subscribers :
    (topic : Text) (p : Payload) (b : Bus) → (publish topic p b).subscribers ≡ b.subscribers
unfolding publish
publish-subscribers topic p b = ground arith

pub publish-next : (topic : Text) (p : Payload) (b : Bus) → (publish topic p b).next ≡ b.next
unfolding publish
publish-next topic p b = ground arith

pub publish-IsValid :
    (topic : Text) (p : Payload) (b : Bus) → IsValid b → IsValid (publish topic p b)
unfolding publish
publish-IsValid topic p b v = go (channels topic b.subscribers)
  where
    go :
        (found : Option (List ℕ))
        → IsValid
            (elim found [ none ↦ b | some chans ↦ record b { buffer = send_all chans p b.buffer } ])
    go none = v
    go (some chans) = record {
      fresh = v.fresh;
      bounded = send_all-bounded chans p b.buffer v.bounded;
    }

-- Subscribing keeps a bus valid: the channel it opens is new, and listed once.
pub subscribe-IsValid : (topic : Text) (b : Bus) → IsValid b → IsValid (subscribe topic b).1
unfolding subscribe
subscribe-IsValid topic b v = record {
  fresh = add_channel-Fresh topic b.next b.subscribers v.fresh;
  bounded = λ ch. ground (arith, v.bounded ch);
}

take_first-IsValid :
    (ch : ℕ) (b : Bus) (l : List Payload) {p : Payload} {b' : Bus}
    → length l ≤ capacity
    → take_first ch b l ≡ some (p, b')
    → IsValid b
    → IsValid b'
unfolding take_first
take_first-IsValid ch b [] h e v = cc
take_first-IsValid ch b (x ∷ l) {p = p} {b' = b'} h e v =
    subst IsValid same (record { fresh = v.fresh; bounded = λ c. ground (arith, v.bounded c) })
  where
    same : record b { buffer = update b.buffer ch l } ≡ b'
    same = cc

-- Receiving keeps the invariant.
pub receive-IsValid :
    (ch : ℕ) (b : Bus) {p : Payload} {b' : Bus}
    → receive ch b ≡ some (p, b')
    → IsValid b
    → IsValid b'
unfolding receive
receive-IsValid ch b e v = take_first-IsValid ch b (b.buffer ch) (v.bounded ch) e v
