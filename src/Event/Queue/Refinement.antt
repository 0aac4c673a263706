-- ===== src/Event/Queue/Refinement.antt =====
-- internal/event/event.go: the bus is, for each of its channels, a bounded queue.
use go_p2p_messenger.Base.{
  ℕ, suc, ◌<◌, ◌≡◌, refl, sym, ◌∙◌, ap, subst, Text, Bool, true, false, ◌&&◌, List, [], ◌∷◌, ◌++◌,
  arith, ltb, ◌==◌, if◌then◌else◌, length, Bool-cases, inl, inr,
}
use go_p2p_messenger.Event.{
  Bus, Payload, capacity, publish, subscribe, receive, take_first, listens, subscribed,
}
use go_p2p_messenger.Event.Invariant.{
  IsValid, publish-IsValid, publish-next, publish-subscribers, subscribe-IsValid, receive-IsValid,
}
use go_p2p_messenger.Event.Delivery.{publish-buffer, subscribe-listens}
use go_p2p_messenger.Event.Queue.{
  Operation, publishes, subscribes, receives, Queue, popped, pushed, queue_step, queue_run, given,
  bus_step, bus_run, view, Queue,
}

-- A channel that is open on a valid bus, and what it hears.
pub record IsOpen (hears : Text → Bool) (ch : ℕ) (b : Bus) : Type 0 where
  pub valid : IsValid b
  pub open_channel : ch < b.next
  pub hearing : (topic : Text) → listens b topic ch ≡ hears topic

subscribe-next : (topic : Text) (b : Bus) → (subscribe topic b).1.next ≡ suc b.next
unfolding subscribe
subscribe-next topic b = refl

popped-nil : (q : Queue) → q.waiting ≡ [] → popped q ≡ q
unfolding popped
popped-nil q e =
    let at = λ (w : List Payload). popped (record { taken = q.taken; waiting = w }) in
    ap at e ∙ ap (λ w. record { taken = q.taken; waiting = w }) (sym e)

popped-cons :
    (q : Queue) (p : Payload) (rest : List Payload)
    → q.waiting ≡ p ∷ rest
    → popped q ≡ record { taken = q.taken ++ p ∷ []; waiting = rest }
unfolding popped
popped-cons q p rest e = rw (e, popped) refl

same_channel : (c ch : ℕ) → (c == ch) ≡ true → c ≡ ch
same_channel c ch h = ground (arith, h)

module _ (hears : Text → Bool) (ch : ℕ) where
  pushed-lem :
      (p : Payload) (taken waiting : List Payload) (heard : Bool)
      → (if heard
          then pushed p (record { taken = taken; waiting = waiting })
          else record { taken = taken; waiting = waiting })
        ≡ record {
          taken = taken;
          waiting = if heard && ltb (length waiting) capacity then waiting ++ p ∷ [] else waiting;
        }
  unfolding pushed
  pushed-lem p taken waiting true = elim (Bool-cases (ltb (length waiting) capacity)) [
    | inl t ↦ rw t refl
    | inr f ↦ rw f refl
  ]
  pushed-lem p taken waiting false = refl

  publish-view :
      (topic : Text) (p : Payload) (taken : List Payload) (b : Bus)
      → IsOpen hears ch b
      → view ch (taken, publish topic p b)
        ≡ queue_step hears ch (publishes topic p) (view ch (taken, b))
  unfolding queue_step
  publish-view topic p taken b o =
      ap (λ w. record { taken = taken; waiting = w })
        (publish-buffer topic p b ch o.valid
          ∙ ap
              (λ h.
                if h && ltb (length (b.buffer ch)) capacity
                then b.buffer ch ++ p ∷ []
                else b.buffer ch)
              (o.hearing topic))
      ∙ sym (pushed-lem p taken (b.buffer ch) (hears topic))

  publish-IsOpen :
      (topic : Text) (p : Payload) (b : Bus)
      → IsOpen hears ch b
      → IsOpen hears ch (publish topic p b)
  publish-IsOpen topic p b o = record {
    valid = publish-IsValid topic p b o.valid;
    open_channel = subst (λ n. ch < n) (sym (publish-next topic p b)) o.open_channel;
    hearing = λ t. ap (λ subs. subscribed t ch subs) (publish-subscribers topic p b) ∙ o.hearing t;
  }

  later : {n next : ℕ} → n ≡ next → ch < next → (n == ch) ≡ false
  later e h = ground (arith, e, h)

  subscribe-view :
      (topic : Text) (taken : List Payload) (b : Bus)
      → IsOpen hears ch b
      → view ch (taken, (subscribe topic b).1) ≡ view ch (taken, b)
  subscribe-view topic taken b o =
      let (n, h, k) = subscribe-listens topic topic b ch in
      ap (λ w. record { taken = taken; waiting = w })
        (k ∙ ap (λ t. if t then [] else b.buffer ch) (later n o.open_channel))

  subscribe-IsOpen :
      (topic : Text) (b : Bus) → IsOpen hears ch b → IsOpen hears ch (subscribe topic b).1
  subscribe-IsOpen topic b o = record {
    valid = subscribe-IsValid topic b o.valid;
    open_channel = omega (arith, o.open_channel, subscribe-next topic b);
    hearing = λ t.
        let (n, h, k) = subscribe-listens topic t b ch in
        ground (arith, h, later n o.open_channel, o.hearing t);
  }

  received-view :
      (c : ℕ) (taken l : List Payload) (b : Bus)
      → b.buffer c ≡ l
      → view ch (given c ch taken (take_first c b l) b)
        ≡ (if c == ch then popped (view ch (taken, b)) else view ch (taken, b))
  unfolding take_first
  received-view c taken [] b e = elim (Bool-cases (c == ch)) [
    | inl t ↦
        rw t (sym (popped-nil (view ch (taken, b)) (ap b.buffer (sym (same_channel c ch t)) ∙ e)))
    | inr f ↦ rw f refl
  ]
  received-view c taken (p ∷ l) b e = elim (Bool-cases (c == ch)) [
    | inl t ↦
        rw t
          (sym (popped-cons (view ch (taken, b)) p l (ap b.buffer (sym (same_channel c ch t)) ∙ e)))
    | inr f ↦ rw f refl
  ]

  received-IsOpen :
      (c : ℕ) (taken l : List Payload) (b : Bus)
      → b.buffer c ≡ l
      → IsOpen hears ch b
      → IsOpen hears ch (given c ch taken (take_first c b l) b).1
  unfolding take_first receive
  received-IsOpen c taken [] b e o = o
  received-IsOpen c taken (p ∷ l) b e o = record {
    valid = receive-IsValid c b (ap (take_first c b) e) o.valid;
    open_channel = o.open_channel;
    hearing = o.hearing;
  }

  step-view :
      (op : Operation) (taken : List Payload) (b : Bus)
      → IsOpen hears ch b
      → view ch (bus_step ch op (taken, b)) ≡ queue_step hears ch op (view ch (taken, b))
  unfolding bus_step queue_step receive
  step-view (publishes topic p) taken b o = publish-view topic p taken b o
  step-view (subscribes topic) taken b o = subscribe-view topic taken b o
  step-view (receives c) taken b o = received-view c taken (b.buffer c) b refl

  step-IsOpen :
      (op : Operation) (taken : List Payload) (b : Bus)
      → IsOpen hears ch b
      → IsOpen hears ch (bus_step ch op (taken, b)).1
  unfolding bus_step receive
  step-IsOpen (publishes topic p) taken b o = publish-IsOpen topic p b o
  step-IsOpen (subscribes topic) taken b o = subscribe-IsOpen topic b o
  step-IsOpen (receives c) taken b o = received-IsOpen c taken (b.buffer c) b refl o

  -- Any run of `Publish`, `Subscribe` and receptions, on whatever topics and channels: what an open channel of
  -- a valid bus has given to its receiver and what waits in it are those of a queue that takes the values of
  -- the topics it hears while fewer than its capacity wait, and gives them in their order. No other operation
  -- changes the queue.
  pub bus_run-queue_run :
      (ops : List Operation) (taken : List Payload) (b : Bus)
      → IsOpen hears ch b
      → view ch (bus_run ch ops (taken, b)) ≡ queue_run hears ch ops (view ch (taken, b))
  unfolding bus_run queue_run
  bus_run-queue_run [] taken b o = refl
  bus_run-queue_run (op ∷ ops) taken b o =
      let (taken', b') = bus_step ch op (taken, b) in
      bus_run-queue_run ops taken' b' (step-IsOpen op taken b o)
      ∙ ap (queue_run hears ch ops) (step-view op taken b o)
