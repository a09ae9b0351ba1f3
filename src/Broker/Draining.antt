-- ===== src/Broker/Draining.antt =====
-- How the consumer of src/queue/rabbitmq-broker.ts is stopped.
use model_mux.Prelude.{
  ℕ, ◌+◌, ◌≤◌, ◌≡◌, refl, ap, ◌∙◌, inl, inr, Bool, true, false, List, [], ◌∷◌, Option, none, some,
  arith, ◌==◌, if◌then◌else◌, Bool-cases,
}
use model_mux.Broker.{
  Action, ack, dead_letter, RabbitMqBroker, ParsedMessage, on_message, without, is_active, settle,
  on_handled, on_error, on_close, stop_consuming, after_tasks, stopped, BrokerEvent, arrives,
  handler_ends, channel_fails, channel_closes, stop_begins, tasks_end, close_begins, step, run,
}
use model_mux.Broker.Books.{calls, on_handled-Kept}
use model_mux.Broker.Answers.{after_tasks-calls}
use model_mux.Broker.Cancels.{cancels, owed, after_tasks-due, run-due}

-- The handlers of a list of deliveries end, each in its way.
abbrev pub endings : (ℕ → Option Action × Bool) → List ℕ → List BrokerEvent
endings how [] = []
endings how (t ∷ ts) = handler_ends t (how t).0 (how t).1 ∷ endings how ts

settle-draining :
    (action : Option Action) (is_open : Bool) (t : ℕ) (b : RabbitMqBroker)
    → (settle action is_open t b).draining ≡ b.draining
unfolding settle
settle-draining none is_open t b = refl
settle-draining (some ack) true t b = refl
settle-draining (some ack) false t b = refl
settle-draining (some dead_letter) true t b = refl
settle-draining (some dead_letter) false t b = refl

settle-active :
    (action : Option Action) (is_open : Bool) (t : ℕ) (b : RabbitMqBroker)
    → (settle action is_open t b).active ≡ b.active
unfolding settle
settle-active none is_open t b = refl
settle-active (some ack) true t b = refl
settle-active (some ack) false t b = refl
settle-active (some dead_letter) true t b = refl
settle-active (some dead_letter) false t b = refl

-- A step of a broker that is draining: it drains on, and calls no handler.
Drains : RabbitMqBroker → RabbitMqBroker → Type 0
Drains b b' = (b'.draining ≡ true) × ((tag : ℕ) → calls tag b'.acts ≤ calls tag b.acts)

Drains-if :
    (b x y : RabbitMqBroker) (c : Bool) → Drains b x → Drains b y → Drains b (if c then x else y)
Drains-if b x y true hx hy = hx
Drains-if b x y false hx hy = hy

on_message-Drains :
    (message : Option (Option ParsedMessage)) (is_open : Bool) (b : RabbitMqBroker)
    → b.draining ≡ true
    → Drains b (on_message message is_open b)
unfolding on_message Drains
on_message-Drains none is_open b h =
    Drains-if b _ _ b.closing (h, λ tag. omega arith) (h, λ tag. omega arith)
on_message-Drains (some message) is_open b h = rw (h) (refl, λ tag. omega arith)

on_handled-draining :
    (t : ℕ) (action : Option Action) (is_open : Bool) (b : RabbitMqBroker)
    → (on_handled t action is_open b).draining ≡ b.draining
unfolding on_handled
on_handled-draining t action is_open b = elim (Bool-cases (is_active t b.active)) [
  | inl e ↦ rw (e) (settle-draining action is_open t (record b { active = without t b.active }))
  | inr e ↦ rw (e) refl
]

after_tasks-draining : (ts : List ℕ) (b : RabbitMqBroker) → (after_tasks ts b).draining ≡ b.draining
unfolding after_tasks
after_tasks-draining (t ∷ ts) b = refl
after_tasks-draining [] b = elim (Bool-cases b.consumer_tag) [
  | inl e ↦ rw (e) refl
  | inr e ↦ rw (e) refl
]

step-Drains : (e : BrokerEvent) (b : RabbitMqBroker) → b.draining ≡ true → Drains b (step e b)
unfolding step Drains on_error on_close stopped
step-Drains (arrives message is_open) b h = on_message-Drains message is_open b h
step-Drains (handler_ends t action is_open) b h =
    (on_handled-draining t action is_open b ∙ h, λ tag. (on_handled-Kept t tag action is_open b).1)
step-Drains channel_fails b h =
    Drains-if b _ _ b.closing (h, λ tag. omega arith) (h, λ tag. omega arith)
step-Drains channel_closes b h =
    Drains-if b _ _ b.closing (h, λ tag. omega arith) (h, λ tag. omega arith)
step-Drains stop_begins b h = (refl, λ tag. omega arith)
step-Drains tasks_end b h =
    (after_tasks-draining b.active b ∙ h, λ tag. after_tasks-calls b.active tag b)
step-Drains close_begins b h = (refl, λ tag. omega arith)

run-Drains : (es : List BrokerEvent) (b : RabbitMqBroker) → b.draining ≡ true → Drains b (run es b)
unfolding run Drains
run-Drains [] b h = (h, λ tag. omega arith)
run-Drains (e ∷ es) b h =
    let (d, c) = step-Drains e b h in
    let (d', c') = run-Drains es (step e b) d in (d', λ tag. omega (arith, c tag, c' tag))

-- The first of the tasks ends.
first_ended :
    (t : ℕ) (ts : List ℕ) (action : Option Action) (is_open : Bool) (b : RabbitMqBroker)
    → b.active ≡ t ∷ ts
    → (on_handled t action is_open b).active ≡ ts
unfolding on_handled without
first_ended t ts action is_open b h =
    let refl_tag : (t == t) ≡ true = ground arith in
    let is_in : is_active t b.active ≡ true = rw (h, refl_tag) refl in
    let rest : without t (t ∷ ts) ≡ ts = rw (refl_tag) refl in
    rw (is_in) (
      settle-active action is_open t (record b { active = without t b.active })
      ∙ ap (without t) h
      ∙ rest)

all_ended :
    (how : ℕ → Option Action × Bool) (ts : List ℕ) (b : RabbitMqBroker)
    → b.active ≡ ts
    → (run (endings how ts) b).active ≡ []
unfolding run step
all_ended how [] b h = h
all_ended how (t ∷ ts) b h =
    all_ended how ts (on_handled t (how t).0 (how t).1 b) (first_ended t ts (how t).0 (how t).1 b h)

after_tasks-cancelled :
    (ts : List ℕ) (b : RabbitMqBroker) → ts ≡ [] → (after_tasks ts b).consumer_tag ≡ false
unfolding after_tasks
after_tasks-cancelled (t ∷ ts) b h = cc
after_tasks-cancelled [] b h = elim (Bool-cases b.consumer_tag) [
  | inl e ↦ rw (e) refl
  | inr e ↦ rw (e) refl
]

-- Once the broker is being stopped, no event calls the handler again; and when the handlers that still run have
-- ended, in whatever way, the wait for them is over, and the consumer is cancelled: by then the channel was told to
-- cancel it once if the consumer was registered when the stop began, and not at all if not.
pub drains :
    (es : List BrokerEvent) (how : ℕ → Option Action × Bool) (b : RabbitMqBroker)
    → let b' = run es (stop_consuming b) in
      let b'' = run (endings how b'.active) b' in
      ((tag : ℕ) → calls tag b'.acts ≤ calls tag b.acts)
      × (b''.active ≡ [])
      × ((stopped b'').consumer_tag ≡ false)
      × (cancels (stopped b'').acts ≡ cancels b.acts + owed b.consumer_tag)
unfolding stopped Drains
drains es how b =
    let b' = run es (stop_consuming b) in
    let b'' = run (endings how b'.active) b' in
    let ended = all_ended how b'.active b' refl in
    let gone = after_tasks-cancelled b''.active b'' ended in
    let told_before = run-due es (stop_consuming b) in
    let told_meanwhile = run-due (endings how b'.active) b' in
    let told_last = after_tasks-due b''.active b'' in
    let nothing_owed = ap owed gone in
    (
      (run-Drains es (stop_consuming b) refl).1,
      ended,
      gone,
      omega (arith, told_before, told_meanwhile, told_last, nothing_owed),
    )
