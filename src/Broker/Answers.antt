-- ===== src/Broker/Answers.antt =====
-- How often src/queue/rabbitmq-broker.ts handles and answers a delivery.
use model_mux.Prelude.{
  ℕ, suc, ◌+◌, ◌≤◌, ◌≡◌, refl, ap, ◌∙◌, ◌⊎◌, inl, inr, Bool, true, false, List, [], ◌∷◌, Option,
  none, some, arith, ◌==◌, if◌then◌else◌, Bool-cases,
}
use model_mux.Broker.{
  cancelled, RabbitMqBroker, ParsedMessage, handle, on_message, on_error, on_close, after_tasks,
  stopped, BrokerEvent, arrives, handler_ends, channel_fails, channel_closes, stop_begins,
  tasks_end, close_begins, step, run, consuming,
}
use model_mux.Broker.Books.{
  one, count, answers, calls, answers-concat, calls-concat, due, Kept, Entered, handle-books,
  handle-next_tag, on_handled-Kept,
}

Step : ℕ → RabbitMqBroker → RabbitMqBroker → Type 0
Step tag b b' = Kept tag b b' ⊎ Entered tag b b'

same : (tag : ℕ) (b : RabbitMqBroker) → Kept tag b b
same tag b = (omega arith, omega arith, omega arith)

Step-if :
    (tag : ℕ) (b x y : RabbitMqBroker) (c : Bool)
    → (c ≡ true → Step tag b x)
    → (c ≡ false → Step tag b y)
    → Step tag b (if c then x else y)
Step-if tag b x y true hx hy = hx refl
Step-if tag b x y false hx hy = hy refl

taken-Step :
    (message : Option ParsedMessage) (is_open : Bool) (tag : ℕ) (b : RabbitMqBroker)
    → Step tag b (handle message is_open b.next_tag (record b { next_tag = suc b.next_tag }))
unfolding Step
taken-Step message is_open tag b =
    let b' = record b { next_tag = suc b.next_tag } in
    let (d, c) = handle-books message is_open b.next_tag tag b' in
    let n = handle-next_tag message is_open b.next_tag b' in
    elim (Bool-cases (b.next_tag == tag)) [
      | inl q ↦
          let one_more : one b.next_tag tag ≡ 1 = ground arith in
          let e : b.next_tag ≡ tag = ground arith in
          inr (e, omega (arith, d, one_more), omega (arith, c, one_more), n ∙ ap suc e)
      | inr q ↦
          let no_more : one b.next_tag tag ≡ 0 = ground arith in
          inl (omega (arith, d, no_more), omega (arith, c, no_more), omega (arith, n))
    ]

on_message-Step :
    (message : Option (Option ParsedMessage)) (is_open : Bool) (tag : ℕ) (b : RabbitMqBroker)
    → Step tag b (on_message message is_open b)
unfolding on_message Step
on_message-Step none is_open tag b =
    Step-if tag b _ _ b.closing (λ _. inl (same tag b))
      (λ _. inl (omega arith, omega arith, omega arith))
on_message-Step (some message) is_open tag b =
    Step-if tag b _ _ b.draining (λ _. inl (omega arith, omega arith, omega arith))
      (λ _. taken-Step message is_open tag b)

after_tasks-Step : (ts : List ℕ) (tag : ℕ) (b : RabbitMqBroker) → Step tag b (after_tasks ts b)
unfolding after_tasks Step
after_tasks-Step (t ∷ ts) tag b = inl (same tag b)
after_tasks-Step [] tag b =
    Step-if tag b _ _ b.consumer_tag
      (λ _. inl (
        omega (arith, answers-concat tag b.acts cancelled),
        omega (arith, calls-concat tag b.acts cancelled),
        omega arith,
      ))
      (λ _. inl (same tag b))

pub after_tasks-calls :
    (ts : List ℕ) (tag : ℕ) (b : RabbitMqBroker)
    → calls tag (after_tasks ts b).acts ≤ calls tag b.acts
unfolding after_tasks
after_tasks-calls (t ∷ ts) tag b = omega arith
after_tasks-calls [] tag b = elim (Bool-cases b.consumer_tag) [
  | inl e ↦ rw (e) (omega (arith, calls-concat tag b.acts cancelled))
  | inr e ↦ rw (e) (omega arith)
]

step-Step : (e : BrokerEvent) (tag : ℕ) (b : RabbitMqBroker) → Step tag b (step e b)
unfolding step Step on_error on_close stopped
step-Step (arrives message is_open) tag b = on_message-Step message is_open tag b
step-Step (handler_ends t action is_open) tag b = inl (on_handled-Kept t tag action is_open b)
step-Step channel_fails tag b =
    Step-if tag b _ _ b.closing (λ _. inl (same tag b))
      (λ _. inl (omega arith, omega arith, omega arith))
step-Step channel_closes tag b =
    Step-if tag b _ _ b.closing (λ _. inl (same tag b))
      (λ _. inl (omega arith, omega arith, omega arith))
step-Step stop_begins tag b = inl (omega arith, omega arith, omega arith)
step-Step tasks_end tag b = after_tasks-Step b.active tag b
step-Step close_begins tag b = inl (omega arith, omega arith, omega arith)

-- A delivery that has not come in yet is in no book, and one that has is in each at most once.
record Books (tag : ℕ) (b : RabbitMqBroker) : Type 0 where
  due_once : due tag b ≤ 1
  called_once : calls tag b.acts ≤ 1
  not_due : b.next_tag ≤ tag → due tag b ≡ 0
  not_called : b.next_tag ≤ tag → calls tag b.acts ≡ 0

Step-Books : (tag : ℕ) (b b' : RabbitMqBroker) → Books tag b → Step tag b b' → Books tag b'
unfolding Step
Step-Books tag b b' h (inl (d, c, n)) = record {
  due_once = omega (arith, d, h.due_once);
  called_once = omega (arith, c, h.called_once);
  not_due = λ k. omega (arith, d, h.not_due (omega (arith, n, k)));
  not_called = λ k. omega (arith, c, h.not_called (omega (arith, n, k)));
}
Step-Books tag b b' h (inr (e, d, c, n)) = record {
  due_once = omega (arith, d, h.not_due (omega (arith, e)));
  called_once = omega (arith, c, h.not_called (omega (arith, e)));
  not_due = λ k. absurd (omega (arith, n, k));
  not_called = λ k. absurd (omega (arith, n, k));
}

run-Books :
    (es : List BrokerEvent) (tag : ℕ) (b : RabbitMqBroker) → Books tag b → Books tag (run es b)
unfolding run
run-Books [] tag b h = h
run-Books (e ∷ es) tag b h =
    run-Books es tag (step e b) (Step-Books tag b (step e b) h (step-Step e tag b))

-- After any events, however deliveries, the ends of handlers, failures and a shutdown follow each other: the
-- handler was called at most once for each delivery, and each delivery was answered at most once,
-- and not while its handler is still running.
pub deliveries_once :
    (es : List BrokerEvent) (tag : ℕ)
    → let b = run es consuming in
      (calls tag b.acts ≤ 1) × (answers tag b.acts + count tag b.active ≤ 1)
deliveries_once es tag =
    let h = run-Books es tag consuming (record {
      due_once = omega arith;
      called_once = omega arith;
      not_due = λ _. refl;
      not_called = λ _. refl;
    }) in
    (h.called_once, h.due_once)
