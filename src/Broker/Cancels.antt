-- ===== src/Broker/Cancels.antt =====
-- How often src/queue/rabbitmq-broker.ts tells the channel to cancel its consumer.
use model_mux.Prelude.{
  ℕ, suc, ◌+◌, ◌++◌, ◌≡◌, refl, ◌∙◌, inl, inr, Bool, true, false, List, [], ◌∷◌, Option, none, some,
  arith, if◌then◌else◌, Bool-cases,
}
use model_mux.Broker.{
  ChannelAct, handled, acked, rejected, cancelled, handle, is_job_envelope, Action, ack,
  dead_letter, RabbitMqBroker, ParsedMessage, on_message, without, is_active, settle, on_handled,
  on_error, on_close, after_tasks, stopped, BrokerEvent, arrives, handler_ends, channel_fails,
  channel_closes, stop_begins, tasks_end, close_begins, step, run,
}

-- How often the channel was told to cancel the consumer.
abbrev pub cancels : List ChannelAct → ℕ
cancels [] = 0
cancels (cancelled ∷ acts) = suc (cancels acts)
cancels (_ ∷ acts) = cancels acts

-- The cancellation that is owed while the consumer is registered.
abbrev pub owed : Bool → ℕ
owed true = 1
owed false = 0

cancels-append :
    (acts : List ChannelAct) (a : ChannelAct)
    → cancels (acts ++ a ∷ []) ≡ cancels acts + cancels (a ∷ [])
cancels-append [] a = omega arith
cancels-append (cancelled ∷ acts) a = let rest = cancels-append acts a in omega (arith, rest)
cancels-append (handled t ∷ acts) a = cancels-append acts a
cancels-append (acked t ∷ acts) a = cancels-append acts a
cancels-append (rejected t ∷ acts) a = cancels-append acts a

-- The cancellations that were told and the one that is owed.
abbrev pub due : RabbitMqBroker → ℕ
due b = cancels b.acts + owed b.consumer_tag

settle-due :
    (action : Option Action) (is_open : Bool) (t : ℕ) (b : RabbitMqBroker)
    → due (settle action is_open t b) ≡ due b
unfolding settle
settle-due none is_open t b = refl
settle-due (some ack) true t b = let e = cancels-append b.acts (acked t) in omega (arith, e)
settle-due (some ack) false t b = refl
settle-due (some dead_letter) true t b =
    let e = cancels-append b.acts (rejected t) in omega (arith, e)
settle-due (some dead_letter) false t b = refl

due-if :
    (x y : RabbitMqBroker) (n : ℕ) (c : Bool) → due x ≡ n → due y ≡ n → due (if c then x else y) ≡ n
due-if x y n true hx hy = hx
due-if x y n false hx hy = hy

handle-due :
    (message : Option ParsedMessage) (is_open : Bool) (tag : ℕ) (b : RabbitMqBroker)
    → due (handle message is_open tag b) ≡ due b
unfolding handle
handle-due message is_open tag b =
    let h = cancels-append b.acts (handled tag) in
    let r = cancels-append b.acts (rejected tag) in
    due-if _ _ _ (is_job_envelope message) (omega (arith, h))
      (due-if _ _ _ is_open (omega (arith, r)) refl)

pub after_tasks-due : (ts : List ℕ) (b : RabbitMqBroker) → due (after_tasks ts b) ≡ due b
unfolding after_tasks
after_tasks-due (t ∷ ts) b = refl
after_tasks-due [] b = elim (Bool-cases b.consumer_tag) [
  | inl e ↦ let h = cancels-append b.acts cancelled in rw (e) (omega (arith, h))
  | inr e ↦ rw (e) refl
]

step-due : (e : BrokerEvent) (b : RabbitMqBroker) → due (step e b) ≡ due b
unfolding step on_message on_handled on_error on_close stopped
step-due (arrives none is_open) b = due-if _ _ _ b.closing refl refl
step-due (arrives (some message) is_open) b =
    due-if _ _ _ b.draining refl
      (handle-due message is_open b.next_tag (record b { next_tag = suc b.next_tag }))
step-due (handler_ends t action is_open) b =
    due-if _ _ _ (is_active t b.active)
      (settle-due action is_open t (record b { active = without t b.active })) refl
step-due channel_fails b = due-if _ _ _ b.closing refl refl
step-due channel_closes b = due-if _ _ _ b.closing refl refl
step-due stop_begins b = refl
step-due tasks_end b = after_tasks-due b.active b
step-due close_begins b = refl

pub run-due : (es : List BrokerEvent) (b : RabbitMqBroker) → due (run es b) ≡ due b
unfolding run
run-due [] b = refl
run-due (e ∷ es) b = run-due es (step e b) ∙ step-due e b
