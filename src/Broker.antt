-- ===== src/Broker.antt =====
-- src/queue/rabbitmq-broker.ts: the consumer and the publisher of job messages.
--
-- The client is amqplib; what it reports is an event, and so is the end of a handler that was called. Promise
-- callbacks run before the next event. A channel numbers its deliveries, so `next_tag` counts them. An
-- answer on a channel that is closed throws, which the event's flag tells. `connect`, `publish`, and errors of
-- cancelling the consumer and closing the connection are left out.
pub mod Books
pub mod Answers
pub mod Cancels
pub mod Draining
mod Examples
use model_mux.Prelude.{
  ℕ, suc, ◌+◌, Bool, true, false, not, ◌&&◌, ◌||◌, String, List, [], ◌∷◌, ◌++◌, Option, none, some,
  ◌==◌, ltb, leb, length, if◌then◌else◌,
}
use model_mux.Prelude.Int.{ℤ, pos_part}
use model_mux.Circuit.{Completion, returned, threw}
use model_mux.Streaming.{Text}

pub data BrokerFailure : Type 0 where
  not_connected consumer_cancelled channel_error channel_closed delivery_failed : BrokerFailure

pub data Action : Type 0 where
  ack dead_letter : Action

-- What the channel was told of a delivery, and the calls of the handler.
pub data ChannelAct : Type 0 where
  handled acked rejected : ℕ → ChannelAct
  cancelled : ChannelAct

pub record RabbitMqBroker : Type 0 where
  pub failure : Option BrokerFailure
  pub consumer_tag : Bool
  pub active : List ℕ
  pub draining : Bool
  pub closing : Bool
  pub next_tag : ℕ
  pub acts : List ChannelAct

-- A parsed object: its id if that is a string, and its attempt if that is a safe integer.
pub record ParsedMessage : Type 0 where
  pub id : Option Text
  pub attempt : Option ℤ

-- A character of `[A-Za-z0-9_-]`.
abbrev pub is_id_character : ℕ → Bool
is_id_character c =
    (leb 65 c && leb c 90)
    || (leb 97 c && leb c 122)
    || (leb 48 c && leb c 57)
    || c == 95
    || c == 45

abbrev pub all_id_characters : Text → Bool
all_id_characters [] = true
all_id_characters (c ∷ cs) = is_id_character c && all_id_characters cs

-- `isJobEnvelope`; a message that is no JSON object is `none`.
unfoldable pub is_job_envelope : Option ParsedMessage → Bool
is_job_envelope none = false
is_job_envelope (some m) = elim m.id [
  | none ↦ false
  | some id ↦ elim m.attempt [
    | none ↦ false
    | some attempt ↦
        all_id_characters id
        && leb 1 (length id)
        && leb (length id) 128
        && ltb 0 (pos_part attempt)
        && leb (pos_part attempt) 2147483647
  ]
]

abbrev pub told : ChannelAct → RabbitMqBroker → RabbitMqBroker
told a b = record b { acts = b.acts ++ a ∷ [] }

-- The catch clause of a task.
abbrev pub task_failed : RabbitMqBroker → RabbitMqBroker
task_failed b = record b { failure = some delivery_failed }

-- `handle`, up to its await.
unfoldable pub handle :
    Option ParsedMessage → (is_open : Bool) → ℕ → RabbitMqBroker → RabbitMqBroker
handle message is_open tag b =
    if is_job_envelope message
    then told (handled tag) (record b { active = tag ∷ b.active })
    else if is_open
    then told (rejected tag) b
    else task_failed b

-- The callback of `channel.consume`; `none` is the message that is null.
unfoldable pub on_message : Option (Option ParsedMessage) → Bool → RabbitMqBroker → RabbitMqBroker
on_message none is_open b = if b.closing then b else record b { failure = some consumer_cancelled }
on_message (some message) is_open b =
    let b' = record b { next_tag = suc b.next_tag } in
    if b.draining then b' else handle message is_open b.next_tag b'

unfoldable pub without : ℕ → List ℕ → List ℕ
without tag [] = []
without tag (t ∷ ts) = if t == tag then ts else t ∷ without tag ts

abbrev pub is_active : ℕ → List ℕ → Bool
is_active tag [] = false
is_active tag (t ∷ ts) = t == tag || is_active tag ts

-- `handle` after its await, for a handler that returned an action or threw.
unfoldable pub settle : Option Action → (is_open : Bool) → ℕ → RabbitMqBroker → RabbitMqBroker
settle none is_open tag b = task_failed b
settle (some _) false tag b = task_failed b
settle (some dead_letter) true tag b = told (rejected tag) b
settle (some ack) true tag b = told (acked tag) b

-- The end of a task whose handler was called.
unfoldable pub on_handled : ℕ → Option Action → (is_open : Bool) → RabbitMqBroker → RabbitMqBroker
on_handled tag action is_open b =
    if is_active tag b.active
    then settle action is_open tag (record b { active = without tag b.active })
    else b

-- The listeners of `observe`.
unfoldable pub on_error : RabbitMqBroker → RabbitMqBroker
on_error b = if b.closing then b else record b { failure = some channel_error }

unfoldable pub on_close : RabbitMqBroker → RabbitMqBroker
on_close b =
    if b.closing
    then b
    else record b { failure = elim b.failure [ none ↦ some channel_closed | some e ↦ some e ] }

-- `stopConsuming` up to its await of the tasks, and after it; it goes on when no task is left.
abbrev pub stop_consuming : RabbitMqBroker → RabbitMqBroker
stop_consuming b = record b { draining = true }

unfoldable pub after_tasks : List ℕ → RabbitMqBroker → RabbitMqBroker
after_tasks [] b = if b.consumer_tag then told cancelled (record b { consumer_tag = false }) else b
after_tasks (t ∷ ts) b = b

unfoldable pub stopped : RabbitMqBroker → RabbitMqBroker
stopped b = after_tasks b.active b

abbrev pub close : RabbitMqBroker → RabbitMqBroker
close b = stop_consuming (record b { closing = true })

pub data BrokerEvent : Type 0 where
  arrives : Option (Option ParsedMessage) → (is_open : Bool) → BrokerEvent
  handler_ends : ℕ → Option Action → (is_open : Bool) → BrokerEvent
  channel_fails channel_closes stop_begins tasks_end close_begins : BrokerEvent

unfoldable pub step : BrokerEvent → RabbitMqBroker → RabbitMqBroker
step (arrives message is_open) b = on_message message is_open b
step (handler_ends tag action is_open) b = on_handled tag action is_open b
step channel_fails b = on_error b
step channel_closes b = on_close b
step stop_begins b = stop_consuming b
step tasks_end b = stopped b
step close_begins b = close b

unfoldable pub run : List BrokerEvent → RabbitMqBroker → RabbitMqBroker
run [] b = b
run (e ∷ es) b = run es (step e b)

-- A broker whose consumer has just been registered.
abbrev pub consuming : RabbitMqBroker
consuming = record {
  failure = none;
  consumer_tag = true;
  active = [];
  draining = false;
  closing = false;
  next_tag = 0;
  acts = [];
}
