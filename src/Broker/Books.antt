-- ===== src/Broker/Books.antt =====
-- The books of a delivery in src/queue/rabbitmq-broker.ts: its answers and the calls of its handler.
use model_mux.Prelude.{
  ℕ, suc, ◌+◌, ◌≤◌, ◌≡◌, refl, inl, inr, Bool, true, false, List, [], ◌∷◌, ◌++◌, Option, none, some,
  arith, ◌==◌, if◌then◌else◌, Bool-cases,
}
use model_mux.Broker.{
  Action, ack, dead_letter, ChannelAct, handled, acked, rejected, RabbitMqBroker, ParsedMessage,
  is_job_envelope, handle, without, settle, is_active, on_handled,
}

abbrev pub one : ℕ → ℕ → ℕ
one t tag = if t == tag then 1 else 0

abbrev pub count : ℕ → List ℕ → ℕ
count tag [] = 0
count tag (t ∷ ts) = one t tag + count tag ts

abbrev pub answer : ℕ → ChannelAct → ℕ
answer tag (acked t) = one t tag
answer tag (rejected t) = one t tag
answer tag _ = 0

abbrev pub call : ℕ → ChannelAct → ℕ
call tag (handled t) = one t tag
call tag _ = 0

-- How often a delivery was acknowledged or rejected.
abbrev pub answers : ℕ → List ChannelAct → ℕ
answers tag [] = 0
answers tag (a ∷ xs) = answer tag a + answers tag xs

-- How often the handler was called with a delivery.
abbrev pub calls : ℕ → List ChannelAct → ℕ
calls tag [] = 0
calls tag (a ∷ xs) = call tag a + calls tag xs

pub answers-concat :
    (tag : ℕ) (xs : List ChannelAct) (a : ChannelAct)
    → answers tag (xs ++ a ∷ []) ≡ answers tag xs + answer tag a
answers-concat tag [] a = omega arith
answers-concat tag (x ∷ xs) a = omega (arith, answers-concat tag xs a)

pub calls-concat :
    (tag : ℕ) (xs : List ChannelAct) (a : ChannelAct)
    → calls tag (xs ++ a ∷ []) ≡ calls tag xs + call tag a
calls-concat tag [] a = omega arith
calls-concat tag (x ∷ xs) a = omega (arith, calls-concat tag xs a)

count-without :
    (tag t : ℕ) (ts : List ℕ)
    → is_active t ts ≡ true
    → count tag (without t ts) + one t tag ≡ count tag ts
unfolding without
count-without tag t [] h = cc
count-without tag t (x ∷ ts) h = elim (Bool-cases (x == t)) [
  | inl e ↦ rw (e) (ground arith)
  | inr e ↦ rw (e) (omega (arith, count-without tag t ts (ground arith)))
]

-- The answers of a delivery, with the one that is still owed.
abbrev pub due : ℕ → RabbitMqBroker → ℕ
due tag b = answers tag b.acts + count tag b.active

-- What a step does to the books of a delivery: nothing new, or it is the delivery that comes in.
abbrev pub Kept : ℕ → RabbitMqBroker → RabbitMqBroker → Type 0
Kept tag b b' =
    (due tag b' ≤ due tag b) × (calls tag b'.acts ≤ calls tag b.acts) × (b.next_tag ≤ b'.next_tag)

abbrev pub Entered : ℕ → RabbitMqBroker → RabbitMqBroker → Type 0
Entered tag b b' =
    (b.next_tag ≡ tag)
    × (due tag b' ≤ due tag b + 1)
    × (calls tag b'.acts ≤ calls tag b.acts + 1)
    × (b'.next_tag ≡ suc tag)

pub handle-books :
    (message : Option ParsedMessage) (is_open : Bool) (t tag : ℕ) (b : RabbitMqBroker)
    → (due tag (handle message is_open t b) ≤ due tag b + one t tag)
      × (calls tag (handle message is_open t b).acts ≤ calls tag b.acts + one t tag)
unfolding handle
handle-books message is_open t tag b = elim (Bool-cases (is_job_envelope message)) [
  | inl e ↦ rw (e) (
    omega (arith, answers-concat tag b.acts (handled t)),
    omega (arith, calls-concat tag b.acts (handled t)),
  )
  | inr e ↦ elim (Bool-cases is_open) [
    | inl o ↦
        rw (e, o)
          (
            omega (arith, answers-concat tag b.acts (rejected t)),
            omega (arith, calls-concat tag b.acts (rejected t)),
          )
    | inr o ↦ rw (e, o) (omega arith, omega arith)
  ]
]

pub handle-next_tag :
    (message : Option ParsedMessage) (is_open : Bool) (t : ℕ) (b : RabbitMqBroker)
    → (handle message is_open t b).next_tag ≡ b.next_tag
unfolding handle
handle-next_tag message is_open t b = ground arith

settle-books :
    (action : Option Action) (is_open : Bool) (t tag : ℕ) (b : RabbitMqBroker)
    → (due tag (settle action is_open t b) ≤ due tag b + one t tag)
      × (calls tag (settle action is_open t b).acts ≤ calls tag b.acts)
      × ((settle action is_open t b).next_tag ≡ b.next_tag)
unfolding settle
settle-books none is_open t tag b = (omega arith, omega arith, refl)
settle-books (some ack) false t tag b = (omega arith, omega arith, refl)
settle-books (some dead_letter) false t tag b = (omega arith, omega arith, refl)
settle-books (some ack) true t tag b = (
  omega (arith, answers-concat tag b.acts (acked t)),
  omega (arith, calls-concat tag b.acts (acked t)),
  refl,
)
settle-books (some dead_letter) true t tag b = (
  omega (arith, answers-concat tag b.acts (rejected t)),
  omega (arith, calls-concat tag b.acts (rejected t)),
  refl,
)

pub on_handled-Kept :
    (t tag : ℕ) (action : Option Action) (is_open : Bool) (b : RabbitMqBroker)
    → Kept tag b (on_handled t action is_open b)
unfolding on_handled
on_handled-Kept t tag action is_open b = elim (Bool-cases (is_active t b.active)) [
  | inr e ↦ rw (e) (omega arith, omega arith, omega arith)
  | inl e ↦
      let (d, c, n) =
        settle-books action is_open t tag (record b { active = without t b.active }) in
      rw (e) (omega (arith, d, count-without tag t b.active e), c, omega (arith, n))
]
