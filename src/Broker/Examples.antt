-- ===== src/Broker/Examples.antt =====
-- A consumer that handles one delivery and is then stopped (src/queue/rabbitmq-broker.ts).
use model_mux.Prelude.{ℕ, ◌+◌, ◌≤◌, ◌≡◌, true, false, Bool, [], ◌∷◌, List, Option, none, some}
use model_mux.Prelude.Int.{pos}
use model_mux.Broker.{
  Action, ack, dead_letter, ParsedMessage, BrokerEvent, arrives, handler_ends, channel_closes, run,
  stop_consuming, stopped, consuming,
}
use model_mux.Broker.Books.{calls, answers, count}
use model_mux.Broker.Answers.{deliveries_once}
use model_mux.Broker.Cancels.{cancels, owed}
use model_mux.Broker.Draining.{endings, drains}

-- The job "j", at its first attempt.
abbrev job : Option ParsedMessage
job = some (record { id = some (106 ∷ []); attempt = some (pos 1) })

abbrev events : List BrokerEvent
events =
    arrives (some job) true ∷ arrives (some none) true ∷ handler_ends 0 (some dead_letter) true ∷ []

deliveries_once_example :
    let b = run events consuming in (calls 0 b.acts ≤ 1) × (answers 0 b.acts + count 0 b.active ≤ 1)
deliveries_once_example = deliveries_once events 0

abbrev acked_all : ℕ → Option Action × Bool
acked_all _ = (some ack, true)

drains_example :
    let b = run (arrives (some job) true ∷ []) consuming in
    let b' = run (arrives (some job) true ∷ channel_closes ∷ []) (stop_consuming b) in
    let b'' = run (endings acked_all b'.active) b' in
    ((tag : ℕ) → calls tag b'.acts ≤ calls tag b.acts)
    × (b''.active ≡ [])
    × ((stopped b'').consumer_tag ≡ false)
    × (cancels (stopped b'').acts ≡ cancels b.acts + owed b.consumer_tag)
drains_example =
    drains (arrives (some job) true ∷ channel_closes ∷ []) acked_all
      (run (arrives (some job) true ∷ []) consuming)
