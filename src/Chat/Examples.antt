-- ===== src/Chat/Examples.antt =====
-- A gateway with one provider, whose limiter hands out the permit 7 (src/routes/chat.ts).
use model_mux.Prelude.{◌+◌, ℕ, ◌≡◌, refl, true, false, [], some}
use model_mux.Errors.{unexpected}
use model_mux.Circuit.{returned, threw}
use model_mux.Routing.{ChatRequest}
use model_mux.Chat.{Gateway, ChatCache, rejects, delta}
use model_mux.Chat.Handlers.{chat_handler, stream_handler, session}
use model_mux.Chat.Orders.{follow, next, fresh}
use model_mux.Chat.Trails.{end_of, chat_handler-order}
use model_mux.Chat.OpenCache.{cached_gateway, plain_gateway, chat_handler-fails_open}
use model_mux.Chat.Streams.{next_stream, waiting}
use model_mux.Chat.StreamTrails.{stream_end, stream_handler-order}

-- While a read is awaited, another request changes the world.
abbrev down : ChatCache ℕ
down = record {
  get = λ _ _ w. (threw (unexpected "down"), w + 1);
  put = λ _ _ _ w. (threw (unexpected "down"), w);
}

-- The world counts the events that were written. The stream fails after one text.
abbrev gateway : Gateway ℕ
gateway = record {
  is_aborted = λ _. false;
  abort = λ w. w;
  acquire = λ w. (returned 7, w);
  release = λ _ w. w;
  chat = λ _ w. (returned (record { content = "hello" }), w);
  stream = some (λ _ _. delta "hello" (λ e. e) (rejects (unexpected "cut")));
  chat_cache = some down;
  is_destroyed = λ _. false;
  needs_drain = λ _. false;
  write = λ _ w. (true, w);
}

abbrev request : ChatRequest
request = record { model = "m"; messages = [] }

chat_handler-order_example :
    let (c, s) = chat_handler gateway "o" request (session true 0) in
    follow next fresh s.trace ≡ some (end_of c)
chat_handler-order_example = chat_handler-order gateway "o" request true 0

chat_handler-fails_open_example :
    let (c, s) = chat_handler (cached_gateway gateway down) "o" request (session true 0) in
    let (c', s') = chat_handler (plain_gateway gateway down) "o" request (session true 1) in
    (c ≡ c') × (s.world ≡ s'.world)
chat_handler-fails_open_example =
    chat_handler-fails_open gateway down "o" request 0 (unexpected "down") refl refl refl

stream_handler-order_example :
    let (c, s) = stream_handler gateway request (session false 0) in
    follow next_stream waiting s.trace ≡ some (stream_end c)
stream_handler-order_example = stream_handler-order gateway request 0
