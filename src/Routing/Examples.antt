-- ===== src/Routing/Examples.antt =====
-- A router with a fallback (src/providers/router.ts), run by hand.
use model_mux.Prelude.{refl, String, Option, some, [], ◌∷◌, false, not}
use model_mux.Prelude.Int.{pos}
use model_mux.Errors.{Error, app, provider_connection_error}
use model_mux.Circuit.{CircuitBreaker, closed, opened, Completion, returned, threw}
use model_mux.Routing.{
  ChatRequest, ChatResponse, Target, primary, fallback, ProviderRouter, World, Pass, stream_mode,
  call,
}
use model_mux.Routing.Stream.{StreamScript, resolves, rejects, delta, stream_from, stream}
use model_mux.Routing.Calls.{AtMostOnce}
use model_mux.Routing.Voice.{OneVoice, one_voice}
use model_mux.Routing.Passes.{stream-AtMostOnce}

abbrev fresh : CircuitBreaker
fresh = record {
  state = closed;
  consecutive_failures = 0;
  opened_at = pos 0;
  generation = 0;
  failure_threshold = 2;
  reset_timeout_ms = 100;
}

abbrev tripped : CircuitBreaker
tripped = record fresh {
  state = opened;
  consecutive_failures = 2;
  opened_at = pos 7;
  generation = 1;
}

abbrev router : ProviderRouter
router = record {
  primary_name = "ollama";
  fallback_target = some (record { name = "openai"; model_map = ("llama", "gpt") ∷ [] });
}

abbrev request : ChatRequest
request = record { model = "llama"; messages = [] }

abbrev beginning : Pass
beginning = record {
  world = record {
    primary_circuit = fresh;
    fallback_circuit = fresh;
    now = pos 10;
    is_cancelled = false;
  };
  attempted = false;
  emitted = false;
  metrics = [];
  deltas = [];
}

abbrev cut_off : Pass
cut_off = record beginning {
  world = record {
    primary_circuit = tripped;
    fallback_circuit = fresh;
    now = pos 10;
    is_cancelled = false;
  };
}

-- The primary provider cannot be reached.
abbrev answer : Target → ChatRequest → World → Completion ChatResponse Error × World
answer primary q w = (threw (app (provider_connection_error "ollama")), w)
answer fallback q w = (returned (record { content = "hi" }), w)

abbrev script : Target → Option (ChatRequest → World → StreamScript)
script primary = some (λ q w. rejects (app (provider_connection_error "ollama")))
script fallback = some (λ q w. delta "h" (λ e. e) (delta "i" (λ e. e) resolves))

abbrev write : String → World → Completion (Unit {0}) Error × World
write s w = (returned tt, w)

stream-AtMostOnce_example :
    AtMostOnce router
      (stream_from write script)
      (λ q. not q.emitted)
      stream_mode
      request
      (call router primary stream_mode (stream_from write script primary request) beginning)
      (stream router script write request beginning).1
stream-AtMostOnce_example = stream-AtMostOnce router script write request beginning refl

one_voice_example : OneVoice router script write (stream router script write request beginning).1
one_voice_example = one_voice router script write request beginning refl
