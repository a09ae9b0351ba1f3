-- ===== src/Routing/State.antt =====
-- The requests of src/types/chat.ts, and the state of a routing pass of src/providers/router.ts.
use model_mux.Prelude.{Bool, String, List, Option}
use model_mux.Prelude.Int.{ℤ}
use model_mux.Errors.{Error}
use model_mux.Circuit.{CircuitBreaker, Completion}

pub data Role : Type 0 where
  system user assistant : Role

pub record ChatMessage : Type 0 where
  pub role : Role
  pub content : String

pub record ChatRequest : Type 0 where
  pub model : String
  pub messages : List ChatMessage

-- The role of the message is always "assistant".
pub record ChatResponse : Type 0 where
  pub content : String

pub data Target : Type 0 where
  primary fallback : Target

pub record FallbackTarget : Type 0 where
  pub name : String
  pub model_map : List (String × String)

pub record ProviderRouter : Type 0 where
  pub primary_name : String
  pub fallback_target : Option FallbackTarget

pub record World : Type 0 where
  pub primary_circuit : CircuitBreaker
  pub fallback_circuit : CircuitBreaker
  pub now : ℤ
  pub is_cancelled : Bool

pub data Mode : Type 0 where
  chat_mode stream_mode : Mode

pub data ProviderOutcome : Type 0 where
  success transient_error permanent_error cancelled consumer_error : ProviderOutcome

pub data Metric : Type 0 where
  provider_start circuit_rejection : Target → Mode → Metric
  provider_end : Target → Mode → ProviderOutcome → Metric
  fell_back : Metric

-- `attempted` belongs to the current call, `emitted` to the stream; `deltas` are the texts handed to the
-- client's writer, with the provider each came from.
pub record Pass : Type 0 where
  pub world : World
  pub open world use *
  pub attempted : Bool
  pub emitted : Bool
  pub metrics : List Metric
  pub deltas : List (Target × String)

-- An asynchronous action of the pass.
abbrev pub Act : Type 0 → Type 0
Act T = Pass → Completion T Error × Pass
