-- ===== src/Streaming.antt =====
-- src/providers/stream-parser.ts: lines (`readLines`) and server-sent events (`readSseData`) from the chunks of
-- a provider's response.
--
-- A text is the list of its UTF-16 code units. `fetch` and `TextDecoder` are not of this repository: a
-- response body is given as what each read brings, decoded, or the error that ends it. A generator is
-- the list of what it yields, with the error that it throws at the end. `parseStreamJson` and the
-- release of the reader are left out.
pub mod Chunks
pub mod Events
mod Examples
use model_mux.Prelude.{
  ℕ, ◌+◌, Bool, true, false, List, [], ◌∷◌, ◌++◌, Option, none, some, if◌then◌else◌, ltb, ◌==◌,
  length,
}

abbrev pub Text : Type 0
Text = List ℕ

abbrev pub max_frame_size : ℕ
max_frame_size = 65536

-- `response_error` is ProviderResponseError, `connection_error` ProviderConnectionError, and `aborted` the reason
-- of the abort signal.
pub data ReadError : Type 0 where
  aborted connection_error response_error : ReadError

-- `done t`: the end of the body, where the decoder is flushed to `t`. `breaks e`: the signal is aborted,
-- the read fails, or the bytes are not UTF-8.
pub data Body : Type 0 where
  done : Text → Body
  chunk : Text → Body → Body
  breaks : ReadError → Body

-- The yields of a generator, and what it throws.
pub record Yields : Type 0 where
  pub yielded : List Text
  pub thrown : Option ReadError

-- `pending.endsWith("\r") ? pending.slice(0, -1) : pending`.
unfoldable pub without_return : Text → Text
without_return [] = []
without_return (c ∷ []) = if c == 13 then [] else c ∷ []
without_return (c ∷ d ∷ cs) = c ∷ without_return (d ∷ cs)

-- The lines in one decoded text, and the unfinished line after it, if none was too long. `segment` is
-- `decoded.slice(start, index)`.
unfoldable pub scan : (pending segment : Text) → Text → List Text × Option Text
scan pending segment [] =
    if ltb max_frame_size (length (pending ++ segment))
    then ([], none)
    else ([], some (pending ++ segment))
scan pending segment (c ∷ cs) = elim (c == 10) [
  | true ↦
      if ltb max_frame_size (length (pending ++ segment))
      then ([], none)
      else let next = scan [] [] cs in (without_return (pending ++ segment) ∷ next.0, next.1)
  | false ↦ scan pending (segment ++ c ∷ []) cs
]

-- `if (pending) yield …`, at the end of the body.
abbrev pub last_line : Text → List Text
last_line [] = []
last_line (c ∷ cs) = without_return (c ∷ cs) ∷ []

-- `readLines`, with the unfinished line so far.
unfoldable pub read_lines_from : Text → Body → Yields
unfolding scan
read_lines_from pending (breaks e) = record { yielded = []; thrown = some e }
read_lines_from pending (done t) =
    let (lines, left) = scan pending [] t in
    elim left [
      | none ↦ record { yielded = lines; thrown = some response_error }
      | some p ↦ record { yielded = lines ++ last_line p; thrown = none }
    ]
read_lines_from pending (chunk t rest) =
    let (lines, left) = scan pending [] t in
    elim left [
      | none ↦ record { yielded = lines; thrown = some response_error }
      | some p ↦
          let later = read_lines_from p rest in
          record { yielded = lines ++ later.yielded; thrown = later.thrown }
    ]

unfoldable pub read_lines : Body → Yields
unfolding read_lines_from
read_lines body = read_lines_from [] body

-- What follows a prefix, in a text that starts with it.
unfoldable pub after : Text → Text → Option Text
after [] text = some text
after (p ∷ ps) [] = none
after (p ∷ ps) (c ∷ cs) = elim (p == c) [ true ↦ after ps cs | false ↦ none ]

-- `value.replace(/^ /, "")`.
unfoldable pub without_space : Text → Text
without_space [] = []
without_space (c ∷ cs) = if c == 32 then cs else c ∷ cs

-- `line.startsWith("data:")`, and then `line.slice(5).replace(/^ /, "")`.
unfoldable pub data_value : Text → Option Text
unfolding after without_space
data_value line = elim (after (100 ∷ 97 ∷ 116 ∷ 97 ∷ 58 ∷ []) line) [
  | none ↦ none
  | some value ↦ some (without_space value)
]

-- `data.join("\n")`.
unfoldable pub join_lines : List Text → Text
join_lines [] = []
join_lines (t ∷ []) = t
join_lines (t ∷ u ∷ ts) = t ++ 10 ∷ join_lines (u ∷ ts)

abbrev pub event_of : List Text → List Text
event_of [] = []
event_of (t ∷ ts) = join_lines (t ∷ ts) ∷ []

-- `readSseData`, with the data lines of the current event and their size.
unfoldable pub read_events :
    (data_lines : List Text) → (size : ℕ) → List Text → Option ReadError → Yields
unfolding data_value join_lines
read_events data_lines size [] thrown = record { yielded = []; thrown = thrown }
read_events data_lines size ([] ∷ lines) thrown =
    let rest = read_events [] 0 lines thrown in
    record { yielded = event_of data_lines ++ rest.yielded; thrown = rest.thrown }
read_events data_lines size ((c ∷ cs) ∷ lines) thrown = elim (data_value (c ∷ cs)) [
  | none ↦ read_events data_lines size lines thrown
  | some value ↦ elim (ltb max_frame_size (size + (length value + 1))) [
    | true ↦ record { yielded = []; thrown = some response_error }
    | false ↦ read_events (data_lines ++ value ∷ []) (size + (length value + 1)) lines thrown
  ]
]

unfoldable pub read_sse_data : Body → Yields
unfolding read_lines read_events
read_sse_data body = let lines = read_lines body in read_events [] 0 lines.yielded lines.thrown
