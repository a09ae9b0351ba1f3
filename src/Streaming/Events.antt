-- ===== src/Streaming/Events.antt =====
-- The bounds of what the generators of src/providers/stream-parser.ts hand out.
use model_mux.Prelude.{
  ℕ, ◌+◌, ◌≤◌, ◌<◌, ◌≡◌, refl, inl, inr, List, [], ◌∷◌, ◌++◌, Option, arith, ltb, ◌==◌, length,
  length-append, Bool-cases, Option-cases, All, All-append,
}
use model_mux.Streaming.{
  Text, max_frame_size, Body, done, chunk, breaks, ReadError, scan, without_return, last_line,
  read_lines_from, read_lines, data_value, join_lines, event_of, read_events, read_sse_data,
}
use model_mux.Streaming.Chunks.{scan_left_fits}

Fits : Text → Type 0
Fits t = length t ≤ max_frame_size

without_return-length : (t : Text) → length (without_return t) ≤ length t
unfolding without_return
without_return-length [] = omega arith
without_return-length (c ∷ []) = ground arith
without_return-length (c ∷ d ∷ cs) = omega (arith, without_return-length (d ∷ cs))

scan-Fits : (p s t : Text) → All Fits (scan p s t).0
unfolding scan Fits
scan-Fits p s [] = elim (Bool-cases (ltb max_frame_size (length (p ++ s)))) [
  | inl h ↦ rw (h, scan) tt
  | inr h ↦ rw (h, scan) tt
]
scan-Fits p s (c ∷ cs) = elim (Bool-cases (c == 10)) [
  | inl n ↦ elim (Bool-cases (ltb max_frame_size (length (p ++ s)))) [
    | inl h ↦ rw (n, h, scan) tt
    | inr h ↦
        let short : length (p ++ s) ≤ max_frame_size = ground arith in
        rw (n, h, scan) (omega (arith, short, without_return-length (p ++ s)), scan-Fits [] [] cs)
  ]
  | inr n ↦ rw (n, scan) (scan-Fits p (s ++ c ∷ []) cs)
]

last_line-Fits : (t : Text) → Fits t → All Fits (last_line t)
unfolding Fits
last_line-Fits [] h = tt
last_line-Fits (c ∷ cs) h = (omega (arith, h, without_return-length (c ∷ cs)), tt)

read_lines_from-Fits : (p : Text) (body : Body) → All Fits (read_lines_from p body).yielded
unfolding read_lines_from Fits
read_lines_from-Fits p (breaks e) = tt
read_lines_from-Fits p (done t) = elim (Option-cases (scan p [] t).1) [
  | inl e ↦ rw (e, read_lines_from) (scan-Fits p [] t)
  | inr (q, e) ↦
      rw (e, read_lines_from)
        (All-append Fits (scan p [] t).0 (last_line q) (scan-Fits p [] t)
          (last_line-Fits q (scan_left_fits p [] t q e)))
]
read_lines_from-Fits p (chunk t rest) = elim (Option-cases (scan p [] t).1) [
  | inl e ↦ rw (e, read_lines_from) (scan-Fits p [] t)
  | inr (q, e) ↦
      rw (e, read_lines_from)
        (All-append Fits (scan p [] t).0 (read_lines_from q rest).yielded (scan-Fits p [] t)
          (read_lines_from-Fits q rest))
]

-- The size that `readSseData` counts: each data line with a line break.
total : List Text → ℕ
total [] = 0
total (t ∷ ts) = (length t + 1) + total ts

total-append : (ts : List Text) (t : Text) → total (ts ++ t ∷ []) ≡ total ts + (length t + 1)
unfolding total
total-append [] t = omega arith
total-append (u ∷ ts) t = omega (arith, total-append ts t)

join_lines-length : (t : Text) (ts : List Text) → length (join_lines (t ∷ ts)) + 1 ≡ total (t ∷ ts)
unfolding join_lines total
join_lines-length t [] = omega arith
join_lines-length t (u ∷ ts) =
    omega (arith, join_lines-length u ts, length-append t (10 ∷ join_lines (u ∷ ts)))

IsFrame : Text → Type 0
IsFrame t = length t < max_frame_size

event_of-IsFrame : (ts : List Text) → total ts ≤ max_frame_size → All IsFrame (event_of ts)
unfolding IsFrame
event_of-IsFrame [] h = tt
event_of-IsFrame (t ∷ ts) h = (omega (arith, h, join_lines-length t ts), tt)

read_events-IsFrame :
    (ts : List Text) (size : ℕ) (lines : List Text) (e : Option ReadError)
    → size ≡ total ts
    → size ≤ max_frame_size
    → All IsFrame (read_events ts size lines e).yielded
unfolding read_events total
read_events-IsFrame ts size [] e s h = tt
read_events-IsFrame ts size ([] ∷ lines) e s h =
    All-append IsFrame (event_of ts) _ (event_of-IsFrame ts (omega (arith, s, h)))
      (read_events-IsFrame [] 0 lines e refl (omega arith))
read_events-IsFrame ts size ((c ∷ cs) ∷ lines) e s h = elim (Option-cases (data_value (c ∷ cs))) [
  | inl n ↦ rw (n, read_events) (read_events-IsFrame ts size lines e s h)
  | inr (value, n) ↦ elim (Bool-cases (ltb max_frame_size (size + (length value + 1)))) [
    | inl long ↦ rw (n, long, read_events) tt
    | inr short ↦
        rw (n, short, read_events)
          (read_events-IsFrame (ts ++ value ∷ []) (size + (length value + 1)) lines e
            (omega (arith, s, total-append ts value)) (ground arith))
  ]
]

-- Whatever a provider sends: no line that is yielded is longer than the frame limit, and no event
-- reaches it, its joined data lines counted.
pub frames_bounded :
    (body : Body)
    → All (λ t. length t ≤ max_frame_size) (read_lines body).yielded
      × All (λ t. length t < max_frame_size) (read_sse_data body).yielded
unfolding read_lines read_sse_data Fits IsFrame total
frames_bounded body = (
  read_lines_from-Fits [] body,
  read_events-IsFrame [] 0 (read_lines body).yielded (read_lines body).thrown refl (omega arith),
)
