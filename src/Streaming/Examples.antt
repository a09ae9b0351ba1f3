-- ===== src/Streaming/Examples.antt =====
-- A body of two lines, cut in two ways (src/providers/stream-parser.ts).
use model_mux.Prelude.{◌≡◌, ◌≤◌, ◌<◌, refl, [], ◌∷◌, All, length}
use model_mux.Streaming.{Body, done, chunk, max_frame_size, read_lines, read_sse_data}
use model_mux.Streaming.Chunks.{chunks_do_not_matter}
use model_mux.Streaming.Events.{frames_bounded}

abbrev cut : Body
cut = chunk (97 ∷ []) (chunk (13 ∷ 10 ∷ 98 ∷ []) (done (10 ∷ 99 ∷ [])))

abbrev whole : Body
whole = done (97 ∷ 13 ∷ 10 ∷ 98 ∷ 10 ∷ 99 ∷ [])

chunks_do_not_matter_example : read_lines cut ≡ read_lines whole
chunks_do_not_matter_example = chunks_do_not_matter cut whole refl refl

frames_bounded_example :
    All (λ t. length t ≤ max_frame_size) (read_lines cut).yielded
    × All (λ t. length t < max_frame_size) (read_sse_data cut).yielded
frames_bounded_example = frames_bounded cut
