-- ===== src/Streaming/Chunks.antt =====
-- The lines of a body (src/providers/stream-parser.ts) do not depend on where the network cuts it.
use model_mux.Prelude.{
  ◌≤◌, ◌<◌, ◌≡◌, refl, sym, ap, ◌∙◌, subst, inl, inr, List, [], ◌∷◌, ◌++◌, Option, none, some,
  arith, ltb, ◌==◌, length, length-append, Bool-cases, Option-cases,
}
use mathlib.Core.List.{append_assoc, append-nil}
use model_mux.Streaming.{
  Text, max_frame_size, Body, done, chunk, breaks, ReadError, response_error, Yields, scan,
  without_return, last_line, read_lines_from, read_lines,
}

-- A segment is as good as a longer unfinished line.
scan_segment : (p s t : Text) → scan p s t ≡ scan (p ++ s) [] t
unfolding scan
scan_segment p s [] = rw (append-nil (p ++ s)) refl
scan_segment p s (c ∷ cs) = elim (Bool-cases (c == 10)) [
  | inl h ↦ rw (h, append-nil (p ++ s), scan) refl
  | inr h ↦
      rw (h, scan)
        (scan_segment p (s ++ c ∷ []) cs
          ∙ (ap (λ x. scan x [] cs) (sym (append_assoc p s (c ∷ [])))
              ∙ sym (scan_segment (p ++ s) (c ∷ []) cs)))
]

-- A line that is too long already is refused, whatever follows.
scan_too_long : (p s t : Text) → max_frame_size < length (p ++ s) → scan p s t ≡ ([], none)
unfolding scan
scan_too_long p s [] h = ground arith
scan_too_long p s (c ∷ cs) h = elim (Bool-cases (c == 10)) [
  | inl n ↦ rw (n, scan) (ground arith)
  | inr n ↦
      rw (n, scan)
        (scan_too_long p (s ++ c ∷ []) cs (
          omega
            (arith, h, length-append p s, length-append p (s ++ c ∷ []), length-append s (c ∷ []))))
]

-- What a scan leaves goes on with the text that follows.
abbrev then_scan : List Text × Option Text → Text → List Text × Option Text
then_scan (lines, none) t = (lines, none)
then_scan (lines, some p) t = let next = scan p [] t in (lines ++ next.0, next.1)

then_scan-cons :
    (line : Text) (q : List Text × Option Text) (b : Text)
    → (line ∷ (then_scan q b).0, (then_scan q b).1) ≡ then_scan (line ∷ q.0, q.1) b
then_scan-cons line (lines, none) b = refl
then_scan-cons line (lines, some p) b = refl

scan-append : (p s a b : Text) → scan p s (a ++ b) ≡ then_scan (scan p s a) b
unfolding scan
scan-append p s [] b = elim (Bool-cases (ltb max_frame_size (length (p ++ s)))) [
  | inl h ↦ rw (h) (scan_too_long p s b (ground arith))
  | inr h ↦ rw (h) (scan_segment p s b)
]
scan-append p s (c ∷ a) b = elim (Bool-cases (c == 10)) [
  | inl n ↦ elim (Bool-cases (ltb max_frame_size (length (p ++ s)))) [
    | inl h ↦ rw (n, h, scan) refl
    | inr h ↦
        rw (n, h, scan)
          (ap (λ q. (without_return (p ++ s) ∷ q.0, q.1)) (scan-append [] [] a b)
            ∙ then_scan-cons (without_return (p ++ s)) (scan [] [] a) b)
  ]
  | inr n ↦ rw (n, scan) (scan-append p (s ++ c ∷ []) a b)
]

-- All the text of a body, and how the body ends.
abbrev pub text_of : Body → Text
text_of (done t) = t
text_of (breaks e) = []
text_of (chunk t rest) = t ++ text_of rest

abbrev pub end_of : Body → Option ReadError
end_of (done t) = none
end_of (breaks e) = some e
end_of (chunk t rest) = end_of rest

abbrev pub finish : List Text × Option Text → Option ReadError → Yields
finish (lines, none) e = record { yielded = lines; thrown = some response_error }
finish (lines, some p) none = record { yielded = lines ++ last_line p; thrown = none }
finish (lines, some p) (some e) = record { yielded = lines; thrown = some e }

finish-none :
    (q : List Text × Option Text) (t : Text) (e : Option ReadError)
    → q.1 ≡ none
    → finish (then_scan q t) e ≡ record { yielded = q.0; thrown = some response_error }
finish-none (lines, none) t e h = refl
finish-none (lines, some p) t e h = cc

then_scan-some :
    (q : List Text × Option Text) (t p : Text)
    → q.1 ≡ some p
    → then_scan q t ≡ (q.0 ++ (scan p [] t).0, (scan p [] t).1)
then_scan-some (lines, none) t p h = cc
then_scan-some (lines, some p') t p h = ground (arith, h)

finish-append :
    (ls : List Text) (q : List Text × Option Text) (e : Option ReadError)
    → (record { yielded = ls ++ (finish q e).yielded; thrown = (finish q e).thrown })
      ≡ finish (ls ++ q.0, q.1) e
finish-append ls (lines, none) e = refl
finish-append ls (lines, some p) none =
    ap (λ ys. record { yielded = ys; thrown = none }) (sym (append_assoc ls lines (last_line p)))
finish-append ls (lines, some p) (some e) = refl

pub scan_left_fits : (p s t q : Text) → (scan p s t).1 ≡ some q → length q ≤ max_frame_size
unfolding scan
scan_left_fits p s [] q e = elim (Bool-cases (ltb max_frame_size (length (p ++ s)))) [
  | inl h ↦ let e' = rw (h, scan) at e in cc
  | inr h ↦
      let e' = rw (h, scan) at e in
      let same : p ++ s ≡ q = ground arith in
      subst (λ x. length x ≤ max_frame_size) same (ground arith)
]
scan_left_fits p s (c ∷ cs) q e = elim (Bool-cases (c == 10)) [
  | inl n ↦ elim (Bool-cases (ltb max_frame_size (length (p ++ s)))) [
    | inl h ↦ let e' = rw (n, h, scan) at e in cc
    | inr h ↦ scan_left_fits [] [] cs q (rw (n, h, scan) at e)
  ]
  | inr n ↦ scan_left_fits p (s ++ c ∷ []) cs q (rw (n, scan) at e)
]

read_lines_from-finish :
    (p : Text) (body : Body)
    → length p ≤ max_frame_size
    → read_lines_from p body ≡ finish (scan p [] (text_of body)) (end_of body)
unfolding read_lines_from scan
read_lines_from-finish p (breaks e) fits = rw (append-nil p) (ground arith)
read_lines_from-finish p (done t) fits = elim (Option-cases (scan p [] t).1) [
  | inl e ↦ rw (e, read_lines_from, finish) refl
  | inr (q, e) ↦ rw (e, read_lines_from, finish) refl
]
read_lines_from-finish p (chunk t rest) fits =
    subst (λ x. read_lines_from p (chunk t rest) ≡ finish x (end_of rest))
      (sym (scan-append p [] t (text_of rest)))
      (elim (Option-cases (scan p [] t).1) [
        | inl e ↦
            rw (e, read_lines_from) (sym (finish-none (scan p [] t) (text_of rest) (end_of rest) e))
        | inr (q, e) ↦
            rw (e, read_lines_from, read_lines_from-finish q rest (scan_left_fits p [] t q e))
              (finish-append (scan p [] t).0 (scan q [] (text_of rest)) (end_of rest)
                ∙ ap (λ x. finish x (end_of rest))
                    (sym (then_scan-some (scan p [] t) (text_of rest) q e)))
      ])

-- The lines that a body yields, and the error after them, depend only on its text as a whole and on how it
-- ends, not on the chunks that the network makes of it; that includes when a line is refused as
-- too long.
pub chunks_do_not_matter :
    (body body' : Body)
    → text_of body ≡ text_of body'
    → end_of body ≡ end_of body'
    → read_lines body ≡ read_lines body'
unfolding read_lines
chunks_do_not_matter body body' t e =
    read_lines_from-finish [] body (ground arith)
    ∙ (ap (λ x. finish (scan [] [] x) (end_of body)) t
        ∙ (ap (finish (scan [] [] (text_of body'))) e
            ∙ sym (read_lines_from-finish [] body' (ground arith))))
