-- ===== src/Adapters/Endings.antt =====
-- When the streams of src/providers/openai.ts and src/providers/ollama.ts end well.
use model_mux.Prelude.{
  ◌≡◌, ◌≢◌, refl, sym, ap, ◌∙◌, ◌⊎◌, inl, inr, Bool, true, false, String, str_eq, List, [], ◌∷◌,
  ◌++◌, Option, none, some, Bool-cases, All,
}
use model_mux.Streaming.{Text, ReadError}
use model_mux.Routing.Stream.{StreamScript, resolves, rejects, awaits, delta}
use model_mux.Adapters.{
  Reader, Meaning, malformed, ignored, says, goes_on, ends, broken, text_eq, done_marker,
  openai_meaning, openai_stream, ollama_meaning, ollama_stream, spoken, ended_early,
}

-- The texts that a script hands over, and whether it then resolves.
abbrev pub texts : StreamScript → List String
texts resolves = []
texts (rejects e) = []
texts (awaits f rest) = texts rest
texts (delta content on_error rest) = content ∷ texts rest

abbrev pub resolved : StreamScript → Bool
resolved resolves = true
resolved (rejects e) = false
resolved (awaits f rest) = resolved rest
resolved (delta content on_error rest) = resolved rest

Meaning-cases :
    (m : Meaning)
    → (m ≡ malformed)
      ⊎ ((m ≡ ignored)
          ⊎ (((c : String) × (m ≡ says c goes_on))
              ⊎ (((c : String) × (m ≡ says c ends)) ⊎ ((c : String) × (m ≡ says c broken)))))
Meaning-cases malformed = inl refl
Meaning-cases ignored = inr (inl refl)
Meaning-cases (says c goes_on) = inr (inr (inl (c, refl)))
Meaning-cases (says c ends) = inr (inr (inr (inl (c, refl))))
Meaning-cases (says c broken) = inr (inr (inr (inr (c, refl))))

abbrev IsText : String → Type 0
IsText t = str_eq t "" ≡ false

module _ (reader : Reader) where
  spoken-resolved :
      (c : String) (rest : StreamScript) → resolved (spoken reader c rest) ≡ resolved rest
  spoken-resolved c rest = elim (Bool-cases (str_eq c "")) [
    | inl e ↦ rw (e) refl
    | inr e ↦ rw (e) refl
  ]

  spoken-texts :
      (c : String) (rest : StreamScript)
      → All IsText (texts rest)
      → All IsText (texts (spoken reader c rest))
  spoken-texts c rest h = elim (Bool-cases (str_eq c "")) [
    | inl e ↦ rw (e) h
    | inr e ↦ rw (e) (e, h)
  ]

  ended_early-resolved :
      (name : String) (t : Option ReadError) → resolved (ended_early reader name t) ≡ false
  ended_early-resolved name none = refl
  ended_early-resolved name (some e) = refl

  ended_early-texts :
      (name : String) (t : Option ReadError) → texts (ended_early reader name t) ≡ []
  ended_early-texts name none = refl
  ended_early-texts name (some e) = refl

  ollama_stream-texts :
      (ls : List Text) (t : Option ReadError) → All IsText (texts (ollama_stream reader ls t))
  unfolding ollama_stream
  ollama_stream-texts [] t = rw (ended_early-texts "Ollama" t) tt
  ollama_stream-texts (l ∷ ls) t = elim (Meaning-cases (ollama_meaning reader l)) [
    | inl m ↦ rw (m, ollama_stream) tt
    | inr (inl m) ↦ rw (m, ollama_stream) (ollama_stream-texts ls t)
    | inr (inr (inl (c, m))) ↦
        rw (m, ollama_stream)
          (spoken-texts c (ollama_stream reader ls t) (ollama_stream-texts ls t))
    | inr (inr (inr (inl (c, m)))) ↦ rw (m, ollama_stream) (spoken-texts c resolves tt)
    | inr (inr (inr (inr (c, m)))) ↦ rw (m, ollama_stream) (spoken-texts c _ tt)
  ]

  openai_stream-texts :
      (f : Bool) (es : List Text) (t : Option ReadError)
      → All IsText (texts (openai_stream reader f es t))
  unfolding openai_stream
  openai_stream-texts f [] t = rw (ended_early-texts "OpenAI" t) tt
  openai_stream-texts f (e ∷ es) t = elim (Bool-cases (text_eq e done_marker)) [
    | inl d ↦ elim (Bool-cases f) [
      | inl k ↦ rw (openai_stream, d, k) tt
      | inr k ↦ rw (openai_stream, d, k) tt
    ]
    | inr d ↦ elim (Meaning-cases (openai_meaning reader f e)) [
      | inl m ↦ rw (openai_stream, d, m) tt
      | inr (inl m) ↦ rw (openai_stream, d, m) (openai_stream-texts f es t)
      | inr (inr (inl (c, m))) ↦
          rw (openai_stream, d, m) (spoken-texts c _ (openai_stream-texts f es t))
      | inr (inr (inr (inl (c, m)))) ↦
          rw (openai_stream, d, m) (spoken-texts c _ (openai_stream-texts true es t))
      | inr (inr (inr (inr (c, m)))) ↦ rw (openai_stream, d, m) (spoken-texts c _ tt)
    ]
  ]

  -- The events hold no end marker.
  abbrev IsUnended : List Text → Type 0
  IsUnended es = All (λ e. text_eq e done_marker ≡ false) es

  openai_stream-cut :
      (f : Bool) (es : List Text) (t : Option ReadError)
      → IsUnended es
      → resolved (openai_stream reader f es t) ≡ false
  unfolding openai_stream
  openai_stream-cut f [] t h = ended_early-resolved "OpenAI" t
  openai_stream-cut f (e ∷ es) t (d, h) = elim (Meaning-cases (openai_meaning reader f e)) [
    | inl m ↦ rw (openai_stream, d, m) refl
    | inr (inl m) ↦ rw (openai_stream, d, m) (openai_stream-cut f es t h)
    | inr (inr (inl (c, m))) ↦
        rw (openai_stream, d, m) (spoken-resolved c _ ∙ openai_stream-cut f es t h)
    | inr (inr (inr (inl (c, m)))) ↦
        rw (openai_stream, d, m) (spoken-resolved c _ ∙ openai_stream-cut true es t h)
    | inr (inr (inr (inr (c, m)))) ↦ rw (openai_stream, d, m) (spoken-resolved c _)
  ]

  ollama_stream-extend :
      (ls more : List Text) (t t' : Option ReadError)
      → resolved (ollama_stream reader ls t) ≡ true
      → ollama_stream reader (ls ++ more) t' ≡ ollama_stream reader ls t
  unfolding ollama_stream
  ollama_stream-extend [] more t t' h = cc (ended_early-resolved "Ollama" t)
  ollama_stream-extend (l ∷ ls) more t t' h = elim (Meaning-cases (ollama_meaning reader l)) [
    | inl m ↦ rw (ollama_stream, m) refl
    | inr (inl m) ↦
        rw (ollama_stream, m) (ollama_stream-extend ls more t t' (rw (ollama_stream, m) at h))
    | inr (inr (inl (c, m))) ↦
        rw (ollama_stream, m)
          (ap (spoken reader c) (
            ollama_stream-extend ls more t t'
              (sym (spoken-resolved c (ollama_stream reader ls t)) ∙ rw (ollama_stream, m) at h)))
    | inr (inr (inr (inl (c, m)))) ↦ rw (ollama_stream, m) refl
    | inr (inr (inr (inr (c, m)))) ↦ rw (ollama_stream, m) refl
  ]

  openai_stream-extend :
      (f : Bool) (es more : List Text) (t t' : Option ReadError)
      → resolved (openai_stream reader f es t) ≡ true
      → openai_stream reader f (es ++ more) t' ≡ openai_stream reader f es t
  unfolding openai_stream
  openai_stream-extend f [] more t t' h = cc (ended_early-resolved "OpenAI" t)
  openai_stream-extend f (e ∷ es) more t t' h = elim (Bool-cases (text_eq e done_marker)) [
    | inl d ↦ rw (openai_stream, d) refl
    | inr d ↦ elim (Meaning-cases (openai_meaning reader f e)) [
      | inl m ↦ rw (openai_stream, d, m) refl
      | inr (inl m) ↦
          rw (openai_stream, d, m)
            (openai_stream-extend f es more t t' (rw (openai_stream, d, m) at h))
      | inr (inr (inl (c, m))) ↦
          rw (openai_stream, d, m)
            (ap (spoken reader c) (
              openai_stream-extend f es more t t' (
                sym (spoken-resolved c (openai_stream reader f es t))
                ∙ rw (openai_stream, d, m) at h)))
      | inr (inr (inr (inl (c, m)))) ↦
          rw (openai_stream, d, m)
            (ap (spoken reader c) (
              openai_stream-extend true es more t t' (
                sym (spoken-resolved c (openai_stream reader true es t))
                ∙ rw (openai_stream, d, m) at h)))
      | inr (inr (inr (inr (c, m)))) ↦ rw (openai_stream, d, m) refl
    ]
  ]

  -- The lines hold none that ends the answer.
  abbrev pub IsUnfinished : List Text → Type 0
  IsUnfinished ls = All (λ l. (c : String) → ollama_meaning reader l ≢ says c ends) ls

  ollama_stream-cut :
      (ls : List Text) (t : Option ReadError)
      → IsUnfinished ls
      → resolved (ollama_stream reader ls t) ≡ false
  unfolding ollama_stream
  ollama_stream-cut [] t h = ended_early-resolved "Ollama" t
  ollama_stream-cut (l ∷ ls) t (n, h) = elim (Meaning-cases (ollama_meaning reader l)) [
    | inl m ↦ rw (ollama_stream, m) refl
    | inr (inl m) ↦ rw (ollama_stream, m) (ollama_stream-cut ls t h)
    | inr (inr (inl (c, m))) ↦
        rw (ollama_stream, m) (spoken-resolved c _ ∙ ollama_stream-cut ls t h)
    | inr (inr (inr (inl (c, m)))) ↦ absurd (n c m)
    | inr (inr (inr (inr (c, m)))) ↦ rw (ollama_stream, m) (spoken-resolved c _)
  ]

  -- Whatever OpenAI sends: no empty text is handed on; a stream that is cut off before its end marker does not
  -- resolve; and one that resolves is the same whatever comes after.
  pub openai_stream-ends_well :
      (es more : List Text) (t t' : Option ReadError)
      → let script = openai_stream reader false es t in
        All (λ text. str_eq text "" ≡ false) (texts script)
        × (All (λ e. text_eq e done_marker ≡ false) es → resolved script ≡ false)
        × (resolved script ≡ true → openai_stream reader false (es ++ more) t' ≡ script)
  openai_stream-ends_well es more t t' = (
    openai_stream-texts false es t,
    openai_stream-cut false es t,
    openai_stream-extend false es more t t',
  )

  -- Whatever Ollama sends: no empty text is handed on; a stream that is cut off before a line that ends the
  -- answer does not resolve; and one that resolves is the same whatever comes after.
  pub ollama_stream-ends_well :
      (ls more : List Text) (t t' : Option ReadError)
      → let script = ollama_stream reader ls t in
        All (λ text. str_eq text "" ≡ false) (texts script)
        × (IsUnfinished ls → resolved script ≡ false)
        × (resolved script ≡ true → ollama_stream reader (ls ++ more) t' ≡ script)
  ollama_stream-ends_well ls more t t' =
      (ollama_stream-texts ls t, ollama_stream-cut ls t, ollama_stream-extend ls more t t')
