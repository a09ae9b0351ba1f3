-- ===== src/Handling/Relations.antt =====
-- Two handlers that end alike from states that are alike.
use model_mux.Prelude.{◌≡◌, refl, sym}
use model_mux.Errors.{Error}
use model_mux.Circuit.{Completion, returned, threw}
use model_mux.Handling.{Handler, ◌>>=◌, catching, ensuring, pure, modify}

module _ {S : Type 0} (R : S → S → Type 0) where
  -- The results are equal and the states are related again.
  pub record Alike {T : Type 0} (m k : Handler S T) : Type 0 where
    pub runs : (s s' : S) → R s s' → ((m s).0 ≡ (k s').0) × R (m s).1 (k s').1

  after_bind :
      {T U : Type 0} (f h : T → Handler S U) (alike : (x : T) → Alike (f x) (h x))
      (c c' : Completion T Error) (s s' : S)
      → c ≡ c'
      → R s s'
      → let a = elim c as (λ _. Completion U Error × S) [
        | returned x ↦ f x s
        | threw e ↦ (threw e, s)
      ] in
        let b = elim c' as (λ _. Completion U Error × S) [
          | returned x ↦ h x s'
          | threw e ↦ (threw e, s')
        ] in
        (a.0 ≡ b.0) × R a.1 b.1
  after_bind f h alike (returned x) c' s s' e r = rw (sym e) ((alike x).runs s s' r)
  after_bind f h alike (threw x) c' s s' e r = rw (sym e) (refl, r)

  pub bind-Alike :
      {T U : Type 0} {m k : Handler S T} {f h : T → Handler S U}
      → Alike m k
      → ((x : T) → Alike (f x) (h x))
      → Alike (m >>= f) (k >>= h)
  unfolding ◌>>=◌
  bind-Alike {m} {k} {f} {h} first later = record {
    runs = λ s s' r.
        let (e, r') = first.runs s s' r in
        after_bind f h later (m s).0 (k s').0 (m s).1 (k s').1 e r';
  }

  after_catch :
      {T : Type 0} (f h : Error → Handler S T) (alike : (x : Error) → Alike (f x) (h x))
      (c c' : Completion T Error) (s s' : S)
      → c ≡ c'
      → R s s'
      → let a = elim c as (λ _. Completion T Error × S) [
        | returned x ↦ (returned x, s)
        | threw e ↦ f e s
      ] in
        let b = elim c' as (λ _. Completion T Error × S) [
          | returned x ↦ (returned x, s')
          | threw e ↦ h e s'
        ] in
        (a.0 ≡ b.0) × R a.1 b.1
  after_catch f h alike (returned x) c' s s' e r = rw (sym e) (refl, r)
  after_catch f h alike (threw x) c' s s' e r = rw (sym e) ((alike x).runs s s' r)

  pub catching-Alike :
      {T : Type 0} {m k : Handler S T} {f h : Error → Handler S T}
      → Alike m k
      → ((x : Error) → Alike (f x) (h x))
      → Alike (catching m f) (catching k h)
  unfolding catching
  catching-Alike {m} {k} {f} {h} first later = record {
    runs = λ s s' r.
        let (e, r') = first.runs s s' r in
        after_catch f h later (m s).0 (k s').0 (m s).1 (k s').1 e r';
  }

  pub ensuring-Alike :
      {T : Type 0} {m k : Handler S T} (f h : S → S)
      → Alike m k
      → ((s s' : S) → R s s' → R (f s) (h s'))
      → Alike (ensuring m f) (ensuring k h)
  unfolding ensuring
  ensuring-Alike f h first last = record {
    runs = λ s s' r. let (e, r') = first.runs s s' r in (e, last _ _ r');
  }

  pub pure-Alike : {T : Type 0} (x : T) → Alike (pure x) (pure x)
  pure-Alike x = record { runs = λ s s' r. (refl, r) }

  pub modify-Alike :
      {f h : S → S} → ((s s' : S) → R s s' → R (f s) (h s')) → Alike (modify f) (modify h)
  modify-Alike g = record { runs = λ s s' r. (refl, g s s' r) }
