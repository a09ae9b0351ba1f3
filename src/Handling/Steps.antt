-- ===== src/Handling/Steps.antt =====
-- What a handler does when its first part is known to return or to throw.
use model_mux.Prelude.{◌≡◌, ap}
use model_mux.Errors.{Error}
use model_mux.Circuit.{Completion, returned, threw}
use model_mux.Handling.{Handler, ◌>>=◌, catching, ensuring}

module _ {S T : Type 0} (m : Handler S T) (s : S) {s' : S} where
  pub bind-returned :
      {U : Type 0} {x : T} (f : T → Handler S U) → m s ≡ (returned x, s') → (m >>= f) s ≡ f x s'
  unfolding ◌>>=◌
  bind-returned {U} f h =
      ap
        (λ p. elim p.0 as (λ _. Completion U Error × S) [
          | returned y ↦ f y p.1
          | threw e ↦ (threw e, p.1)
        ])
        h

  pub bind-threw :
      {U : Type 0} {e : Error} (f : T → Handler S U)
      → m s ≡ (threw e, s')
      → (m >>= f) s ≡ (threw e, s')
  unfolding ◌>>=◌
  bind-threw {U} f h =
      ap
        (λ p. elim p.0 as (λ _. Completion U Error × S) [
          | returned y ↦ f y p.1
          | threw e' ↦ (threw e', p.1)
        ])
        h

  pub catching-threw :
      {e : Error} (f : Error → Handler S T) → m s ≡ (threw e, s') → catching m f s ≡ f e s'
  unfolding catching
  catching-threw f h =
      ap
        (λ p. elim p.0 as (λ _. Completion T Error × S) [
          | returned y ↦ (returned y, p.1)
          | threw e' ↦ f e' p.1
        ])
        h

  pub catching-returned :
      {x : T} (f : Error → Handler S T) → m s ≡ (returned x, s') → catching m f s ≡ (returned x, s')
  unfolding catching
  catching-returned f h =
      ap
        (λ p. elim p.0 as (λ _. Completion T Error × S) [
          | returned y ↦ (returned y, p.1)
          | threw e' ↦ f e' p.1
        ])
        h

pub ensuring-same :
    {S T : Type 0} (m k : Handler S T) (f : Error → Handler S T) (d : S → S) (s t : S)
    → m s ≡ k t
    → ensuring (catching m f) d s ≡ ensuring (catching k f) d t
unfolding ensuring catching
ensuring-same {S} {T} m k f d s t h =
    ap
      (λ p.
        let (c, s') = elim p.0 as (λ _. Completion T Error × S) [
          | returned y ↦ (returned y, p.1)
          | threw e' ↦ f e' p.1
        ] in
        (c, d s'))
      h
