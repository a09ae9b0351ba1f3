-- ===== src/Handling/Triples.antt =====
-- What holds before and after a handler, by its parts.
use model_mux.Prelude.{◌≡◌, refl, Bool, true, false, if◌then◌else◌}
use model_mux.Errors.{Error}
use model_mux.Circuit.{Completion, returned, threw}
use model_mux.Handling.{Handler, ◌>>=◌, catching, ensuring, either, raise, pure, modify, gets}

module _ {S T : Type 0} (Q : T → S → Type 0) (R : Error → S → Type 0) where
  -- `Q` holds of a returned value, and `R` of a thrown error.
  abbrev pub Ends : Completion T Error → S → Type 0
  Ends (returned x) s = Q x s
  Ends (threw e) s = R e s

pub Ends-if :
    {S T : Type 0} (Q : T → S → Type 0) (R : Error → S → Type 0) (b : Bool)
    (p q : Completion T Error × S)
    → (b ≡ true → Ends Q R p.0 p.1)
    → (b ≡ false → Ends Q R q.0 q.1)
    → Ends Q R (if b then p else q).0 (if b then p else q).1
Ends-if Q R true p q hp hq = hp refl
Ends-if Q R false p q hp hq = hq refl

pub Ends-both :
    {S T : Type 0} (P : S → Type 0) (c : Completion T Error) (s : S)
    → P s
    → Ends (λ (_ : T). P) (λ _. P) c s
Ends-both P (returned x) s h = h
Ends-both P (threw e) s h = h

-- From a state in `P` the handler ends in `Q` or, with an error, in `R`.
pub record Triple {S T : Type 0} (P : S → Type 0) (m : Handler S T) (Q : T → S → Type 0)
    (R : Error → S → Type 0) : Type 0 where
  pub runs : (s : S) → P s → Ends Q R (m s).0 (m s).1

module _ {S T U : Type 0} where
  Ends-bind :
      (R : Error → S → Type 0) (Q : T → S → Type 0) (Q' : U → S → Type 0) (f : T → Handler S U)
      → ((x : T) → Triple (Q x) (f x) Q' R)
      → (c : Completion T Error) (s : S) → Ends Q R c s
      → Ends Q' R
          (elim c as (λ _. Completion U Error × S) [
            | returned x ↦ f x s
            | threw e ↦ (threw e, s)
          ]).0
          (elim c as (λ _. Completion U Error × S) [
            | returned x ↦ f x s
            | threw e ↦ (threw e, s)
          ]).1
  Ends-bind R Q Q' f hf (returned x) s h = (hf x).runs s h
  Ends-bind R Q Q' f hf (threw e) s h = h

module _ {S T : Type 0} where
  Ends-catching :
      (Q : T → S → Type 0) (R R' : Error → S → Type 0) (f : Error → Handler S T)
      → ((e : Error) → Triple (R e) (f e) Q R')
      → (c : Completion T Error) (s : S) → Ends Q R c s
      → Ends Q R'
          (elim c as (λ _. Completion T Error × S) [
            | returned x ↦ (returned x, s)
            | threw e ↦ f e s
          ]).0
          (elim c as (λ _. Completion T Error × S) [
            | returned x ↦ (returned x, s)
            | threw e ↦ f e s
          ]).1
  Ends-catching Q R R' f hf (returned x) s h = h
  Ends-catching Q R R' f hf (threw e) s h = (hf e).runs s h

  Ends-ensuring :
      (Q Q' : T → S → Type 0) (R R' : Error → S → Type 0) (f : S → S)
      → ((x : T) (s : S) → Q x s → Q' x (f s))
      → ((e : Error) (s : S) → R e s → R' e (f s))
      → (c : Completion T Error) (s : S) → Ends Q R c s
      → Ends Q' R' c (f s)
  Ends-ensuring Q Q' R R' f hq hr (returned x) s h = hq x s h
  Ends-ensuring Q Q' R R' f hq hr (threw e) s h = hr e s h

  Ends-weaker :
      (Q Q' : T → S → Type 0) (R R' : Error → S → Type 0)
      → ((x : T) (s : S) → Q x s → Q' x s)
      → ((e : Error) (s : S) → R e s → R' e s)
      → (c : Completion T Error) (s : S) → Ends Q R c s
      → Ends Q' R' c s
  Ends-weaker Q Q' R R' hq hr (returned x) s h = hq x s h
  Ends-weaker Q Q' R R' hq hr (threw e) s h = hr e s h

module _ {S : Type 0} {T U : Type 0} {P : S → Type 0} {R : Error → S → Type 0} where
  pub bind-Triple :
      {Q : T → S → Type 0} {Q' : U → S → Type 0} {m : Handler S T} {f : T → Handler S U}
      → Triple P m Q R
      → ((x : T) → Triple (Q x) (f x) Q' R)
      → Triple P (m >>= f) Q' R
  unfolding ◌>>=◌
  bind-Triple {Q} {Q'} {m} {f} hm hf = record {
    runs = λ s h. Ends-bind R Q Q' f hf (m s).0 (m s).1 (hm.runs s h);
  }

module _ {S : Type 0} {T : Type 0} {P : S → Type 0} where
  pub catching-Triple :
      {Q : T → S → Type 0} {R R' : Error → S → Type 0} {m : Handler S T} {f : Error → Handler S T}
      → Triple P m Q R
      → ((e : Error) → Triple (R e) (f e) Q R')
      → Triple P (catching m f) Q R'
  unfolding catching
  catching-Triple {Q} {R} {R'} {m} {f} hm hf = record {
    runs = λ s h. Ends-catching Q R R' f hf (m s).0 (m s).1 (hm.runs s h);
  }

  pub ensuring-Triple :
      {Q Q' : T → S → Type 0} {R R' : Error → S → Type 0} {m : Handler S T} (f : S → S)
      → Triple P m Q R
      → ((x : T) (s : S) → Q x s → Q' x (f s))
      → ((e : Error) (s : S) → R e s → R' e (f s))
      → Triple P (ensuring m f) Q' R'
  unfolding ensuring
  ensuring-Triple {Q} {Q'} {R} {R'} {m} f hm hq hr = record {
    runs = λ s h. Ends-ensuring Q Q' R R' f hq hr (m s).0 (m s).1 (hm.runs s h);
  }

  pub weaker-Triple :
      {P' : S → Type 0} {Q Q' : T → S → Type 0} {R R' : Error → S → Type 0} {m : Handler S T}
      → Triple P' m Q R
      → ((s : S) → P s → P' s)
      → ((x : T) (s : S) → Q x s → Q' x s)
      → ((e : Error) (s : S) → R e s → R' e s)
      → Triple P m Q' R'
  weaker-Triple {P'} {Q} {Q'} {R} {R'} {m} hm hp hq hr = record {
    runs = λ s h. Ends-weaker Q Q' R R' hq hr (m s).0 (m s).1 (hm.runs s (hp s h));
  }

  pub either-Triple :
      {Q : T → S → Type 0} {R : Error → S → Type 0} {m k : Handler S T} (b : Bool)
      → (b ≡ true → Triple P m Q R)
      → (b ≡ false → Triple P k Q R)
      → Triple P (either b m k) Q R
  either-Triple true hm hk = record { runs = λ s h. (hm refl).runs s h }
  either-Triple false hm hk = record { runs = λ s h. (hk refl).runs s h }

  pub pure-Triple :
      {Q : T → S → Type 0} {R : Error → S → Type 0} (x : T)
      → ((s : S) → P s → Q x s)
      → Triple P (pure x) Q R
  pure-Triple x h = record { runs = h }

  pub raise-Triple :
      {Q : T → S → Type 0} {R : Error → S → Type 0} (e : Error)
      → ((s : S) → P s → R e s)
      → Triple P (raise e) Q R
  raise-Triple e h = record { runs = h }

  pub gets-Triple :
      {Q : T → S → Type 0} {R : Error → S → Type 0} {f : S → T}
      → ((s : S) → P s → Q (f s) s)
      → Triple P (gets f) Q R
  gets-Triple h = record { runs = h }

module _ {S : Type 0} {P : S → Type 0} {R : Error → S → Type 0} where
  pub modify-Triple :
      {Q : Unit {0} → S → Type 0} {f : S → S}
      → ((s : S) → P s → Q tt (f s))
      → Triple P (modify f) Q R
  modify-Triple h = record { runs = h }
