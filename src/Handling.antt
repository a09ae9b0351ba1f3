-- ===== src/Handling.antt =====
-- Asynchronous handlers of the gateway as state passing: `await`, `throw`, `try`, `catch` and `finally` of the
-- methods in src/routes and src/cache.
--
-- A handler is a function of a state, which holds what the code can see and change while it runs: its
-- local variables, the world outside and the effects so far. The state is kept when an error is thrown.
pub mod Triples
pub mod Relations
pub mod Steps
use model_mux.Prelude.{Bool, true, false, if◌then◌else◌}
use model_mux.Errors.{Error}
use model_mux.Circuit.{Completion, returned, threw}

abbrev pub Handler : Type 0 → Type 0 → Type 0
Handler S T = S → Completion T Error × S

module _ {S : Type 0} where
  abbrev pub pure : {T : Type 0} → T → Handler S T
  pure x s = (returned x, s)

  abbrev pub raise : {T : Type 0} → Error → Handler S T
  raise e s = (threw e, s)

  abbrev pub gets : {T : Type 0} → (S → T) → Handler S T
  gets f s = (returned (f s), s)

  abbrev pub modify : (S → S) → Handler S (Unit {0})
  modify f s = (returned tt, f s)

  infixl 5 ◌>>=◌ ◌>>◌
  unfoldable pub ◌>>=◌ : {T U : Type 0} → Handler S T → (T → Handler S U) → Handler S U
  ◌>>=◌ m f s = let (c, s') = m s in elim c [ returned x ↦ f x s' | threw e ↦ (threw e, s') ]

  abbrev pub ◌>>◌ : {T U : Type 0} → Handler S T → Handler S U → Handler S U
  m >> k = m >>= λ _. k

  -- `try { m } catch (e) { h e }`.
  unfoldable pub catching : {T : Type 0} → Handler S T → (Error → Handler S T) → Handler S T
  catching m h s = let (c, s') = m s in elim c [ returned x ↦ (returned x, s') | threw e ↦ h e s' ]

  -- `try { m } finally { f }`, where `f` does not throw.
  unfoldable pub ensuring : {T : Type 0} → Handler S T → (S → S) → Handler S T
  ensuring m f s = let (c, s') = m s in (c, f s')

  abbrev pub either : {T : Type 0} → Bool → Handler S T → Handler S T → Handler S T
  either b m k s = elim b [ true ↦ m s | false ↦ k s ]
