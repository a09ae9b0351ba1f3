-- ===== src/Circuit/Reach.antt =====
-- Calls of `execute` (src/providers/circuit-breaker.ts) that overlap: any number of calls are
-- awaited at once, and each may end at any moment. The clock does not run backwards.
use model_mux.Prelude.{
  ℕ, suc, ◌+◌, ◌≤◌, ◌≡◌, refl, ap, subst, ◌≢◌, ◌⊎◌, List, [], ◌∷◌, ◌++◌, arith, ◌==◌, if◌then◌else◌,
  All, All-append, All-append_left, All-append_right, Bool,
}
use model_mux.Prelude.Int.{ℤ, pos, ◌≤ℤ◌, -ℤ_parts}
use model_mux.Circuit.{
  CircuitBreaker, closed, opened, half_open, refused, admitted, admit, Completion, returned, threw,
  settle,
}
use model_mux.Circuit.Laws.{IsValid, admit-IsValid, settle-IsValid}

-- How many of the calls in flight captured generation `g`: their outcome will still count.
abbrev pub current : ℕ → List ℕ → ℕ
current g [] = 0
current g (h ∷ hs) = if h == g then suc (current g hs) else current g hs

current-append : (g : ℕ) (xs ys : List ℕ) → current g (xs ++ ys) ≡ current g xs + current g ys
current-append g [] ys = omega arith
current-append g (x ∷ xs) ys = ground (arith, current-append g xs ys)

abbrev AtMost : ℕ → List ℕ → Type 0
AtMost g = All (λ h. h ≤ g)

AtMost-suc : (g : ℕ) (xs : List ℕ) → AtMost g xs → AtMost (g + 1) xs
AtMost-suc g [] h = tt
AtMost-suc g (x ∷ xs) h = (omega arith, AtMost-suc g xs h.1)

current_fresh : (g : ℕ) (xs : List ℕ) → AtMost g xs → current (g + 1) xs ≡ 0
current_fresh g [] h = refl
current_fresh g (x ∷ xs) h = ground (arith, current_fresh g xs h.1)

-- The circuit, the clock, and the generation captured by each call in flight.
pub record System : Type 0 where
  pub breaker : CircuitBreaker
  pub clock : ℤ
  pub in_flight : List ℕ

module _ (T : Type 0) {E : Type 0} (is_failure is_ignored : E → Bool) where
  pub data Step : System → System → Type 0 where
    enter :
        (s : System) (g : ℕ) (b : CircuitBreaker)
        → admit s.clock s.breaker ≡ admitted g b
        → Step s (record s { breaker = b; in_flight = g ∷ s.in_flight })
    turn_away : (s : System) (ms : ℕ) → admit s.clock s.breaker ≡ refused ms → Step s s
    finish :
        (s : System) (c : Completion T E) (xs : List ℕ) (g : ℕ) (ys : List ℕ)
        → s.in_flight ≡ xs ++ g ∷ ys
        → Step s (record s {
          breaker = settle is_failure is_ignored c g s.clock s.breaker;
          in_flight = xs ++ ys;
        })
    wait : (s : System) (t : ℤ) → s.clock ≤ℤ t → Step s (record s { clock = t })

  pub data Reach (s : System) : System → Type 0 where
    here : Reach s s
    next : {t u : System} → Reach s t → Step t u → Reach s u

pub record Inv (s : System) : Type 0 where
  pub valid : IsValid s.breaker
  pub known : AtMost s.breaker.generation s.in_flight
  pub none_while_open : s.breaker.state ≡ opened → current s.breaker.generation s.in_flight ≡ 0
  pub one_probe : s.breaker.state ≡ half_open → current s.breaker.generation s.in_flight ≡ 1
  pub opened_before : s.breaker.state ≡ opened → s.breaker.opened_at ≤ℤ s.clock

enter-Inv :
    (s : System) (g : ℕ) (b : CircuitBreaker)
    → admit s.clock s.breaker ≡ admitted g b
    → Inv s
    → Inv (record s { breaker = b; in_flight = g ∷ s.in_flight })
unfolding admit
enter-Inv s g b e v = record {
  valid = admit-IsValid s.clock s.breaker e v.valid;
  known = ground arith;
  none_while_open = ground arith;
  one_probe = ground arith;
  opened_before = ground arith;
}

-- A call leaves the list of those in flight: it was counted once if its generation is `g`.
current_remove :
    (g h : ℕ) (xs ys : List ℕ)
    → (h ≡ g → current g (xs ++ h ∷ ys) ≡ current g (xs ++ ys) + 1)
      × (h ≢ g → current g (xs ++ h ∷ ys) ≡ current g (xs ++ ys))
current_remove g h xs ys = (
  λ e. ground (arith, current-append g xs (h ∷ ys), current-append g xs ys),
  λ e. ground (arith, current-append g xs (h ∷ ys), current-append g xs ys),
)

AtMost-remove : (g h : ℕ) (xs ys : List ℕ) → AtMost g (xs ++ h ∷ ys) → AtMost g (xs ++ ys)
AtMost-remove g h xs ys v =
    All-append _ xs ys (All-append_left _ xs (h ∷ ys) v) (All-append_right _ xs (h ∷ ys) v).1

module _ {T E : Type 0} (is_failure is_ignored : E → Bool) (now : ℤ) (b : CircuitBreaker) where
  -- What a settled call may do: nothing; or, if it still counts, move the state.
  settle_moves :
      (c : Completion T E) (g : ℕ)
      → (g ≡ b.generation → b.state ≢ opened)
      → let b' = settle is_failure is_ignored c g now b in
        ((b' ≡ b) × (g ≡ b.generation → b.state ≡ closed))
        ⊎ ((g ≡ b.generation)
            × (b.state ≢ half_open)
            × (b'.state ≡ closed)
            × (b'.generation ≡ b.generation))
        ⊎ ((g ≡ b.generation)
            × (b'.generation ≡ b.generation + 1)
            × (b'.state ≢ half_open)
            × (b'.opened_at ≤ℤ now ⊎ (b'.state ≡ closed)))
  unfolding settle
  settle_moves (returned t) g h = ground arith
  settle_moves (threw e) g h = ground (arith, -ℤ_parts now (pos b.reset_timeout_ms))

-- A call of generation `g` ends in a state that satisfies the invariant.
module _ {T E : Type 0} (is_failure is_ignored : E → Bool) (s : System) (c : Completion T E)
    (xs : List ℕ) (g : ℕ) (ys : List ℕ) (e : s.in_flight ≡ xs ++ g ∷ ys) (v : Inv s) where
  abbrev generation : ℕ
  generation = s.breaker.generation

  left : AtMost generation (xs ++ ys)
  left = AtMost-remove generation g xs ys (subst (AtMost generation) e v.known)

  counts : g ≡ generation → s.breaker.state ≢ opened
  counts p q =
      ground
        (arith, ap (current generation) e, current_remove generation g xs ys, v.none_while_open q)

  finish-Inv : Inv (record s {
    breaker = settle is_failure is_ignored c g s.clock s.breaker;
    in_flight = xs ++ ys;
  })
  finish-Inv =
      let moves = settle_moves is_failure is_ignored s.clock s.breaker c g counts in
      let count = ap (current generation) e in
      let fewer = current_remove generation g xs ys in
      let fresh = current_fresh generation (xs ++ ys) left in
      record {
        valid = settle-IsValid is_failure is_ignored c g s.clock s.breaker v.valid;
        known = ground (arith, moves, left, AtMost-suc generation (xs ++ ys) left);
        none_while_open = ground (arith, moves, count, fewer, fresh);
        one_probe = ground (arith, moves, count, fewer, fresh);
        opened_before = ground (arith, moves);
      }

  -- Unless the circuit is closed, only the probe's end moves it.
  pub finish_not_closed :
      s.breaker.state ≢ closed
      → let b = settle is_failure is_ignored c g s.clock s.breaker in
        ((b ≡ s.breaker) × (current generation (xs ++ ys) ≡ current generation s.in_flight))
        ⊎ ((s.breaker.state ≡ half_open)
            × (b.state ≢ half_open)
            × (current b.generation (xs ++ ys) ≡ 0))
  finish_not_closed q =
      let moves = settle_moves is_failure is_ignored s.clock s.breaker c g counts in
      let count = ap (current generation) e in
      let fewer = current_remove generation g xs ys in
      let fresh = current_fresh generation (xs ++ ys) left in
      ground (arith, moves, count, fewer, fresh, v.one_probe, v.none_while_open)

module _ {T E : Type 0} (is_failure is_ignored : E → Bool) where
  pub Step-Inv : {s t : System} → Step T is_failure is_ignored s t → Inv s → Inv t
  Step-Inv (enter s g b e) v = enter-Inv s g b e v
  Step-Inv (turn_away s ms e) v = v
  Step-Inv (finish s c xs g ys e) v = finish-Inv is_failure is_ignored s c xs g ys e v
  Step-Inv (wait s t h) v = record {
    valid = v.valid;
    known = v.known;
    none_while_open = v.none_while_open;
    one_probe = v.one_probe;
    opened_before = λ q. omega (arith, v.opened_before q);
  }

  pub Reach-Inv : {s t : System} → Inv s → Reach T is_failure is_ignored s t → Inv t
  Reach-Inv v here = v
  Reach-Inv v (next r st) = Step-Inv st (Reach-Inv v r)
