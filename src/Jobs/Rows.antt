-- ===== src/Jobs/Rows.antt =====
-- What a SELECT, an UPDATE or a DELETE of src/queue/postgres-job-store.ts leaves true of the rows.
use model_mux.Prelude.{
  ◌≡◌, refl, Bool, true, false, List, [], ◌∷◌, none, some, arith, All, Bool-cases, subst, sym, inl,
  inr,
}
use mathlib.Core.List.{Memᴰ}
use mathlib.Core.List.Memᴰ.{head, tail}
use model_mux.Jobs.{JobRow}
use model_mux.Jobs.Table.{find_row, update_where, delete_where}

module _ {D R : Type 0} where
  pub All-update_where :
      (P : JobRow D R → Type 0) (p : JobRow D R → Bool) (f : JobRow D R → JobRow D R)
      (rows : List (JobRow D R))
      → ((r : JobRow D R) → p r ≡ true → P r → P (f r))
      → All P rows
      → All P (update_where p f rows)
  unfolding update_where
  All-update_where P p f [] h a = tt
  All-update_where P p f (r ∷ rows) h a = ground (arith, h r, All-update_where P p f rows h a.1)

  -- The rows that an UPDATE passes over have failed its test.
  pub All-split :
      (P Q : JobRow D R → Type 0) (p : JobRow D R → Bool) (f : JobRow D R → JobRow D R)
      (rows : List (JobRow D R))
      → ((r : JobRow D R) → p r ≡ true → P r → Q (f r))
      → ((r : JobRow D R) → p r ≡ false → P r → Q r)
      → All P rows
      → All Q (update_where p f rows)
  unfolding update_where
  All-split P Q p f [] h k a = tt
  All-split P Q p f (r ∷ rows) h k a = elim (Bool-cases (p r)) [
    | inl e ↦ rw e (h r e a.0, All-split P Q p f rows h k a.1)
    | inr e ↦ rw e (k r e a.0, All-split P Q p f rows h k a.1)
  ]

  pub All-delete_where :
      (P : JobRow D R → Type 0) (p : JobRow D R → Bool) (rows : List (JobRow D R))
      → All P rows
      → All P (delete_where p rows)
  unfolding delete_where
  All-delete_where P p [] a = tt
  All-delete_where P p (r ∷ rows) a = ground (arith, All-delete_where P p rows a.1)

  pub find_row_sound :
      (p : JobRow D R → Bool) (rows : List (JobRow D R)) (r : JobRow D R)
      → find_row p rows ≡ some r
      → p r ≡ true
  unfolding find_row
  find_row_sound p [] r e = cc
  find_row_sound p (x ∷ rows) r e = ground (arith, find_row_sound p rows r)

  -- A property of every row holds of the row that is found.
  pub find_row-All :
      (P : JobRow D R → Type 0) (p : JobRow D R → Bool) (rows : List (JobRow D R)) (r : JobRow D R)
      → find_row p rows ≡ some r
      → All P rows
      → P r
  unfolding find_row
  find_row-All P p [] r e a = cc
  find_row-All P p (x ∷ rows) r e a = elim (Bool-cases (p x)) [
    | inl h ↦ let same : x ≡ r = ground arith in subst P same a.0
    | inr h ↦ find_row-All P p rows r (ground arith) a.1
  ]

  -- The row that is found is a row of the table.
  pub find_row-Mem :
      (p : JobRow D R → Bool) (rows : List (JobRow D R)) (r : JobRow D R)
      → find_row p rows ≡ some r
      → Memᴰ r rows
  unfolding find_row
  find_row-Mem p [] r e = cc
  find_row-Mem p (x ∷ rows) r e = elim (Bool-cases (p x)) [
    | inl h ↦ let same : x ≡ r = ground arith in head (sym same)
    | inr h ↦ tail (find_row-Mem p rows r (ground arith))
  ]

  pub find_row-none :
      (p : JobRow D R → Bool) (rows : List (JobRow D R))
      → All (λ r. p r ≡ false) rows
      → find_row p rows ≡ none
  unfolding find_row
  find_row-none p [] a = refl
  find_row-none p (x ∷ rows) a = ground (arith, find_row-none p rows a.1)

  pub update_where-none :
      (p : JobRow D R → Bool) (f : JobRow D R → JobRow D R) (rows : List (JobRow D R))
      → All (λ r. p r ≡ false) rows
      → update_where p f rows ≡ rows
  unfolding update_where
  update_where-none p f [] a = refl
  update_where-none p f (x ∷ rows) a = ground (arith, update_where-none p f rows a.1)

  -- An UPDATE that keeps what a test reads does not change which row the test finds first.
  pub find_row-update_where :
      (q p : JobRow D R → Bool) (f : JobRow D R → JobRow D R) (rows : List (JobRow D R))
      → ((r : JobRow D R) → q (f r) ≡ q r)
      → find_row q rows ≡ none
      → find_row q (update_where p f rows) ≡ none
  unfolding find_row update_where
  find_row-update_where q p f [] k e = refl
  find_row-update_where q p f (x ∷ rows) k e =
      ground (arith, k x, find_row-update_where q p f rows k)

  pub find_row-delete_where :
      (q p : JobRow D R → Bool) (rows : List (JobRow D R))
      → find_row q rows ≡ none
      → find_row q (delete_where p rows) ≡ none
  unfolding find_row delete_where
  find_row-delete_where q p [] e = refl
  find_row-delete_where q p (x ∷ rows) e = ground (arith, find_row-delete_where q p rows)
