-- ===== src/Auth/Bearer.antt =====
-- The form of an authorization header that `parseBearerToken` of src/auth/api-keys.ts takes.
use model_mux.Prelude.{
  ℕ, ◌+◌, ◌≡◌, refl, sym, ap, subst, ◌∙◌, ◌↔◌, inl, inr, true, false, [], ◌∷◌, ◌++◌, some, arith,
  Bool-cases, Option-cases, ◌⊎◌, All,
}
use model_mux.Streaming.{Text}
use model_mux.Auth.{
  is_space, is_letter, after_word, drop_spaces, has_space, bearer, whole_token, after_spaces,
  parse_bearer_token,
}

-- The text is the word of the small ASCII letters `ls`, each of them small or capital; a capital stands 32
-- before its small letter.
pub IsWord : Text → Text → Type 0
IsWord [] [] = Unit
IsWord [] (c ∷ cs) = ⊥
IsWord (l ∷ ls) [] = ⊥
IsWord (l ∷ ls) (c ∷ cs) = ((c ≡ l) ⊎ (c + 32 ≡ l)) × IsWord ls cs

-- The header is the word "Bearer" in any case, white space, and the token.
pub record IsHeader (header token : Text) : Type 0 where
  pub word : Text
  pub space : ℕ
  pub gap : Text
  pub parts : header ≡ word ++ space ∷ (gap ++ token)
  pub is_word : IsWord (98 ∷ 101 ∷ 97 ∷ 114 ∷ 101 ∷ 114 ∷ []) word
  pub is_blank : is_space space ≡ true
  pub is_gap : All (λ c. is_space c ≡ true) gap
  pub is_token : All (λ c. is_space c ≡ false) token
  pub head : ℕ
  pub tail : Text
  pub is_some : token ≡ head ∷ tail

after_word-append :
    (ls word rest : Text) → IsWord ls word → after_word ls (word ++ rest) ≡ some rest
unfolding after_word IsWord
after_word-append [] [] rest h = refl
after_word-append [] (c ∷ cs) rest h = absurd h
after_word-append (l ∷ ls) [] rest h = absurd h
after_word-append (l ∷ ls) (c ∷ cs) rest h =
    let same : is_letter l c ≡ true = ground (arith, h.0) in
    rw (same, after_word) (after_word-append ls cs rest h.1)

after_word-split :
    (ls text rest : Text)
    → after_word ls text ≡ some rest
    → (word : Text) × (text ≡ word ++ rest) × IsWord ls word
unfolding after_word IsWord
after_word-split [] text rest h = ([], cc, tt)
after_word-split (l ∷ ls) [] rest h = ground arith
after_word-split (l ∷ ls) (c ∷ cs) rest h = elim (Bool-cases (is_letter l c)) [
  | inl e ↦
      let (word, t, w) = after_word-split ls cs rest (ground arith) in
      (c ∷ word, ap (λ x. c ∷ x) t, (ground (arith, e), w))
  | inr e ↦ ground arith
]

drop_spaces-append :
    (gap token : Text)
    → All (λ c. is_space c ≡ true) gap
    → drop_spaces (gap ++ token) ≡ drop_spaces token
unfolding drop_spaces
drop_spaces-append [] token h = refl
drop_spaces-append (c ∷ cs) token h = rw (h.0, drop_spaces) (drop_spaces-append cs token h.1)

drop_spaces-split :
    (text : Text)
    → (gap : Text) × (text ≡ gap ++ drop_spaces text) × All (λ c. is_space c ≡ true) gap
unfolding drop_spaces
drop_spaces-split [] = ([], refl, tt)
drop_spaces-split (c ∷ cs) = elim (Bool-cases (is_space c)) [
  | inl e ↦
      let (gap, t, g) = drop_spaces-split cs in
      (c ∷ gap, rw (e, drop_spaces) (ap (λ x. c ∷ x) t), (e, g))
  | inr e ↦ ([], rw (e, drop_spaces) refl, tt)
]

has_space-All : (text : Text) → All (λ c. is_space c ≡ false) text → has_space text ≡ false
unfolding has_space
has_space-All [] h = refl
has_space-All (c ∷ cs) h = rw (h.0, has_space) (has_space-All cs h.1)

All-has_space : (text : Text) → has_space text ≡ false → All (λ c. is_space c ≡ false) text
unfolding has_space
All-has_space [] h = tt
All-has_space (c ∷ cs) h = elim (Bool-cases (is_space c)) [
  | inl e ↦ absurd (ground (arith, e, h))
  | inr e ↦ (e, All-has_space cs (ground (arith, e, h)))
]

drop_spaces-token : (c : ℕ) (cs : Text) → is_space c ≡ false → drop_spaces (c ∷ cs) ≡ c ∷ cs
unfolding drop_spaces
drop_spaces-token c cs h = rw (h, drop_spaces) refl

whole_token-token :
    (token : Text) (c : ℕ) (cs : Text)
    → token ≡ c ∷ cs
    → has_space token ≡ false
    → whole_token token ≡ some token
unfolding whole_token
whole_token-token token c cs e h =
    let h' : has_space (c ∷ cs) ≡ false = subst (λ x. has_space x ≡ false) e h in rw (e, h') refl

header_taken :
    (header token : Text) → IsHeader header token → parse_bearer_token (some header) ≡ some token
unfolding parse_bearer_token after_spaces
header_taken header token h =
    let whole = whole_token-token token h.head h.tail h.is_some (has_space-All token h.is_token) in
    let clean : is_space h.head ≡ false =
      (subst (All (λ c. is_space c ≡ false)) h.is_some h.is_token).0 in
    let stays : drop_spaces token ≡ token =
      subst (λ x. drop_spaces x ≡ x) (sym h.is_some) (drop_spaces-token h.head h.tail clean) in
    rw
      (
        h.parts,
        after_word-append bearer h.word (h.space ∷ (h.gap ++ token)) h.is_word,
        h.is_blank,
        drop_spaces-append h.gap token h.is_gap,
        stays,
      )
      whole

whole_token-some :
    (text token : Text)
    → whole_token text ≡ some token
    → (text ≡ token) × (has_space token ≡ false) × (c : ℕ) × (cs : Text) × (token ≡ c ∷ cs)
unfolding whole_token
whole_token-some [] token h = cc
whole_token-some (c ∷ cs) token h = elim (Bool-cases (has_space (c ∷ cs))) [
  | inl e ↦ ground arith
  | inr e ↦
      let t : c ∷ cs ≡ token = ground arith in
      (t, subst (λ x. has_space x ≡ false) t e, c, cs, sym t)
]

after_spaces-some :
    (text token : Text)
    → after_spaces text ≡ some token
    → (c : ℕ) × (cs : Text) × (text ≡ c ∷ cs)
      × (is_space c ≡ true)
      × (whole_token (drop_spaces cs) ≡ some token)
unfolding after_spaces
after_spaces-some [] token h = cc
after_spaces-some (c ∷ cs) token h = elim (Bool-cases (is_space c)) [
  | inl e ↦ (c, cs, refl, e, ground arith)
  | inr e ↦ ground arith
]

token_headed :
    (header token : Text) → parse_bearer_token (some header) ≡ some token → IsHeader header token
unfolding parse_bearer_token
token_headed header token h = elim (Option-cases (after_word bearer header)) [
  | inl e ↦ ground arith
  | inr (rest, e) ↦
      let (word, t, w) = after_word-split bearer header rest e in
      let (c, cs, r, is_s, k) = after_spaces-some rest token (ground arith) in
      let (gap, parts, g) = drop_spaces-split cs in
      let (whole, clean, d, ds, n) = whole_token-some (drop_spaces cs) token k in
      record {
        word = word;
        space = c;
        gap = gap;
        parts = t ∙ ap (λ x. word ++ x) (r ∙ ap (λ x. c ∷ x) (parts ∙ ap (λ x. gap ++ x) whole));
        is_word = w;
        is_blank = is_s;
        is_gap = g;
        is_token = All-has_space token clean;
        head = d;
        tail = ds;
        is_some = n;
      }
]

-- The parser takes a header for a token exactly when the header is the word "Bearer" in any case, then
-- white space, then the token, which is not empty and has no white space.
pub parse_bearer_token-IsHeader :
    (header token : Text) → IsHeader header token ↔ (parse_bearer_token (some header) ≡ some token)
parse_bearer_token-IsHeader header token = (header_taken header token, token_headed header token)
