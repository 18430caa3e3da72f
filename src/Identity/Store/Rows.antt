-- ===== src/Identity/Store/Rows.antt =====
-- Which row a lookup finds after an insertion or a deletion.
use go_fintech_microservices.Prelude.{
  arith, Bool-cases, inl, inr, ◌≡◌, refl, Bool, true, false, not, ◌||◌, List, [], ◌∷◌, ◌++◌, none,
  some, any, filter,
}
use go_fintech_microservices.Identity.Domain.{User, RefreshToken}
use go_fintech_microservices.Identity.Store.{
  IdentityTables, find_row, has_id, user_clashes, token_clashes, with_user, with_token, insert_user,
  insert_token,
}

module _ {A : Type 0} (p : A → Bool) where
  pub find_row-any : (xs : List A) → any p xs ≡ false → find_row p xs ≡ none
  find_row-any [] h = refl
  find_row-any (x ∷ xs) h = ground (arith, find_row-any xs)

  pub any-find_row : (xs : List A) → find_row p xs ≡ none → any p xs ≡ false
  any-find_row [] h = refl
  any-find_row (x ∷ xs) h = ground (arith, any-find_row xs)

  pub find_row-any-true : (xs : List A) (x : A) → find_row p xs ≡ some x → any p xs ≡ true
  find_row-any-true [] x h = ground arith
  find_row-any-true (y ∷ xs) x h = ground (arith, find_row-any-true xs x)

  pub find_row-append_new :
      (xs : List A) (x : A) → find_row p xs ≡ none → p x ≡ true → find_row p (xs ++ x ∷ []) ≡ some x
  find_row-append_new [] x h e = ground arith
  find_row-append_new (y ∷ xs) x h e = ground (arith, find_row-append_new xs x)

  pub find_row-append_other :
      (xs : List A) (x : A) → p x ≡ false → find_row p (xs ++ x ∷ []) ≡ find_row p xs
  find_row-append_other [] x e = ground arith
  find_row-append_other (y ∷ xs) x e = ground (arith, find_row-append_other xs x)

  pub find_row-without : (xs : List A) → find_row p (filter (λ x. not (p x)) xs) ≡ none
  find_row-without [] = refl
  find_row-without (x ∷ xs) = ground (arith, find_row-without xs)

  pub find_row-filter-none :
      (q : A → Bool) (xs : List A) → find_row p xs ≡ none → find_row p (filter q xs) ≡ none
  find_row-filter-none q [] h = refl
  find_row-filter-none q (x ∷ xs) h = ground (arith, find_row-filter-none q xs)

  pub find_row-test : (xs : List A) (x : A) → find_row p xs ≡ some x → p x ≡ true
  find_row-test [] x h = ground arith
  find_row-test (y ∷ xs) x h = ground (arith, find_row-test xs x)

module _ {A : Type 0} (p q : A → Bool) where
  pub any-or :
      (xs : List A) → find_row p xs ≡ none → find_row q xs ≡ none → any (λ x. p x || q x) xs ≡ false
  any-or [] h k = refl
  any-or (x ∷ xs) h k = ground (arith, any-or xs)

  pub find_row-none_right : (xs : List A) → any (λ x. p x || q x) xs ≡ false → find_row q xs ≡ none
  find_row-none_right [] h = refl
  find_row-none_right (x ∷ xs) h = ground (arith, find_row-none_right xs)

pub insert_user-eq :
    (user : User) (t t' : IdentityTables)
    → insert_user user t ≡ some t'
    → (any (user_clashes user) t.users ≡ false) × (t' ≡ with_user user t)
unfolding insert_user
insert_user-eq user t t' h = elim (Bool-cases (any (user_clashes user) t.users)) [
  | inl e ↦ ground arith
  | inr e ↦ (e, ground arith)
]

-- What an insertion of a token tests.
abbrev pub refused_token : RefreshToken → IdentityTables → Bool
refused_token token t =
    any (token_clashes token) t.refresh_tokens || not (any (has_id token.user_id) t.users)

pub insert_token-eq :
    (token : RefreshToken) (t t' : IdentityTables)
    → insert_token token t ≡ some t'
    → (refused_token token t ≡ false) × (t' ≡ with_token token t)
unfolding insert_token
insert_token-eq token t t' h = elim (Bool-cases (refused_token token t)) [
  | inl e ↦ ground arith
  | inr e ↦ (e, ground arith)
]
