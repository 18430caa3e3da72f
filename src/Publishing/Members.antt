-- ===== src/Publishing/Members.antt =====
-- Members of lists.
use go_fintech_microservices.Prelude.{
  arith, ◌≡◌, refl, ap, ◌∙◌, ◌⊎◌, inl, inr, Bool, true, false, Bool-cases, ℕ, List, [], ◌∷◌, ◌++◌,
  any, filter, take, map, if◌then◌else◌,
}
use mathlib.Core.Path.{subst}
use Prim.Native.Nat.{zero, suc}

-- Membership; it computes to a sum of equations.
abbrev pub In : {A : Type 0} → A → List A → Type 0
In x [] = ⊥
In x (y ∷ ys) = (x ≡ y) ⊎ In x ys

pub In-append_left : {A : Type 0} (x : A) (xs ys : List A) → In x xs → In x (xs ++ ys)
In-append_left x [] ys m = absurd m
In-append_left x (y ∷ xs) ys (inl e) = inl e
In-append_left x (y ∷ xs) ys (inr m) = inr (In-append_left x xs ys m)

pub In-append_right : {A : Type 0} (x : A) (xs ys : List A) → In x ys → In x (xs ++ ys)
In-append_right x [] ys m = m
In-append_right x (y ∷ xs) ys m = inr (In-append_right x xs ys m)

pub In-take : {A : Type 0} (k : ℕ) (x : A) (xs : List A) → In x (take k xs) → In x xs
In-take zero x xs m = absurd m
In-take (suc k) x [] m = absurd m
In-take (suc k) x (y ∷ xs) (inl e) = inl e
In-take (suc k) x (y ∷ xs) (inr m) = inr (In-take k x xs m)

pub In-filter : {A : Type 0} (p : A → Bool) (x : A) (xs : List A) → In x (filter p xs) → In x xs
In-filter p x [] m = absurd m
In-filter p x (y ∷ xs) m = elim (Bool-cases (p y)) [
  | inl e ↦
      let kept : filter p (y ∷ xs) ≡ y ∷ filter p xs = rw e refl in
      elim (subst (In x) kept m) [ inl same ↦ inl same | inr rest ↦ inr (In-filter p x xs rest) ]
  | inr e ↦
      let left : filter p (y ∷ xs) ≡ filter p xs = rw e refl in
      inr (In-filter p x xs (subst (In x) left m))
]

-- What stands in a mapped list comes from a member.
pub In-map :
    {A B : Type 0} (f : A → B) (y : B) (xs : List A)
    → In y (map f xs)
    → (x : A) × In x xs × (y ≡ f x)
In-map f y [] m = absurd m
In-map f y (x ∷ xs) (inl e) = (x, inl refl, e)
In-map f y (x ∷ xs) (inr m) = let (z, i, e) = In-map f y xs m in (z, inr i, e)

pub In-append : {A : Type 0} (x : A) (xs ys : List A) → In x (xs ++ ys) → In x xs ⊎ In x ys
In-append x [] ys m = inr m
In-append x (y ∷ xs) ys (inl e) = inl (inl e)
In-append x (y ∷ xs) ys (inr m) = elim (In-append x xs ys m) [ inl i ↦ inl (inr i) | inr i ↦ inr i ]

pub In-if :
    {A : Type 0} (b : Bool) (x : A) (xs ys : List A)
    → In x (if b then xs else ys)
    → In x xs ⊎ In x ys
In-if true x xs ys m = inl m
In-if false x xs ys m = inr m

-- No member passes a test that none passes.
pub In-any :
    {A : Type 0} (p : A → Bool) (x : A) (xs : List A) → In x xs → any p xs ≡ false → p x ≡ false
In-any p x [] m h = absurd m
In-any p x (y ∷ xs) (inl e) h = ap p e ∙ ground arith
In-any p x (y ∷ xs) (inr m) h = In-any p x xs m (ground arith)
