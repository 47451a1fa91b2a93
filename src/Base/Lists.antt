-- ===== src/Base/Lists.antt =====
-- Lists measured by native numbers, under the library's names, and predicates over lists.
use Prim.Native.Nat.{ℕ, suc, ◌+◌}
use mathlib.Core.Path.{◌≡◌, refl, subst}
use mathlib.Core.Bool.{Bool, true}
use mathlib.Core.Logic.{◌⊎◌, inl, inr, ◌↔◌}
use mathlib.Core.List.{List, [], ◌∷◌, ◌++◌}
use mathlib.Core.Option.{Option, none, some}
use native.Mathlib.Omega.{arith}
use ida_swarm.Base.Tests.{if◌then◌else◌, Bool-cases}

module _ {ℓ} {A : Type ℓ} where
  abbrev pub length : List A → ℕ
  length [] = 0
  length (x ∷ xs) = suc (length xs)

  pub length-append : (xs ys : List A) → length (xs ++ ys) ≡ length xs + length ys
  length-append [] ys = omega arith
  length-append (x ∷ xs) ys = omega (arith, length-append xs ys)

  -- The elements that pass a test, in order.
  unfoldable pub keep : (A → Bool) → List A → List A
  keep p [] = []
  keep p (x ∷ xs) = if p x then x ∷ keep p xs else keep p xs

  pub keep-append : (p : A → Bool) (xs ys : List A) → keep p (xs ++ ys) ≡ keep p xs ++ keep p ys
  unfolding keep
  keep-append p [] ys = refl
  keep-append p (x ∷ xs) ys = ground (arith, keep-append p xs ys)

  -- The first element that passes a test.
  unfoldable pub find_if : (A → Bool) → List A → Option A
  find_if p [] = none
  find_if p (x ∷ xs) = if p x then some x else find_if p xs

module _ {ℓ κ} {A : Type ℓ} (P : A → Type κ) where
  abbrev pub All : List A → Type κ
  All [] = Unit
  All (x ∷ xs) = P x × All xs

  pub All-append : (xs ys : List A) → All xs → All ys → All (xs ++ ys)
  All-append [] ys hx hy = hy
  All-append (x ∷ xs) ys (px, hx) hy = (px, All-append xs ys hx hy)

pub List-cases {ℓ} :
    {A : Type ℓ} (xs : List A) → (xs ≡ []) ⊎ ((x : A) × (ys : List A) × (xs ≡ x ∷ ys))
List-cases [] = inl refl
List-cases (x ∷ xs) = inr (x, xs, refl)

pub All-map {ℓ κ} :
    {A : Type ℓ} {P Q : A → Type κ} (f : (x : A) → P x → Q x) (xs : List A) → All P xs → All Q xs
All-map f [] h = tt
All-map f (x ∷ xs) (p, h) = (f x p, All-map f xs h)

-- Some element has the property.
abbrev pub Any {ℓ} : {A : Type ℓ} → (A → Type 0) → List A → Type 0
Any P [] = ⊥
Any P (x ∷ xs) = P x ⊎ Any P xs

pub find_if-All {ℓ κ} :
    {A : Type ℓ} (P : A → Type κ) (p : A → Bool) (xs : List A) (x : A)
    → All P xs
    → find_if p xs ≡ some x
    → P x
unfolding find_if
find_if-All P p [] x h e = cc
find_if-All P p (y ∷ xs) x h e = elim (Bool-cases (p y)) [
  | inl t ↦ let same : y ≡ x = ground arith in subst P same h.0
  | inr f ↦ find_if-All P p xs x h.1 (ground arith)
]

pub Any-keep :
    {A : Type 0} (P : A → Type 0) (p : A → Bool) (xs : List A)
    → Any P (keep p xs) ↔ Any (λ x. (p x ≡ true) × P x) xs
unfolding keep
Any-keep P p [] = (λ a. a, λ a. a)
Any-keep P p (x ∷ xs) = elim (Bool-cases (p x)) [
  | inl t ↦
      let rest = Any-keep P p xs in
      rw t (
        λ s. elim s [ inl h ↦ inl (refl, h) | inr a ↦ inr (rest.0 a) ],
        λ s. elim s [ inl h ↦ inl h.1 | inr a ↦ inr (rest.1 a) ],
      )
  | inr f ↦
      let rest = Any-keep P p xs in
      rw f (λ a. inr (rest.0 a), λ s. elim s [ inl h ↦ absurd (cc (h.0)) | inr a ↦ rest.1 a ])
]

pub Any-map :
    {A : Type 0} {P Q : A → Type 0} (f : (x : A) → P x → Q x) (xs : List A) → Any P xs → Any Q xs
Any-map f [] a = a
Any-map f (x ∷ xs) (inl h) = inl (f x h)
Any-map f (x ∷ xs) (inr a) = inr (Any-map f xs a)

pub Any-append_right : {A : Type 0} (P : A → Type 0) (xs ys : List A) → Any P ys → Any P (xs ++ ys)
Any-append_right P [] ys a = a
Any-append_right P (x ∷ xs) ys a = inr (Any-append_right P xs ys a)

-- A predicate holds of all elements if it holds of each, and of each if of all.
pub All-each {ℓ} :
    {A : Type 0} (P : A → Type ℓ) (xs : List A) → ((x : A) → Any (λ y. y ≡ x) xs → P x) → All P xs
All-each P [] h = tt
All-each P (x ∷ xs) h = (h x (inl refl), All-each P xs (λ y a. h y (inr a)))

pub each-All {ℓ} :
    {A : Type 0} (P : A → Type ℓ) (xs : List A) (x : A) → All P xs → Any (λ y. y ≡ x) xs → P x
each-All P [] x h a = absurd a
each-All P (y ∷ xs) x h (inl e) = subst P e h.0
each-All P (y ∷ xs) x h (inr a) = each-All P xs x h.1 a
