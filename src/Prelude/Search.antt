-- ===== src/Prelude/Search.antt =====
-- Lists searched and filtered by a test, and what is said of some or of each of their elements.
use Prim.Native.Nat.{ℕ}
use mathlib.Core.Path.{◌≡◌, refl, subst}
use mathlib.Core.Logic.{◌⊎◌, inl, inr}
use mathlib.Core.Bool.{Bool, true, false, ◌&&◌}
use mathlib.Core.List.{List, [], ◌∷◌, ◌++◌}
use stellar_rpc.Prelude.Tests.{◌==◌, if◌then◌else◌, ==→eq, ==_refl, Bool-cases}

abbrev pub any {ℓ} : {A : Type ℓ} → (A → Bool) → List A → Bool
any p [] = false
any p (x ∷ xs) = if p x then true else any p xs

abbrev pub filter {ℓ} : {A : Type ℓ} → (A → Bool) → List A → List A
filter p [] = []
filter p (x ∷ xs) = if p x then x ∷ filter p xs else filter p xs

abbrev pub contains : List ℕ → ℕ → Bool
contains xs y = any (λ x. x == y) xs

abbrev pub is_nil {ℓ} : {A : Type ℓ} → List A → Bool
is_nil [] = true
is_nil (x ∷ xs) = false

-- Of some element, and of each of them
abbrev pub Some {ℓ} : {A : Type ℓ} → (A → Type 0) → List A → Type 0
Some P [] = ⊥
Some P (x ∷ xs) = P x ⊎ Some P xs

abbrev pub Each {ℓ κ} : {A : Type ℓ} → (A → Type κ) → List A → Type κ
Each P [] = Unit
Each P (x ∷ xs) = P x × Each P xs

pub data Member {ℓ} {A : Type ℓ} (x : A) : List A → Type ℓ where
  here : {xs : List A} → Member x (x ∷ xs)
  there : {y : A} {xs : List A} → Member x xs → Member x (y ∷ xs)

pub any_of_Some {ℓ} :
    {A : Type ℓ} (P : A → Type 0) (p : A → Bool) (xs : List A)
    → ((x : A) → P x → p x ≡ true)
    → Some P xs
    → any p xs ≡ true
any_of_Some P p [] f h = absurd h
any_of_Some P p (x ∷ xs) f (inl h) = rw (f x h) refl
any_of_Some P p (x ∷ xs) f (inr h) = elim (Bool-cases (p x)) [
  | inl e ↦ rw (e) refl
  | inr e ↦ rw (e) (any_of_Some P p xs f h)
]

pub weaken-Some {ℓ} :
    {A : Type ℓ} (P Q : A → Type 0) (xs : List A) → ((x : A) → P x → Q x) → Some P xs → Some Q xs
weaken-Some P Q [] f h = absurd h
weaken-Some P Q (x ∷ xs) f (inl h) = inl (f x h)
weaken-Some P Q (x ∷ xs) f (inr h) = inr (weaken-Some P Q xs f h)

pub append_left-Some {ℓ} :
    {A : Type ℓ} (P : A → Type 0) (xs ys : List A) → Some P xs → Some P (xs ++ ys)
append_left-Some P [] ys h = absurd h
append_left-Some P (x ∷ xs) ys (inl h) = inl h
append_left-Some P (x ∷ xs) ys (inr h) = inr (append_left-Some P xs ys h)

pub append_right-Some {ℓ} :
    {A : Type ℓ} (P : A → Type 0) (xs ys : List A) → Some P ys → Some P (xs ++ ys)
append_right-Some P [] ys h = h
append_right-Some P (x ∷ xs) ys h = inr (append_right-Some P xs ys h)

pub Some-contains : (xs : List ℕ) (y : ℕ) → contains xs y ≡ true → Some (λ x. x ≡ y) xs
Some-contains [] y h = (let e : ⊥ = cc in absurd e)
Some-contains (x ∷ xs) y h = elim (Bool-cases (x == y)) [
  | inl e ↦ inl (==→eq x y e)
  | inr e ↦ inr (Some-contains xs y (rw (e) at h))
]

pub contains_of_Some : (xs : List ℕ) (y : ℕ) → Some (λ x. x ≡ y) xs → contains xs y ≡ true
contains_of_Some xs y h = any_of_Some (λ x. x ≡ y) (λ x. x == y) xs (λ x e. rw (e) (==_refl y)) h

-- Filters that agree
pub filter_congr {ℓ κ} :
    {A : Type ℓ} (P : A → Type κ) (p q : A → Bool) (xs : List A)
    → ((x : A) → P x → p x ≡ q x)
    → Each P xs
    → filter p xs ≡ filter q xs
filter_congr P p q [] f h = refl
filter_congr P p q (x ∷ xs) f h = rw (f x h.0, filter_congr P p q xs f h.1) refl

pub filter-filter {ℓ} :
    {A : Type ℓ} (p q : A → Bool) (xs : List A)
    → filter p (filter q xs) ≡ filter (λ x. q x && p x) xs
filter-filter p q [] = refl
filter-filter p q (x ∷ xs) = elim (Bool-cases (q x)) [
  | inl e ↦ rw (e, filter-filter p q xs) refl
  | inr e ↦ rw (e, filter-filter p q xs) refl
]

pub filter-Each {ℓ κ} :
    {A : Type ℓ} (P : A → Type κ) (p : A → Bool) (xs : List A) → Each P xs → Each P (filter p xs)
filter-Each P p [] h = tt
filter-Each P p (x ∷ xs) h = elim (Bool-cases (p x)) [
  | inl e ↦ rw (e) (h.0, filter-Each P p xs h.1)
  | inr e ↦ rw (e) (filter-Each P p xs h.1)
]

pub weaken-Each {ℓ κ μ} :
    {A : Type ℓ} (P : A → Type κ) (Q : A → Type μ) (xs : List A)
    → ((x : A) → P x → Q x)
    → Each P xs
    → Each Q xs
weaken-Each P Q [] f h = tt
weaken-Each P Q (x ∷ xs) f h = (f x h.0, weaken-Each P Q xs f h.1)

pub append-Each {ℓ κ} :
    {A : Type ℓ} (P : A → Type κ) (xs ys : List A) → Each P xs → Each P ys → Each P (xs ++ ys)
append-Each P [] ys h k = k
append-Each P (x ∷ xs) ys h k = (h.0, append-Each P xs ys h.1 k)

-- What is said of each element is said of one that is contained.
pub Each_of_contains {κ} :
    (P : ℕ → Type κ) (xs : List ℕ) (y : ℕ) → contains xs y ≡ true → Each P xs → P y
Each_of_contains P [] y h k = let e : ⊥ = cc in absurd e
Each_of_contains P (x ∷ xs) y h k = elim (Bool-cases (x == y)) [
  | inl e ↦ subst P (==→eq x y e) k.0
  | inr e ↦ Each_of_contains P xs y (rw (e) at h) k.1
]

pub Each-Some {ℓ} :
    {A : Type ℓ} (P Q R : A → Type 0) (xs : List A)
    → ((x : A) → P x → Q x → R x)
    → Each P xs
    → Some Q xs
    → Some R xs
Each-Some P Q R [] f h k = absurd k
Each-Some P Q R (x ∷ xs) f h (inl k) = inl (f x h.0 k)
Each-Some P Q R (x ∷ xs) f h (inr k) = inr (Each-Some P Q R xs f h.1 k)

pub Some_of_any {ℓ} :
    {A : Type ℓ} (P : A → Type 0) (p : A → Bool) (xs : List A)
    → ((x : A) → p x ≡ true → P x)
    → any p xs ≡ true
    → Some P xs
Some_of_any P p [] f h = let e : ⊥ = cc in absurd e
Some_of_any P p (x ∷ xs) f h = elim (Bool-cases (p x)) [
  | inl e ↦ inl (f x e)
  | inr e ↦ inr (Some_of_any P p xs f (rw (e) at h))
]

-- What is said of each element is said of every member, and the other way round.
pub Each_of_members {ℓ κ} :
    {A : Type ℓ} (P : A → Type κ) (xs : List A) → ((x : A) → Member x xs → P x) → Each P xs
Each_of_members P [] f = tt
Each_of_members P (x ∷ xs) f = (f x here, Each_of_members P xs (λ y m. f y (there m)))

pub Each-Member {ℓ κ} :
    {A : Type ℓ} (P : A → Type κ) (xs : List A) (x : A) → Each P xs → Member x xs → P x
Each-Member P [] y each m = elim m [ ]
Each-Member P (x ∷ xs) y each here = each.0
Each-Member P (x ∷ xs) y each (there m) = Each-Member P xs y each.1 m

pub Member_of_Some : {A : Type 0} (x : A) (xs : List A) → Some (λ y. y ≡ x) xs → Member x xs
Member_of_Some x [] h = absurd h
Member_of_Some x (y ∷ xs) (inl e) = subst (λ z. Member z (y ∷ xs)) e here
Member_of_Some x (y ∷ xs) (inr h) = there (Member_of_Some x xs h)

pub Some_of_Member :
    {A : Type 0} (P : A → Type 0) (x : A) (xs : List A) → P x → Member x xs → Some P xs
Some_of_Member P x [] p m = elim m [ ]
Some_of_Member P x (y ∷ xs) p here = inl p
Some_of_Member P x (y ∷ xs) p (there m) = inr (Some_of_Member P x xs p m)

pub swap-Member {ℓ} :
    {A : Type ℓ} (z x y : A) (xs : List A) → Member z (x ∷ y ∷ xs) → Member z (y ∷ x ∷ xs)
swap-Member z x y xs here = there here
swap-Member z x y xs (there here) = here
swap-Member z x y xs (there (there m)) = there (there m)

pub cons-Member {ℓ} :
    {A : Type ℓ} (z x : A) (xs ys : List A)
    → (Member z xs → Member z ys)
    → Member z (x ∷ xs)
    → Member z (x ∷ ys)
cons-Member z x xs ys f here = here
cons-Member z x xs ys f (there m) = there (f m)
