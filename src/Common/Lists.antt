-- ===== src/Common/Lists.antt =====
-- Lists measured by native numbers, and predicates on their elements that compute to products.
use Prim.Native.Nat.{ℕ, suc, ◌+◌}
use mathlib.Core.Path.{◌≡◌, refl, sym, subst}
use mathlib.Core.Logic.{◌≢◌, ◌⊎◌, inl, inr}
use mathlib.Core.List.{List, [], ◌∷◌, ◌++◌}
use mathlib.Core.Bool.{Bool, true, false}
use native.Mathlib.Omega.{arith}

abbrev pub length {ℓ} : {A : Type ℓ} → List A → ℕ
length [] = 0
length (x ∷ xs) = suc (length xs)

abbrev pub is_nil {ℓ} : {A : Type ℓ} → List A → Bool
is_nil [] = true
is_nil (x ∷ xs) = false

pub length-append {ℓ} : {A : Type ℓ} (xs ys : List A) → length (xs ++ ys) ≡ length xs + length ys
length-append [] ys = omega arith
length-append (x ∷ xs) ys = omega (arith, length-append xs ys)

abbrev pub All {ℓ κ} : {A : Type ℓ} → (A → Type κ) → List A → Type κ
All P [] = Unit
All P (x ∷ xs) = P x × All P xs

module _ {ℓ κ} {A : Type ℓ} (P : A → Type κ) where
  pub All-append : (xs ys : List A) → All P xs → All P ys → All P (xs ++ ys)
  All-append [] ys hx hy = hy
  All-append (x ∷ xs) ys hx hy = (hx.0, All-append xs ys hx.1 hy)

  pub All_left : (xs ys : List A) → All P (xs ++ ys) → All P xs
  All_left [] ys h = tt
  All_left (x ∷ xs) ys h = (h.0, All_left xs ys h.1)

  pub All_right : (xs ys : List A) → All P (xs ++ ys) → All P ys
  All_right [] ys h = h
  All_right (x ∷ xs) ys h = All_right xs ys h.1

  pub All_middle : (x : A) (xs ys : List A) → All P (xs ++ x ∷ ys) → P x
  All_middle x xs ys h = (All_right xs (x ∷ ys) h).0

  pub All_drop : (x : A) (xs ys : List A) → All P (xs ++ x ∷ ys) → All P (xs ++ ys)
  All_drop x xs ys h = All-append xs ys (All_left xs (x ∷ ys) h) (All_right xs (x ∷ ys) h).1

  pub All_put : (x : A) (xs ys : List A) → P x → All P (xs ++ ys) → All P (xs ++ x ∷ ys)
  All_put x xs ys hx h = All-append xs (x ∷ ys) (All_left xs ys h) (hx, All_right xs ys h)

  pub All_mono {μ} : (Q : A → Type μ) (xs : List A) → ((x : A) → P x → Q x) → All P xs → All Q xs
  All_mono Q [] f h = tt
  All_mono Q (x ∷ xs) f h = (f x h.0, All_mono Q xs f h.1)

pub All_zip {ℓ κ μ ν} :
    {A : Type ℓ} (P : A → Type κ) (Q : A → Type μ) (R : A → Type ν) (xs : List A)
    → ((x : A) → P x → Q x → R x)
    → All P xs
    → All Q xs
    → All R xs
All_zip P Q R [] f h k = tt
All_zip P Q R (x ∷ xs) f h k = (f x h.0 k.0, All_zip P Q R xs f h.1 k.1)

-- `a` is none of the addresses of the list.
abbrev pub NotIn : ℕ → List ℕ → Type 0
NotIn a = All (λ x. a ≢ x)

abbrev pub Distinct : List ℕ → Type 0
Distinct [] = Unit
Distinct (x ∷ xs) = NotIn x xs × Distinct xs

-- No address is in both lists.
abbrev pub Apart : List ℕ → List ℕ → Type 0
Apart xs ys = All (λ x. NotIn x ys) xs

pub NotIn-singleton : (a b : ℕ) → a ≢ b → NotIn a (b ∷ [])
NotIn-singleton a b h = (h, tt)

pub not-NotIn_middle : (a : ℕ) (xs ys : List ℕ) → ¬ (NotIn a (xs ++ a ∷ ys))
not-NotIn_middle a [] ys h = h.0 refl
not-NotIn_middle a (x ∷ xs) ys h = not-NotIn_middle a xs ys h.1

pub Apart-cons : (y : ℕ) (xs ys : List ℕ) → NotIn y xs → Apart xs ys → Apart xs (y ∷ ys)
Apart-cons y [] ys n h = tt
Apart-cons y (x ∷ xs) ys n h = ((λ e. n.0 (sym e), h.0), Apart-cons y xs ys n.1 h.1)

pub Apart-nil : (xs : List ℕ) → Apart xs []
Apart-nil [] = tt
Apart-nil (x ∷ xs) = (tt, Apart-nil xs)

pub Apart-symm : (xs ys : List ℕ) → Apart xs ys → Apart ys xs
Apart-symm [] ys h = Apart-nil ys
Apart-symm (x ∷ xs) ys h = Apart-cons x ys xs h.0 (Apart-symm xs ys h.1)

module _ (xs ys : List ℕ) where
  pub NotIn-both : (a : ℕ) → NotIn a xs → NotIn a ys → NotIn a (xs ++ ys)
  NotIn-both a = All-append (λ x. a ≢ x) xs ys

  pub NotIn-left : (a : ℕ) → NotIn a (xs ++ ys) → NotIn a xs
  NotIn-left a = All_left (λ x. a ≢ x) xs ys

  pub NotIn-right : (a : ℕ) → NotIn a (xs ++ ys) → NotIn a ys
  NotIn-right a = All_right (λ x. a ≢ x) xs ys

pub Distinct-append :
    (xs ys : List ℕ) → Distinct xs → Distinct ys → Apart xs ys → Distinct (xs ++ ys)
Distinct-append [] ys hx hy a = hy
Distinct-append (x ∷ xs) ys hx hy a =
    (NotIn-both xs ys x hx.0 a.0, Distinct-append xs ys hx.1 hy a.1)

pub Distinct-left : (xs ys : List ℕ) → Distinct (xs ++ ys) → Distinct xs
Distinct-left [] ys h = tt
Distinct-left (x ∷ xs) ys h = (NotIn-left xs ys x h.0, Distinct-left xs ys h.1)

pub Distinct-right : (xs ys : List ℕ) → Distinct (xs ++ ys) → Distinct ys
Distinct-right [] ys h = h
Distinct-right (x ∷ xs) ys h = Distinct-right xs ys h.1

pub Distinct-Apart : (xs ys : List ℕ) → Distinct (xs ++ ys) → Apart xs ys
Distinct-Apart [] ys h = tt
Distinct-Apart (x ∷ xs) ys h = (NotIn-right xs ys x h.0, Distinct-Apart xs ys h.1)

-- The element in the middle is in neither part.
module _ (x : ℕ) (ys : List ℕ) where
  pub NotIn-before : (xs : List ℕ) → Distinct (xs ++ x ∷ ys) → NotIn x xs
  NotIn-before [] d = tt
  NotIn-before (z ∷ xs) d = (λ e. (NotIn-right xs (x ∷ ys) z d.0).0 (sym e), NotIn-before xs d.1)

  pub NotIn-after : (xs : List ℕ) → Distinct (xs ++ x ∷ ys) → NotIn x ys
  NotIn-after [] d = d.0
  NotIn-after (z ∷ xs) d = NotIn-after xs d.1

  pub Distinct-drop : (xs : List ℕ) → Distinct (xs ++ x ∷ ys) → Distinct (xs ++ ys)
  Distinct-drop [] d = d.1
  Distinct-drop (z ∷ xs) d =
      let out = d.0 in
      (
        NotIn-both xs ys z (NotIn-left xs (x ∷ ys) z out) (NotIn-right xs (x ∷ ys) z out).1,
        Distinct-drop xs d.1,
      )

  pub Distinct-put :
      (xs : List ℕ) → NotIn x xs → NotIn x ys → Distinct (xs ++ ys) → Distinct (xs ++ x ∷ ys)
  Distinct-put [] nx ny d = (ny, d)
  Distinct-put (z ∷ xs) nx ny d = (
    NotIn-both xs (x ∷ ys) z (NotIn-left xs ys z d.0) (λ e. nx.0 (sym e), NotIn-right xs ys z d.0),
    Distinct-put xs nx.1 ny d.1,
  )

-- `t` is in the list.
abbrev pub Has : ℕ → List ℕ → Type 0
Has t [] = ⊥
Has t (x ∷ xs) = (t ≡ x) ⊎ Has t xs

pub Has-middle : (t : ℕ) (xs ys : List ℕ) → Has t (xs ++ t ∷ ys)
Has-middle t [] ys = inl refl
Has-middle t (x ∷ xs) ys = inr (Has-middle t xs ys)

pub Has-put : (t n : ℕ) (xs ys : List ℕ) → Has t (xs ++ ys) → Has t (xs ++ n ∷ ys)
Has-put t n [] ys h = inr h
Has-put t n (x ∷ xs) ys (inl e) = inl e
Has-put t n (x ∷ xs) ys (inr h) = inr (Has-put t n xs ys h)

pub Has-drop : (t x : ℕ) (xs ys : List ℕ) → t ≢ x → Has t (xs ++ x ∷ ys) → Has t (xs ++ ys)
Has-drop t x [] ys ne (inl e) = absurd (ne e)
Has-drop t x [] ys ne (inr h) = h
Has-drop t x (z ∷ xs) ys ne (inl e) = inl e
Has-drop t x (z ∷ xs) ys ne (inr h) = inr (Has-drop t x xs ys ne h)

pub Has-split :
    (t : ℕ) (xs : List ℕ) → Has t xs → (us : List ℕ) × (vs : List ℕ) × (xs ≡ us ++ t ∷ vs)
Has-split t [] h = absurd h
Has-split t (x ∷ xs) (inl e) = ([], xs, rw e refl)
Has-split t (x ∷ xs) (inr h) = let (us, vs, e) = Has-split t xs h in (x ∷ us, vs, rw e refl)

pub All-Has {κ} : (P : ℕ → Type κ) (t : ℕ) (xs : List ℕ) → Has t xs → All P xs → P t
All-Has P t [] h a = absurd h
All-Has P t (x ∷ xs) (inl e) a = subst P (sym e) a.0
All-Has P t (x ∷ xs) (inr h) a = All-Has P t xs h a.1

-- An element with a property that no element of the list has is not in it.
pub NotIn-of_All {κ} : (P : ℕ → Type κ) (t : ℕ) (xs : List ℕ) → ¬ (P t) → All P xs → NotIn t xs
NotIn-of_All P t [] h a = tt
NotIn-of_All P t (x ∷ xs) h a = (λ e. h (subst P (sym e) a.0), NotIn-of_All P t xs h a.1)

pub All-members : (xs : List ℕ) → All (λ x. Has x xs) xs
All-members [] = tt
All-members (x ∷ xs) =
    (inl refl, All_mono (λ y. Has y xs) (λ y. Has y (x ∷ xs)) xs (λ y h. inr h) (All-members xs))

pub cons_of_ne_nil : (xs : List ℕ) → xs ≢ [] → (y : ℕ) × (ys : List ℕ) × (xs ≡ y ∷ ys)
cons_of_ne_nil [] h = absurd (h refl)
cons_of_ne_nil (x ∷ xs) h = (x, xs, refl)

pub ne_nil_of_Has : (t : ℕ) (xs : List ℕ) → Has t xs → xs ≢ []
ne_nil_of_Has t [] h e = h
ne_nil_of_Has t (x ∷ xs) h e = cc
