-- ===== src/Prelude/Lists.antt =====
-- Lists measured and indexed by native numbers, under the library's names.
use Prim.Native.Nat.{ℕ, zero, suc, ◌+◌, ◌-◌, ◌<◌, min}
use mathlib.Core.Path.{◌≡◌, refl, sym, ap, ◌∙◌}
use mathlib.Core.Logic.{◌≢◌}
use mathlib.Core.List
use mathlib.Core.List.Perm
use mathlib.Core.Nat as Unary
use mathlib.Core.List.{Perm, List, [], ◌∷◌, ◌++◌, map, reverse, reverse-cons, append_assoc}
use mathlib.Core.Option.{Option, none, some}
use native.Mathlib.Omega.{arith}

module _ {ℓ} {A : Type ℓ} where
  abbrev pub length : List A → ℕ
  length [] = 0
  length (x ∷ xs) = suc (length xs)

  abbrev pub get_elem? : List A → ℕ → Option A
  get_elem? [] i = none
  get_elem? (x ∷ xs) zero = some x
  get_elem? (x ∷ xs) (suc i) = get_elem? xs i

  -- A write out of bounds changes nothing.
  abbrev pub set : List A → ℕ → A → List A
  set [] i v = []
  set (x ∷ xs) zero v = v ∷ xs
  set (x ∷ xs) (suc i) v = x ∷ set xs i v

  pub length-append : (xs ys : List A) → length (xs ++ ys) ≡ length xs + length ys
  length-append [] ys = omega arith
  length-append (x ∷ xs) ys = omega (arith, length-append xs ys)

module _ {ℓ} {A : Type ℓ} where
  pub length-set : (xs : List A) (i : ℕ) (v : A) → length (set xs i v) ≡ length xs
  length-set [] i v = refl
  length-set (x ∷ xs) zero v = refl
  length-set (x ∷ xs) (suc i) v = ap suc (length-set xs i v)

  pub get_elem?-set_self :
      (xs : List A) (i : ℕ) (v : A) → i < length xs → get_elem? (set xs i v) i ≡ some v
  get_elem?-set_self [] i v h = elim h [ ]
  get_elem?-set_self (x ∷ xs) zero v h = refl
  get_elem?-set_self (x ∷ xs) (suc i) v h = get_elem?-set_self xs i v (omega arith)

  pub get_elem?-set_ne :
      (xs : List A) {i j : ℕ} (v : A) → i ≢ j → get_elem? (set xs i v) j ≡ get_elem? xs j
  get_elem?-set_ne [] v h = refl
  get_elem?-set_ne (x ∷ xs) {i = zero} {j = zero} v h = absurd (h refl)
  get_elem?-set_ne (x ∷ xs) {i = zero} {j = suc j} v h = refl
  get_elem?-set_ne (x ∷ xs) {i = suc i} {j = zero} v h = refl
  get_elem?-set_ne (x ∷ xs) {i = suc i} {j = suc j} v h = get_elem?-set_ne xs v (λ e. h (ap suc e))

module _ {ℓ} {A : Type ℓ} where
  abbrev pub get_or : List A → ℕ → A → A
  get_or [] i d = d
  get_or (x ∷ xs) zero d = x
  get_or (x ∷ xs) (suc i) d = get_or xs i d

  abbrev pub take : ℕ → List A → List A
  take zero xs = []
  take (suc n) [] = []
  take (suc n) (x ∷ xs) = x ∷ take n xs

  abbrev pub drop : ℕ → List A → List A
  drop zero xs = xs
  drop (suc n) [] = []
  drop (suc n) (x ∷ xs) = drop n xs

  abbrev pub replicate : ℕ → A → List A
  replicate zero a = []
  replicate (suc n) a = a ∷ replicate n a

  pub take-append-drop : (n : ℕ) (xs : List A) → take n xs ++ drop n xs ≡ xs
  take-append-drop zero xs = refl
  take-append-drop (suc n) [] = refl
  take-append-drop (suc n) (x ∷ xs) = rw (take-append-drop n xs)

  pub length-take : (n : ℕ) (xs : List A) → length (take n xs) ≡ min n (length xs)
  length-take zero xs = omega arith
  length-take (suc n) [] = omega arith
  length-take (suc n) (x ∷ xs) = omega (arith, length-take n xs)

  pub length-drop : (n : ℕ) (xs : List A) → length (drop n xs) ≡ length xs - n
  length-drop zero xs = omega arith
  length-drop (suc n) [] = omega arith
  length-drop (suc n) (x ∷ xs) = omega (arith, length-drop n xs)

  pub length-replicate : (n : ℕ) (a : A) → length (replicate n a) ≡ n
  length-replicate zero a = refl
  length-replicate (suc n) a = ap suc (length-replicate n a)

  pub length-map {κ} : {B : Type κ} (xs : List A) (f : A → B) → length (map f xs) ≡ length xs
  length-map [] f = refl
  length-map (x ∷ xs) f = ap suc (length-map xs f)

  pub length-reverse : (xs : List A) → length (reverse xs) ≡ length xs
  length-reverse [] = refl
  length-reverse (x ∷ xs) =
      omega (
        arith,
        ap length (reverse-cons x xs),
        length-append (reverse xs) (x ∷ []),
        length-reverse xs,
      )

-- Reads, writes and cuts in the middle of an appended list.
pub set-middle {ℓ} :
    {A : Type ℓ} (a : List A) (x y : A) (c : List A) (i : ℕ)
    → i ≡ length a
    → set (a ++ x ∷ c) i y ≡ a ++ y ∷ c
set-middle [] x y c zero h = refl
set-middle [] x y c (suc i) h = absurd (omega arith)
set-middle (z ∷ a) x y c zero h = absurd (omega arith)
set-middle (z ∷ a) x y c (suc i) h = ap (◌∷◌ z) (set-middle a x y c i (omega arith))

pub get_elem?-middle {ℓ} :
    {A : Type ℓ} (a : List A) (x : A) (c : List A) (i : ℕ)
    → i ≡ length a
    → get_elem? (a ++ x ∷ c) i ≡ some x
get_elem?-middle [] x c zero h = refl
get_elem?-middle [] x c (suc i) h = absurd (omega arith)
get_elem?-middle (z ∷ a) x c zero h = absurd (omega arith)
get_elem?-middle (z ∷ a) x c (suc i) h = get_elem?-middle a x c i (omega arith)

pub shift {ℓ} : {A : Type ℓ} (a : List A) (x : A) (c : List A) → a ++ x ∷ c ≡ (a ++ x ∷ []) ++ c
shift a x c = sym (append_assoc a (x ∷ []) c)

pub take-append {ℓ} : {A : Type ℓ} (l r : List A) (s : ℕ) → length l ≡ s → take s (l ++ r) ≡ l
take-append [] r zero h = refl
take-append [] r (suc s) h = absurd (omega arith)
take-append (x ∷ l) r zero h = absurd (omega arith)
take-append (x ∷ l) r (suc s) h = ap (◌∷◌ x) (take-append l r s (omega arith))

pub drop-append {ℓ} : {A : Type ℓ} (l r : List A) (s : ℕ) → length l ≡ s → drop s (l ++ r) ≡ r
drop-append [] r zero h = refl
drop-append [] r (suc s) h = absurd (omega arith)
drop-append (x ∷ l) r zero h = absurd (omega arith)
drop-append (x ∷ l) r (suc s) h = drop-append l r s (omega arith)

-- The two lengths of a list, and that a permutation keeps them.
abbrev as_native : Unary.ℕ → ℕ
as_native Unary.zero = 0
as_native (Unary.suc n) = suc (as_native n)

length-native {ℓ} : {A : Type ℓ} (xs : List A) → length xs ≡ as_native (List.length xs)
length-native [] = refl
length-native (x ∷ xs) = ap suc (length-native xs)

pub Perm-length {ℓ} : {A : Type ℓ} (xs ys : List A) → Perm xs ys → length xs ≡ length ys
Perm-length xs ys p = length-native xs ∙ ap as_native (Perm.length-eq p) ∙ sym (length-native ys)
