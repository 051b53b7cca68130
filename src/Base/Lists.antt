-- ===== src/Base/Lists.antt =====
-- Lists measured by native numbers, predicates on lists, and association lists for Go's maps.
use Prim.Native.Nat.{ℕ, suc, ◌+◌}
use Prim.Native.String.{String}
use mathlib.Core.Path.{◌≡◌, refl, ap, sym, subst, subst₂}
use mathlib.Core.Bool.{Bool, true, false, ◌||◌}
use mathlib.Core.Option.{Option, none, some}
use mathlib.Core.List.{Memᴰ, List, [], ◌∷◌, ◌++◌}
use native.Mathlib.Omega.{arith}
use mathlib.Core.Logic.{◌↔◌, inl, inr}
use clankwork.Base.Tests.{◌==◌, ==_iff, Bool-cases, if◌then◌else◌}

module _ {ℓ} {A : Type ℓ} where
  abbrev pub length : List A → ℕ
  length [] = 0
  length (x ∷ xs) = suc (length xs)

  pub length-append : (xs ys : List A) → length (xs ++ ys) ≡ length xs + length ys
  length-append [] ys = omega arith
  length-append (x ∷ xs) ys = omega (arith, length-append xs ys)

  -- A loop that stops at the first element that passes.
  abbrev pub any : (A → Bool) → List A → Bool
  any p [] = false
  any p (x ∷ xs) = p x || any p xs

-- The elements of a list all have a property.
abbrev pub All {ℓ κ} : {A : Type ℓ} → (A → Type κ) → List A → Type κ
All P [] = Unit
All P (x ∷ xs) = P x × All P xs

module _ {ℓ} {V : Type ℓ} where
  -- A Go map read at a key. The order of the entries stands for the order of one iteration.
  abbrev pub get : List (String × V) → String → Option V
  get [] k = none
  get ((j, v) ∷ m) k = if j == k then some v else get m k

  -- `_, ok := m[k]`
  abbrev pub has : List (String × V) → String → Bool
  has [] k = false
  has ((j, v) ∷ m) k = j == k || has m k

-- A Go set of strings, or a slice searched by a loop.
abbrev pub contains : List String → String → Bool
contains [] a = false
contains (x ∷ xs) a = x == a || contains xs a

abbrev pub In : String → List String → Type 0
In a xs = contains xs a ≡ true

pub In-append_left : (a : String) (xs ys : List String) → In a xs → In a (xs ++ ys)
In-append_left a [] ys h = cc
In-append_left a (x ∷ xs) ys h = ground (arith, In-append_left a xs ys)

pub In-append_right : (a : String) (xs ys : List String) → In a ys → In a (xs ++ ys)
In-append_right a [] ys h = h
In-append_right a (x ∷ xs) ys h = ground (arith, In-append_right a xs ys h)

pub has-get {ℓ} :
    {V : Type ℓ} (m : List (String × V)) (k : String)
    → has m k ≡ true
    → (v : V) × (get m k ≡ some v)
has-get [] k h = cc
has-get ((j, v) ∷ m) k h = elim (Bool-cases (j == k)) [
  | inl e ↦ (v, rw e)
  | inr e ↦ let (w, p) = has-get m k (ground arith) in (w, rw e p)
]

pub get-has {ℓ} :
    {V : Type ℓ} (m : List (String × V)) (k : String) (v : V) → get m k ≡ some v → has m k ≡ true
get-has [] k v h = cc
get-has ((j, w) ∷ m) k v h = ground (arith, get-has m k v)

-- The entries of a Go map: no key twice.
abbrev pub UniqueKeys {ℓ} : {V : Type ℓ} → List (String × V) → Type 0
UniqueKeys [] = Unit
UniqueKeys ((k, v) ∷ m) = (has m k ≡ false) × UniqueKeys m

pub has-mem {ℓ} :
    {V : Type ℓ} (m : List (String × V)) (k : String) (v : V) → Memᴰ (k, v) m → has m k ≡ true
has-mem [] k v x = elim x [ ]
has-mem {V} ((j, w) ∷ m) k v (Memᴰ.head p) =
    rw ((==_iff j k).1 (sym (ap (λ (x : String × V). x.0) p)))
has-mem ((j, w) ∷ m) k v (Memᴰ.tail r) = ground (arith, has-mem m k v r)

pub get-mem {ℓ} :
    {V : Type ℓ} (m : List (String × V)) (k : String) (v : V)
    → UniqueKeys m
    → Memᴰ (k, v) m
    → get m k ≡ some v
get-mem [] k v u x = elim x [ ]
get-mem {V} ((j, w) ∷ m) k v u (Memᴰ.head p) =
    rw ((==_iff j k).1 (sym (ap (λ (x : String × V). x.0) p)))
      (ap some (sym (ap (λ (x : String × V). x.1) p)))
get-mem ((j, w) ∷ m) k v u (Memᴰ.tail r) = elim (Bool-cases (j == k)) [
  | inl e ↦ cc (u.0, has-mem m k v r, (==_iff j k).0 e)
  | inr e ↦ rw e (get-mem m k v u.1 r)
]

pub get-All {ℓ κ} :
    {V : Type ℓ} (P : String × V → Type κ) (m : List (String × V)) (k : String) (v : V)
    → All P m
    → get m k ≡ some v
    → P (k, v)
get-All P [] k v a h = cc
get-All P ((j, w) ∷ m) k v a h = elim (Bool-cases (j == k)) [
  | inl e ↦ let ew : w ≡ v = ground (arith, e) in subst₂ (λ x y. P (x, y)) ((==_iff j k).0 e) ew a.0
  | inr e ↦ get-All P m k v a.1 (rw e at h)
]

-- What a loop appends for each element.
unfoldable pub collect {ℓ κ} : {A : Type ℓ} {B : Type κ} → (A → List B) → List A → List B
collect f [] = []
collect f (x ∷ xs) = f x ++ collect f xs

pub append-eq-nil {ℓ} : {A : Type ℓ} (xs ys : List A) → ((xs ++ ys) ≡ []) ↔ ((xs ≡ []) × (ys ≡ []))
append-eq-nil [] ys = (λ h. (refl, h), λ h. h.1)
append-eq-nil (x ∷ xs) ys = (λ h. cc, λ h. cc)

pub collect-eq-nil {ℓ κ} :
    {A : Type ℓ} {B : Type κ} (f : A → List B) (xs : List A)
    → (collect f xs ≡ []) ↔ All (λ x. f x ≡ []) xs
unfolding collect
collect-eq-nil f [] = (λ _. tt, λ _. refl)
collect-eq-nil f (x ∷ xs) = (
  λ h. let (hx, hs) = (append-eq-nil (f x) (collect f xs)).0 h in (hx, (collect-eq-nil f xs).0 hs),
  λ h. (append-eq-nil (f x) (collect f xs)).1 (h.0, (collect-eq-nil f xs).1 h.1),
)

pub All-map {ℓ κ ν} :
    {A : Type ℓ} (P : A → Type κ) (Q : A → Type ν) (xs : List A)
    → ((x : A) → P x → Q x)
    → All P xs
    → All Q xs
All-map P Q [] f h = tt
All-map P Q (x ∷ xs) f h = (f x h.0, All-map P Q xs f h.1)

abbrev pub is_empty {ℓ} : {A : Type ℓ} → List A → Bool
is_empty [] = true
is_empty (x ∷ xs) = false

pub get-none {ℓ} :
    {V : Type ℓ} (m : List (String × V)) (k : String) → get m k ≡ none → has m k ≡ false
get-none [] k h = refl
get-none ((j, w) ∷ m) k h = ground (arith, get-none m k)

pub any-eq-false {ℓ} :
    {A : Type ℓ} (p : A → Bool) (xs : List A) → any p xs ≡ false → All (λ x. p x ≡ false) xs
any-eq-false p [] h = tt
any-eq-false p (x ∷ xs) h = (ground arith, any-eq-false p xs (ground arith))

pub any-eq-true {ℓ} :
    {A : Type ℓ} (p : A → Bool) (xs : List A) → any p xs ≡ true → (x : A) × Memᴰ x xs × (p x ≡ true)
any-eq-true p [] h = cc
any-eq-true p (x ∷ xs) h = elim (Bool-cases (p x)) [
  | inl e ↦ (x, Memᴰ.head refl, e)
  | inr e ↦ let (y, m, q) = any-eq-true p xs (rw e at h) in (y, Memᴰ.tail m, q)
]

pub any-mem {ℓ} :
    {A : Type ℓ} (p : A → Bool) (xs : List A) (x : A) → Memᴰ x xs → p x ≡ true → any p xs ≡ true
any-mem p [] x m h = elim m [ ]
any-mem p (y ∷ xs) x (Memᴰ.head e) h = ground (arith, ap p e)
any-mem p (y ∷ xs) x (Memᴰ.tail m) h = ground (arith, any-mem p xs x m h)

pub All-mem {ℓ κ} : {A : Type ℓ} (P : A → Type κ) (xs : List A) (x : A) → All P xs → Memᴰ x xs → P x
All-mem P [] x a m = elim m [ ]
All-mem P (y ∷ xs) x a (Memᴰ.head e) = subst P (sym e) a.0
All-mem P (y ∷ xs) x a (Memᴰ.tail m) = All-mem P xs x a.1 m

pub All-of_mem {ℓ κ} :
    {A : Type ℓ} (P : A → Type κ) (xs : List A) → ((x : A) → Memᴰ x xs → P x) → All P xs
All-of_mem P [] f = tt
All-of_mem P (y ∷ xs) f = (f y (Memᴰ.head refl), All-of_mem P xs (λ x m. f x (Memᴰ.tail m)))

-- What a loop appends comes from one of its elements, and from each of them.
pub mem-append_left {ℓ} : {A : Type ℓ} (x : A) (xs ys : List A) → Memᴰ x xs → Memᴰ x (xs ++ ys)
mem-append_left x [] ys m = elim m [ ]
mem-append_left x (y ∷ xs) ys (Memᴰ.head e) = Memᴰ.head e
mem-append_left x (y ∷ xs) ys (Memᴰ.tail m) = Memᴰ.tail (mem-append_left x xs ys m)

pub mem-append_right {ℓ} : {A : Type ℓ} (x : A) (xs ys : List A) → Memᴰ x ys → Memᴰ x (xs ++ ys)
mem-append_right x [] ys m = m
mem-append_right x (y ∷ xs) ys m = Memᴰ.tail (mem-append_right x xs ys m)

pub mem-collect {ℓ κ} :
    {A : Type ℓ} {B : Type κ} (f : A → List B) (xs : List A) (x : A) (y : B)
    → Memᴰ x xs
    → Memᴰ y (f x)
    → Memᴰ y (collect f xs)
unfolding collect
mem-collect f [] x y m h = elim m [ ]
mem-collect f (z ∷ xs) x y (Memᴰ.head e) h =
    mem-append_left y (f z) (collect f xs) (subst (λ w. Memᴰ y (f w)) e h)
mem-collect f (z ∷ xs) x y (Memᴰ.tail m) h =
    mem-append_right y (f z) (collect f xs) (mem-collect f xs x y m h)
