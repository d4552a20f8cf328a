-- ===== src/Prelude/Sort.antt =====
-- Go's `sort.SliceStable` by a `less`, and what makes its result the sorted one.
use Prim.Native.Nat.{◌+◌}
use mathlib.Core.Path.{◌≡◌, refl}
use mathlib.Core.Bool.{Bool, true, false, not, ◌&&◌}
use mathlib.Core.Logic.{inl, inr}
use mathlib.Core.List.{List, [], ◌∷◌, Perm}
use mathlib.Core.List.Perm
use native.Mathlib.Omega.{arith}
use vidra_search.Prelude.Tests.{if◌then◌else◌, Bool-cases}
use vidra_search.Prelude.Lists.{All, length}

module _ {ℓ} {A : Type ℓ} (less : A → A → Bool) where
  -- An earlier element goes before those that are not less than it.
  unfoldable pub insert : A → List A → List A
  insert x [] = x ∷ []
  insert x (y ∷ ys) = let rest = insert x ys in if less y x then y ∷ rest else x ∷ y ∷ ys

  unfoldable pub stable_sort : List A → List A
  unfolding insert
  stable_sort [] = []
  stable_sort (x ∷ xs) = insert x (stable_sort xs)

  -- Nothing that stands later is less.
  abbrev pub IsOrdered : List A → Type ℓ
  IsOrdered [] = Unit
  IsOrdered (x ∷ xs) = All (λ y. less y x ≡ false) xs × IsOrdered xs

  pub insert-perm : (x : A) (ys : List A) → Perm (insert x ys) (x ∷ ys)
  unfolding insert
  insert-perm x [] = Perm.refl (x ∷ [])
  insert-perm x (y ∷ ys) = elim (Bool-cases (less y x)) [
    | inl e ↦ rw e (Perm.trans (Perm.cons y (insert-perm x ys)) (Perm.swap x y ys))
    | inr e ↦ rw e (Perm.refl (x ∷ y ∷ ys))
  ]

  pub stable_sort-perm : (xs : List A) → Perm (stable_sort xs) xs
  unfolding stable_sort
  stable_sort-perm [] = Perm.refl []
  stable_sort-perm (x ∷ xs) =
      Perm.trans (insert-perm x (stable_sort xs)) (Perm.cons x (stable_sort-perm xs))

  pub length-insert : (x : A) (ys : List A) → length (insert x ys) ≡ length ys + 1
  unfolding insert
  length-insert x [] = omega arith
  length-insert x (y ∷ ys) = ground (arith, length-insert x ys)

  pub length-stable_sort : (xs : List A) → length (stable_sort xs) ≡ length xs
  unfolding stable_sort
  length-stable_sort [] = refl
  length-stable_sort (x ∷ xs) =
      omega (arith, length-insert x (stable_sort xs), length-stable_sort xs)

  pub All-insert {κ} : (P : A → Type κ) (x : A) (ys : List A) → P x → All P ys → All P (insert x ys)
  unfolding insert
  All-insert P x [] p a = (p, tt)
  All-insert P x (y ∷ ys) p a = elim (Bool-cases (less y x)) [
    | inl e ↦ rw e (a.0, All-insert P x ys p a.1)
    | inr e ↦ rw e (p, a)
  ]

  pub All-of-insert {κ} :
      (P : A → Type κ) (x : A) (ys : List A) → All P (insert x ys) → P x × All P ys
  unfolding insert
  All-of-insert P x [] a = (a.0, tt)
  All-of-insert P x (y ∷ ys) a = split (less y x) a (λ b. All-of-insert P x ys b)
    where
      split :
          (t : Bool)
          → All P (if t then y ∷ insert x ys else x ∷ y ∷ ys)
          → (All P (insert x ys) → P x × All P ys)
          → P x × (P y × All P ys)
      split true a again = let (p, b) = again a.1 in (p, (a.0, b))
      split false a again = a

  -- What holds of all sorted elements holds of all that were sorted.
  pub All-of-stable_sort {κ} : (P : A → Type κ) (xs : List A) → All P (stable_sort xs) → All P xs
  unfolding stable_sort
  All-of-stable_sort P [] a = tt
  All-of-stable_sort P (x ∷ xs) a =
      let (p, b) = All-of-insert P x (stable_sort xs) a in (p, All-of-stable_sort P xs b)

  pub All-stable_sort {κ} : (P : A → Type κ) (xs : List A) → All P xs → All P (stable_sort xs)
  unfolding stable_sort
  All-stable_sort P [] a = tt
  All-stable_sort P (x ∷ xs) a = All-insert P x (stable_sort xs) a.0 (All-stable_sort P xs a.1)

-- A strict weak order among the elements with `P`, as `sort` asks of its `less`.
pub record IsWeakOrder {ℓ κ} {A : Type ℓ} (P : A → Type κ) (less : A → A → Bool)
    : Type (ℓ ⊔ κ) where
  pub asym : (x y : A) → P x → P y → less y x ≡ true → less x y ≡ false
  pub trans : (x y z : A) → P x → P y → P z → less y x ≡ false → less z y ≡ false → less z x ≡ false

module _ {ℓ κ} {A : Type ℓ} {P : A → Type κ} {less : A → A → Bool} (o : IsWeakOrder P less) where
  All-below :
      (x y : A) (ys : List A)
      → P x
      → P y
      → All P ys
      → less y x ≡ false
      → All (λ z. less z y ≡ false) ys
      → All (λ z. less z x ≡ false) ys
  All-below x y [] p q ps h a = tt
  All-below x y (z ∷ ys) p q ps h a =
      (o.trans x y z p q ps.0 h a.0, All-below x y ys p q ps.1 h a.1)

  insert-IsOrdered :
      (x : A) (ys : List A) → P x → All P ys → IsOrdered less ys → IsOrdered less (insert less x ys)
  unfolding insert
  insert-IsOrdered x [] p ps h = (tt, tt)
  insert-IsOrdered x (y ∷ ys) p ps h = elim (Bool-cases (less y x)) [
    | inl e ↦ rw e (
      All-insert less (λ z. less z y ≡ false) x ys (o.asym x y p ps.0 e) h.0,
      insert-IsOrdered x ys p ps.1 h.1,
    )
    | inr e ↦ rw e ((e, All-below x y ys p ps.0 ps.1 e h.0), h)
  ]

  pub stable_sort-IsOrdered : (xs : List A) → All P xs → IsOrdered less (stable_sort less xs)
  unfolding stable_sort
  stable_sort-IsOrdered [] ps = tt
  stable_sort-IsOrdered (x ∷ xs) ps =
      insert-IsOrdered x (stable_sort less xs) ps.0 (All-stable_sort less P xs ps.1)
        (stable_sort-IsOrdered xs ps.1)

-- For an order of all elements.
pub All-unit {ℓ} : {A : Type ℓ} (xs : List A) → All (λ x. Unit {0}) xs
All-unit [] = tt
All-unit (x ∷ xs) = (tt, All-unit xs)

-- The lexicographic order of two tests, on the tests alone.
pub lexical_asym :
    (lxy lyx ixy iyx sxy syx : Bool)
    → sxy ≡ (not lxy && not lyx)
    → syx ≡ (not lyx && not lxy)
    → (lxy && lyx) ≡ false
    → (ixy && iyx) ≡ false
    → (if syx then iyx else lxy) ≡ true
    → (if sxy then ixy else lyx) ≡ false
lexical_asym lxy lyx ixy iyx sxy syx a b c d e = ground (arith, a, b, c, d, e)

pub lexical_trans :
    (lxy lyx lyz lzy lxz lzx iyx izy izx syx szy szx : Bool)
    → syx ≡ (not lyx && not lxy)
    → szy ≡ (not lzy && not lyz)
    → szx ≡ (not lzx && not lxz)
    → (not lxy && (not lyz && lxz)) ≡ false
    → (not lyz && (not lzx && lyx)) ≡ false
    → (not lzx && (not lxy && lzy)) ≡ false
    → (not izy && (not iyx && izx)) ≡ false
    → (if syx then iyx else lxy) ≡ false
    → (if szy then izy else lyz) ≡ false
    → (if szx then izx else lxz) ≡ false
lexical_trans lxy lyx lyz lzy lxz lzx iyx izy izx syx szy szx a b c d e f g h k =
    ground (arith, a, b, c, d, e, f, g, h, k)
