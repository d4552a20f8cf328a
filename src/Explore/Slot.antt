-- ===== src/Explore/Slot.antt =====
-- internal/ranking/diversity.go: hashSeed and ExplorationSlot.
use vidra_search.Prelude.{
  ℕ, zero, suc, ◌/◌, ◌%◌, ◌^◌, ℤ, pos, negsuc, ◌<ℤ◌, String, Bool, true, false, List, if◌then◌else◌,
  ◌≡◌, refl, ◌⊎◌, inl, inr, arith,
}
use vidra_search.Store.Rows.{Float}
use vidra_search.Experiment.Assign.{fnv1a, fnv_offset}

-- The bytes of a seed, and what the draw is compared by: `epsilon <= 0`, and whether
-- `float64(n) / 16384` is below epsilon.
pub record Draw : Type 0 where
  pub bytes : String → List ℕ
  pub not_positive : Float → Bool
  pub below : ℕ → Float → Bool

unfoldable pub hash_seed : Draw → String → ℕ
hash_seed d seed = fnv1a fnv_offset (d.bytes seed)

-- The low 14 bits of the hash are the draw; those from the 20th on choose the item.
abbrev pub slot_of : Draw → (epsilon : Float) → (pool : ℕ) → (hash : ℕ) → Bool × ℕ
slot_of d epsilon pool hash =
    if d.below (hash % 2 ^ 14) epsilon then (true, hash / 2 ^ 20 % pool) else (false, 0)

unfoldable pub exploration_slot : Draw → String → Float → (pool_size : ℤ) → Bool × ℕ
unfolding hash_seed
exploration_slot d seed epsilon (negsuc n) = (false, 0)
exploration_slot d seed epsilon (pos zero) = (false, 0)
exploration_slot d seed epsilon (pos (suc n)) =
    if d.not_positive epsilon then (false, 0) else slot_of d epsilon (suc n) (hash_seed d seed)

abbrev pub IsSlot : ℤ → Bool × ℕ → Type 0
IsSlot pool r = ((r.0 ≡ true) × (pos (r.1) <ℤ pool)) ⊎ (r ≡ (false, 0))

if-IsSlot :
    (t : Bool) (pool : ℤ) (r s : Bool × ℕ)
    → IsSlot pool r
    → IsSlot pool s
    → IsSlot pool (if t then r else s)
if-IsSlot true pool r s h k = h
if-IsSlot false pool r s h k = k

-- The exploration slot either fires with an index into the pool, or does not fire and has index 0.
pub exploration_slot-IsSlot :
    (d : Draw) (seed : String) (epsilon : Float) (pool : ℤ)
    → IsSlot pool (exploration_slot d seed epsilon pool)
unfolding exploration_slot
exploration_slot-IsSlot d seed epsilon (negsuc n) = inr refl
exploration_slot-IsSlot d seed epsilon (pos zero) = inr refl
exploration_slot-IsSlot d seed epsilon (pos (suc n)) =
    let h = hash_seed d seed in
    if-IsSlot (d.not_positive epsilon) (pos (suc n)) (false, 0) (slot_of d epsilon (suc n) h)
      (inr refl)
      (if-IsSlot (d.below (h % 2 ^ 14) epsilon) (pos (suc n)) (true, h / 2 ^ 20 % suc n) (false, 0)
        (inl (refl, omega arith)) (inr refl))
