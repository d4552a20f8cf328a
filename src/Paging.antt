-- ===== src/Paging.antt =====
-- internal/paging/paging.go, over Go's signed `int`.
use vidra_search.Prelude.{ℤ, pos, negsuc, ◌≤ℤ◌, ◌<ℤ◌, leb_ℤ, ltb_ℤ, arith, if◌then◌else◌}

unfoldable pub limit : (v def max : ℤ) → ℤ
limit v def max = if leb_ℤ v (pos 0) then def else if ltb_ℤ max v then max else v

unfoldable pub offset : ℤ → ℤ
offset v = if ltb_ℤ v (pos 0) then pos 0 else v

-- With a positive default that is at most the maximum, the limit of a page is positive and at most
-- the maximum.
pub limit_bounds :
    (v def max : ℤ)
    → pos 0 <ℤ def
    → def ≤ℤ max
    → (pos 0 <ℤ limit v def max) × (limit v def max ≤ℤ max)
unfolding limit
limit_bounds (pos v) (pos d) (pos m) h k = ground arith
limit_bounds (negsuc v) (pos d) (pos m) h k = ground arith
limit_bounds v (pos d) (negsuc m) h k = omega (arith, h, k)
limit_bounds v (negsuc d) m h k = omega (arith, h)
