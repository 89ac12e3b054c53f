-- ===== src/Agent/Inventory/Rounding.antt =====
-- Rounding a size up to whole clusters.
use native.Mathlib.Nat.{div-add-mod', mul-mod_left}
use windows_fileserver_heatm.Prelude.{
  ℕ, zero, suc, ◌+◌, ◌-◌, ◌*◌, ◌/◌, ◌%◌, ◌^◌, ◌<◌, ◌≤◌, ◌≡◌, false, arith,
}
use windows_fileserver_heatm.Prelude.Order.{nat_ord, ◌==◌}
use windows_fileserver_heatm.Agent.Inventory.{round_up}

nonzero : (m : ℕ) → (suc m == 0) ≡ false
nonzero m = ground arith

-- For a cluster that is not empty, where the sum of size and cluster fits 64 bits, the result is a
-- multiple of the cluster, at least the size, and less than one cluster above it.
pub round_up-bounds :
    (n cluster : ℕ)
    → 0 < cluster
    → n + cluster < 2 ^ 64
    → (round_up n cluster % cluster ≡ 0)
      × (n ≤ round_up n cluster)
      × (round_up n cluster < n + cluster)
unfolding round_up
round_up-bounds zero cluster some_cluster fits = (omega arith, omega arith, omega arith)
round_up-bounds (suc n) zero some_cluster fits = absurd (omega arith)
round_up-bounds (suc n) (suc c) some_cluster fits =
    rw (nonzero n, nonzero c, within)
      (
        mul-mod_left ((suc n + c) / suc c) (suc c),
        omega (arith, whole, part),
        omega (arith, whole, part),
      )
  where
    whole : (suc n + c) / suc c * suc c + (suc n + c) % suc c ≡ suc n + c
    whole = div-add-mod' (suc n + c) (suc c)

    part : (suc n + c) % suc c < suc c
    part = omega arith

    inner : ((suc n + suc c) % 2 ^ 64 + 2 ^ 64 - 1) % 2 ^ 64 ≡ suc n + c
    inner = omega arith

    within :
        ((suc n + suc c) % 2 ^ 64 + 2 ^ 64 - 1) % 2 ^ 64 / suc c * suc c % 2 ^ 64
        ≡ (suc n + c) / suc c * suc c
    within = rw inner (omega (arith, whole))
