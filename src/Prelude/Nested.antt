-- ===== src/Prelude/Nested.antt =====
-- A map of maps, read at two keys: `m.get(&k).and_then(|n| n.get(&d)).copied().unwrap_or(d0)`.
use mathlib.Core.Path.{◌≡◌, refl, ap}
use mathlib.Core.Logic.{inl, inr}
use mathlib.Core.Bool.{◌&&◌}
use mathlib.Core.Option.{Option, none, some, get_or}
use mathlib.Core.List.{[]}
use native.Mathlib.Omega.{arith}
use windows_fileserver_heatm.Prelude.Tests.{if◌then◌else◌, Bool-cases}
use windows_fileserver_heatm.Prelude.Order.{Ord, ◌==◌, ==_iff}
use windows_fileserver_heatm.Prelude.Map.{Map, lookup, modify, lookup-modify}

module _ {κ μ} {D : Type κ} {C : Type μ} ⦃p : Ord D⦄ (zero_cell : C) where
  abbrev pub cell_of : Option (Map D C) → D → C
  cell_of none d = zero_cell
  cell_of (some row) d = get_or (lookup d row) zero_cell

  cell_of-row :
      (row : Option (Map D C)) (d : D) → get_or (lookup d (get_or row [])) zero_cell ≡ cell_of row d
  unfolding lookup
  cell_of-row none d = refl
  cell_of-row (some row) d = ground arith

  cell_of-kept : (row : Option (Map D C)) (e : D) → cell_of (some (get_or row [])) e ≡ cell_of row e
  unfolding lookup
  cell_of-kept none e = refl
  cell_of-kept (some row) e = refl

  -- Changing one entry of a row, which is made if it is missing.
  cell_of-modify :
      (row : Option (Map D C)) (d e : D) (f : C → C)
      → cell_of (some (modify d zero_cell f (get_or row []))) e
        ≡ (if d == e then f (cell_of row e) else cell_of row e)
  cell_of-modify row d e f = elim (Bool-cases (d == e)) [
    | inl hit ↦
        let same : d ≡ e = (==_iff d e).0 hit in
        rw (lookup-modify d e zero_cell f (get_or row []), hit, same) (ap f (cell_of-row row e))
    | inr miss ↦ rw (lookup-modify d e zero_cell f (get_or row []), miss) (cell_of-kept row e)
  ]

module _ {ℓ κ μ} {K : Type ℓ} {D : Type κ} {C : Type μ} ⦃o : Ord K⦄ ⦃p : Ord D⦄
    (zero_cell : C) where
  abbrev pub cell : Map K (Map D C) → K → D → C
  cell m k d = cell_of zero_cell (lookup k m) d

  -- Changing one cell changes that cell and no other.
  pub cell-modify :
      (m : Map K (Map D C)) (k j : K) (d e : D) (f : C → C)
      → cell (modify k [] (modify d zero_cell f) m) j e
        ≡ (if (k == j) && (d == e) then f (cell m j e) else cell m j e)
  cell-modify m k j d e f = elim (Bool-cases (k == j)) [
    | inr other ↦ rw (lookup-modify k j [] (modify d zero_cell f) m, other)
    | inl hit ↦
        let same : k ≡ j = (==_iff k j).0 hit in
        rw (lookup-modify k j [] (modify d zero_cell f) m, hit, same)
          (cell_of-modify zero_cell (lookup j m) d e f)
  ]
