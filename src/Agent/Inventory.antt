-- ===== src/Agent/Inventory.antt =====
-- agent/src/inventory.rs: file sizes by share and path.
pub mod Rounding
pub mod Walking
pub mod Walked
pub mod Ordered
pub mod Summary
use Prim.Native.Nat.{bit_and}
use windows_fileserver_heatm.Prelude.{
  ℕ, ◌+◌, ◌-◌, ◌*◌, ◌/◌, ◌%◌, ◌^◌, Bool, not, ◌||◌, if◌then◌else◌,
}
use windows_fileserver_heatm.Prelude.Order.{nat_ord, list_ord, pair_ord, ◌==◌}
use windows_fileserver_heatm.Prelude.Map.{Map}
use windows_fileserver_heatm.Prelude.Text.{Text}

pub record Entry : Type 0 where
  pub logical : ℕ
  pub alloc : ℕ
  pub is_dir : Bool
  pub sparse : Bool
  pub compressed : Bool

-- Keyed by share name and normalized path.
abbrev pub Inventory : Type 0
Inventory = Map (Text × Text) Entry

pub record Walk : Type 0 where
  pub entries : Inventory
  pub reparse_skipped : ℕ
  pub cluster_size : ℕ

pub record Attrs : Type 0 where
  pub is_dir : Bool
  pub sparse : Bool
  pub compressed : Bool
  pub reparse : Bool

abbrev pub file_attribute_directory : ℕ
file_attribute_directory = 0x010

abbrev pub file_attribute_sparse_file : ℕ
file_attribute_sparse_file = 0x200

abbrev pub file_attribute_reparse_point : ℕ
file_attribute_reparse_point = 0x400

abbrev pub file_attribute_compressed : ℕ
file_attribute_compressed = 0x800

unfoldable pub classify_attrs : ℕ → Attrs
classify_attrs a = record {
  is_dir = not (bit_and a file_attribute_directory == 0);
  sparse = not (bit_and a file_attribute_sparse_file == 0);
  compressed = not (bit_and a file_attribute_compressed == 0);
  reparse = not (bit_and a file_attribute_reparse_point == 0);
}

-- `u64` arithmetic wraps: the release profile has no overflow checks.
unfoldable pub round_up : ℕ → ℕ → ℕ
round_up n cluster =
    if n == 0 || cluster == 0
    then n
    else ((n + cluster) % 2 ^ 64 + 2 ^ 64 - 1) % 2 ^ 64 / cluster * cluster % 2 ^ 64
