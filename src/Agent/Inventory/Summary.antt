-- ===== src/Agent/Inventory/Summary.antt =====
-- agent/src/inventory.rs: the summary that the `walk` command prints.
use Prim.Native.Nat.{compare, Ordering}
use windows_fileserver_heatm.Prelude.{
  ℕ, ◌+◌, ◌%◌, ◌^◌, List, [], ◌∷◌, ◌++◌, Bool, not, if◌then◌else◌, take,
}
use windows_fileserver_heatm.Prelude.Lists.{filter_by}
use windows_fileserver_heatm.Prelude.Order.{nat_ord, list_ord, cmp_list, then_with}
use windows_fileserver_heatm.Prelude.Sort.{sort_by}
use windows_fileserver_heatm.Prelude.Text.{Text, text, cat, decimal, pad_left, newline}
use windows_fileserver_heatm.Agent.Inventory.{Entry, Inventory, Walk}

pub record Totals : Type 0 where
  pub files : ℕ
  pub dirs : ℕ
  pub total_logical : ℕ
  pub total_alloc : ℕ
  pub sparse : ℕ
  pub compressed : ℕ

abbrev pub no_totals : Totals
no_totals = record {
  files = 0;
  dirs = 0;
  total_logical = 0;
  total_alloc = 0;
  sparse = 0;
  compressed = 0;
}

-- `+=` on a `u64`.
abbrev pub add64 : ℕ → ℕ → ℕ
add64 m n = (m + n) % 2 ^ 64

abbrev pub flag : Bool → ℕ
flag b = if b then 1 else 0

-- The loop's body.
abbrev pub add_entry : Entry → Totals → Totals
add_entry e t =
    let sized : Totals = if e.is_dir then record t { dirs = add64 t.dirs 1 } else record t {
      files = add64 t.files 1;
      total_logical = add64 t.total_logical e.logical;
      total_alloc = add64 t.total_alloc e.alloc;
    } in
    record sized {
      sparse = if e.sparse then add64 sized.sparse 1 else sized.sparse;
      compressed = if e.compressed then add64 sized.compressed 1 else sized.compressed;
    }

unfoldable pub totals_of : Inventory → Totals → Totals
totals_of [] t = t
totals_of ((key, e) ∷ entries) t = totals_of entries (add_entry e t)

-- Largest first, then by path.
unfoldable pub cmp_alloc : (Text × Text) × Entry → (Text × Text) × Entry → Ordering
cmp_alloc a b = then_with (compare b.1.alloc a.1.alloc) (cmp_list a.0.1 b.0.1)

-- The files, sorted.
unfoldable pub top_files : Inventory → List ((Text × Text) × Entry)
top_files entries =
    sort_by cmp_alloc (filter_by (λ (k : (Text × Text) × Entry). not k.1.is_dir) entries)

abbrev file_line : (Text × Text) × Entry → Text
file_line ((share, path), e) = cat (
    text "  "
    ∷ pad_left b' ' 14 (decimal e.alloc)
    ∷ text " alloc  ("
    ∷ pad_left b' ' 14 (decimal e.logical)
    ∷ text " logical)  "
    ∷ path
    ∷ (newline ∷ [])
    ∷ [])

abbrev file_lines : List ((Text × Text) × Entry) → Text
file_lines [] = []
file_lines (f ∷ fs) = file_line f ++ file_lines fs

-- `tb` stands for `{:.3}` of a number of bytes, divided as an `f64` by 10 ^ 12.
unfoldable pub summary : (ℕ → Text) → Walk → Text
summary tb w =
    let t = totals_of w.entries no_totals in
    cat (
      text "cluster_size: "
      ∷ decimal w.cluster_size
      ∷ text " bytes"
      ∷ (newline ∷ [])
      ∷ text "files: "
      ∷ decimal t.files
      ∷ text "   dirs: "
      ∷ decimal t.dirs
      ∷ (newline ∷ [])
      ∷ text "logical: "
      ∷ decimal t.total_logical
      ∷ text " bytes ("
      ∷ tb t.total_logical
      ∷ text " TB)"
      ∷ (newline ∷ [])
      ∷ text "alloc:   "
      ∷ decimal t.total_alloc
      ∷ text " bytes ("
      ∷ tb t.total_alloc
      ∷ text " TB)"
      ∷ (newline ∷ [])
      ∷ text "sparse: "
      ∷ decimal t.sparse
      ∷ text "   compressed: "
      ∷ decimal t.compressed
      ∷ text "   reparse-skipped: "
      ∷ decimal w.reparse_skipped
      ∷ (newline ∷ [])
      ∷ text "top 10 files by alloc:"
      ∷ (newline ∷ [])
      ∷ file_lines (take 10 (top_files w.entries))
      ∷ [])
