-- ===== src/Agent/Correlation/Emission/Ascending.antt =====
-- The order of the rows of a dump, said without the comparison that sorts them.
use Prim.Native.Nat.{Ordering, ◌<◌, compare}
use Prim.Native.Nat.Ordering.{lt, eq, gt}
use mathlib.Core.List.{Perm}
use mathlib.Core.Path.{subst}
use windows_fileserver_heatm.Prelude.{
  ℕ, ◌≡◌, refl, List, [], ◌∷◌, true, flat_map, All, All-imp, arith,
}
use windows_fileserver_heatm.Prelude.Int.{leb_ℤ}
use windows_fileserver_heatm.Prelude.Order.{cmp_list, cmp_ℤ, list_ord, nat_ord, then_with}
use windows_fileserver_heatm.Prelude.Sort.{Sorted}
use windows_fileserver_heatm.Prelude.Text.{Text}
use windows_fileserver_heatm.Agent.Platform.{Platform}
use windows_fileserver_heatm.Agent.Correlation.{CorrelationEngine}
use windows_fileserver_heatm.Agent.Correlation.Emission.{EmitRow, cmp_emit_row, key_rows, emit_rows}
use windows_fileserver_heatm.Agent.Correlation.Emission.Order.{emit_rows-Sorted}

-- Of two texts the first is smaller byte by byte: it ends first, or has a smaller byte where they
-- first differ.
pub data IsBelow : Text → Text → Type 0 where
  ends : {d : ℕ} {t : Text} → IsBelow [] (d ∷ t)
  smaller : {c d : ℕ} {s t : Text} → c < d → IsBelow (c ∷ s) (d ∷ t)
  same : {c : ℕ} {s t : Text} → IsBelow s t → IsBelow (c ∷ s) (c ∷ t)

-- The share decides, then the path, then the day.
pub data InOrder (a b : EmitRow) : Type 0 where
  by_share : IsBelow a.share b.share → InOrder a b
  by_path : a.share ≡ b.share → IsBelow a.path b.path → InOrder a b
  by_day : a.share ≡ b.share → a.path ≡ b.path → leb_ℤ a.day b.day ≡ true → InOrder a b

-- Each row is in order with every later one.
abbrev pub AreInOrder : List EmitRow → Type 0
AreInOrder [] = Unit
AreInOrder (r ∷ rows) = All (InOrder r) rows × AreInOrder rows

cmp_list-IsBelow : (s t : Text) → cmp_list s t ≡ lt → IsBelow s t
cmp_list-IsBelow [] [] h = absurd (cc)
cmp_list-IsBelow [] (d ∷ t) h = ends
cmp_list-IsBelow (c ∷ s) [] h = absurd (cc)
cmp_list-IsBelow (c ∷ s) (d ∷ t) h = by_byte (compare c d) refl h (cmp_list-IsBelow s t)
  where
    by_byte :
        (o : Ordering)
        → compare c d ≡ o
        → then_with o (cmp_list s t) ≡ lt
        → (cmp_list s t ≡ lt → IsBelow s t)
        → IsBelow (c ∷ s) (d ∷ t)
    by_byte lt e h rest = smaller (ground arith)
    by_byte eq e h rest =
        let bytes : c ≡ d = nat_ord.eq_of_cmp c d e in
        subst (λ b. IsBelow (c ∷ s) (b ∷ t)) bytes (same (rest h))
    by_byte gt e h rest = absurd (cc)

cmp_emit_row-InOrder : (a b : EmitRow) → ¬ (cmp_emit_row a b ≡ gt) → InOrder a b
unfolding cmp_emit_row
cmp_emit_row-InOrder a b h =
    by_shares (cmp_list a.share b.share) refl (cmp_list a.path b.path) refl (cmp_ℤ a.day b.day) refl
      h
  where
    by_shares :
        (s : Ordering)
        → cmp_list a.share b.share ≡ s
        → (p : Ordering) → cmp_list a.path b.path ≡ p
        → (d : Ordering) → cmp_ℤ a.day b.day ≡ d
        → ¬ (then_with s (then_with p d) ≡ gt)
        → InOrder a b
    by_shares lt e p f d g h = by_share (cmp_list-IsBelow a.share b.share e)
    by_shares eq e lt f d g h =
        by_path (list_ord.eq_of_cmp a.share b.share e) (cmp_list-IsBelow a.path b.path f)
    by_shares eq e eq f lt g h =
        by_day (list_ord.eq_of_cmp a.share b.share e) (list_ord.eq_of_cmp a.path b.path f)
          (ground arith)
    by_shares eq e eq f eq g h =
        by_day (list_ord.eq_of_cmp a.share b.share e) (list_ord.eq_of_cmp a.path b.path f)
          (ground arith)
    by_shares eq e eq f gt g h = absurd (h refl)
    by_shares eq e gt f d g h = absurd (h refl)
    by_shares gt e p f d g h = absurd (h refl)

Sorted-AreInOrder : (rows : List EmitRow) → Sorted cmp_emit_row rows → AreInOrder rows
Sorted-AreInOrder [] h = tt
Sorted-AreInOrder (r ∷ rows) h = (
  All-imp (λ (b : EmitRow). ¬ (cmp_emit_row r b ≡ gt)) (InOrder r) (λ b. cmp_emit_row-InOrder r b)
      rows h.0,
  Sorted-AreInOrder rows h.1,
)

-- The rows of a dump are every row of every kept key, each in order with every later one: by the
-- bytes of the share, then by the bytes of the path, then by the day.
pub emit_rows-AreInOrder :
    (platform : Platform) (e : CorrelationEngine)
    → AreInOrder (emit_rows platform e)
      × Perm (emit_rows platform e) (flat_map (key_rows platform e) e.heat)
emit_rows-AreInOrder platform e =
    let (sorted, perm) = emit_rows-Sorted platform e in
    (Sorted-AreInOrder (emit_rows platform e) sorted, perm)
