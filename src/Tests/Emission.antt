-- ===== src/Tests/Emission.antt =====
-- A heat table of two entries, yielded in either order.
use mathlib.Core.List.{Nodup-cons, Pairwise-singleton, mem-cons, not-mem-nil}
use mathlib.Core.Logic.Or
use mathlib.Core.HLevel.{⊥_prop}
use mathlib.Core.List.Perm
use windows_fileserver_heatm.Prelude.{ℕ, ◌≡◌, ◌≢◌, ap, none, some, [], ◌∷◌, arith}
use windows_fileserver_heatm.Prelude.Int.{pos}
use windows_fileserver_heatm.Prelude.Order.{nat_ord, int_ord, list_ord, pair_ord}
use windows_fileserver_heatm.Prelude.Map.{lookup}
use windows_fileserver_heatm.Prelude.Sort.{sort_by, insert_by}
use windows_fileserver_heatm.Prelude.Text.{text}
use windows_fileserver_heatm.Agent.Correlation.{CorrelationEngine, empty_engine, resolve_name}
use windows_fileserver_heatm.Agent.Correlation.Emission.{
  emit_rows, key_rows, outcome, classify_key, kept_as, cmp_emit_row,
}
use windows_fileserver_heatm.Agent.Correlation.Emission.HashOrder.{
  HeatTable, with_heat, HasNoTies, emit_rows-with_heat,
}
use windows_fileserver_heatm.Agent.Correlation.Emission.Order.{EmitKey}
use windows_fileserver_heatm.Tests.Agent.{ascii_platform}

abbrev in_order : HeatTable
in_order =
    ((none, text "a"), (pos 3, record { reads = 1; writes = 0 }) ∷ [])
    ∷ ((none, text "b"), (pos 3, record { reads = 2; writes = 0 }) ∷ [])
    ∷ []

abbrev reversed : HeatTable
reversed =
    ((none, text "b"), (pos 3, record { reads = 2; writes = 0 }) ∷ [])
    ∷ ((none, text "a"), (pos 3, record { reads = 1; writes = 0 }) ∷ [])
    ∷ []

abbrev two_files : CorrelationEngine
two_files = record empty_engine { heat = in_order }

-- The first byte of a key's path.
abbrev first_byte : EmitKey → ℕ
first_byte (share, ([], day)) = 0
first_byte (share, (c ∷ path, day)) = c

two_files-HasNoTies : HasNoTies ascii_platform two_files
unfolding key_rows outcome classify_key kept_as resolve_name
two_files-HasNoTies =
    let a : EmitKey = (text "unknown", (text "a", pos 3)) in
    let b : EmitKey = (text "unknown", (text "b", pos 3)) in
    let differ : a ≢ b = λ e. omega (arith, ap first_byte e) in
    Nodup-cons.1 (λ m. Or.elim ⊥_prop (mem-cons.0 m) differ not-mem-nil, Pairwise-singleton _ b)

emit_rows-with_heat_example :
    emit_rows ascii_platform (with_heat reversed two_files) ≡ emit_rows ascii_platform two_files
emit_rows-with_heat_example =
    emit_rows-with_heat ascii_platform two_files reversed (Perm.swap _ _ _) two_files-HasNoTies

-- Two shares without a name, and the same path below both.
abbrev tied : HeatTable
tied =
    ((some 1, text "a"), (pos 3, record { reads = 1; writes = 0 }) ∷ [])
    ∷ ((some 2, text "a"), (pos 3, record { reads = 2; writes = 0 }) ∷ [])
    ∷ []

abbrev tied_reversed : HeatTable
tied_reversed =
    ((some 2, text "a"), (pos 3, record { reads = 2; writes = 0 }) ∷ [])
    ∷ ((some 1, text "a"), (pos 3, record { reads = 1; writes = 0 }) ∷ [])
    ∷ []

order_shows_in_ties :
    emit_rows ascii_platform (with_heat tied two_files)
    ≢ emit_rows ascii_platform (with_heat tied_reversed two_files)
unfolding emit_rows key_rows outcome classify_key kept_as resolve_name sort_by insert_by
    cmp_emit_row lookup
order_shows_in_ties e = ground arith
