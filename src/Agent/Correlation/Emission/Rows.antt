-- ===== src/Agent/Correlation/Emission/Rows.antt =====
-- The rows of a dump against the heat table, and what a dump without an inventory holds.
use windows_fileserver_heatm.Prelude.{
  ℕ, ◌≡◌, refl, ◌∙◌, sym, count, [], ◌∷◌, true, if◌then◌else◌, length, map, flat_map, All, sum_of,
  length-map, length-flat_map, sum_of-map, sum_of-All, count-All, All-flat_map, All-map, arith,
}
use windows_fileserver_heatm.Prelude.Int.{ℤ}
use windows_fileserver_heatm.Prelude.Sort.{length-sort_by, sum_of-sort_by, All-sort_by}
use windows_fileserver_heatm.Prelude.Map.{Map}
use windows_fileserver_heatm.Prelude.Text.{Text, text}
use windows_fileserver_heatm.Agent.Platform.{Platform}
use windows_fileserver_heatm.Agent.Correlation.{HeatKey, DayCount, CorrelationEngine, resolve_name}
use windows_fileserver_heatm.Agent.Correlation.Activity.{IsActive, IsRow, IsWellFormed}
use windows_fileserver_heatm.Agent.Correlation.Emission.{
  KeyOutcome, leaf, restat, unresolved_share, drop_root, drop_dir, drop_non_walked_share, EmitRow,
  cmp_emit_row, classify_key, outcome, kept_as, day_row, day_rows, key_rows, emit_rows,
}
use windows_fileserver_heatm.Agent.Correlation.Summary.{
  HeatRow, is_active, heat_row, cmp_heat_row, resolved_summary,
}
use windows_fileserver_heatm.Agent.Correlation.Emission.Reconcile.{is_kept, joins}

abbrev Slot : Type 0
Slot = HeatKey × Map ℤ DayCount

active_of_IsActive : (n : ℕ) (d : ℤ × DayCount) → IsActive n d.1 → is_active d ≡ true
active_of_IsActive n (day, dc) h = ground arith

module _ (platform : Platform) where
  length-day_rows :
      (share path : Text) (o : KeyOutcome) (days : Map ℤ DayCount)
      → length (day_rows (kept_as platform share o) path days)
        ≡ (if is_kept o then length days else 0)
  unfolding kept_as
  length-day_rows share path (leaf n) days = length-map {0, 0} (day_row _ _ _ path) days
  length-day_rows share path restat days = length-map {0, 0} (day_row _ _ _ path) days
  length-day_rows share path unresolved_share days = length-map {0, 0} (day_row _ _ _ path) days
  length-day_rows share path drop_root days = refl
  length-day_rows share path drop_dir days = refl
  length-day_rows share path drop_non_walked_share days = refl

module _ (platform : Platform) (e : CorrelationEngine) where
  -- The active days of a row that the join keeps.
  abbrev pub joined_days : HeatRow → ℕ
  joined_days r = if joins platform e r then r.active_days else 0

  length-key_rows :
      (n : ℕ) (slot : Slot)
      → IsRow n slot.1
      → length (key_rows platform e slot) ≡ joined_days (heat_row e slot)
  unfolding key_rows heat_row
  length-key_rows n ((g, path), days) h =
      let all_active : count is_active days ≡ length days =
        count-All (λ (d : ℤ × DayCount). IsActive n d.1) is_active days (active_of_IsActive n)
          h.active in
      rw all_active (
        length-day_rows platform (resolve_name e g) path
          (outcome platform e (resolve_name e g) path) days)

  -- In a table that is well formed, the dump has exactly one row for each active day that the summary
  -- counts on the rows that the join with the inventory keeps: a leaf, a file to be looked up again,
  -- or a file of an unresolved share.
  pub length-emit_rows :
      (n : ℕ)
      → IsWellFormed n e
      → length (emit_rows platform e) ≡ sum_of joined_days (resolved_summary e)
  unfolding emit_rows resolved_summary
  length-emit_rows n h =
      length-sort_by cmp_emit_row (flat_map (key_rows platform e) e.heat)
      ∙ length-flat_map (key_rows platform e) e.heat
      ∙ sum_of-All (λ (s : Slot). IsRow n s.1) (λ s. length (key_rows platform e s))
          (λ s. joined_days (heat_row e s)) e.heat (length-key_rows n) h.rows
      ∙ sym (sum_of-map joined_days (heat_row e) e.heat)
      ∙ sym (sum_of-sort_by cmp_heat_row joined_days (map (heat_row e) e.heat))

  abbrev pub IsUnresolved : EmitRow → Type 0
  IsUnresolved r = (r.share ≡ text "unknown") × (r.flags ≡ text "unresolved_share" ∷ [])

  -- With no walked share nothing is joined: a key with a name is dropped.
  outcome_unwalked :
      e.walked_shares ≡ []
      → (share path : Text) → (o : KeyOutcome) → outcome platform e share path ≡ o
      → is_kept o ≡ true
      → o ≡ unresolved_share
  unfolding outcome classify_key
  outcome_unwalked none_walked share path o eq kept = ground arith

  key_rows_unwalked :
      e.walked_shares ≡ [] → (slot : Slot) → All IsUnresolved (key_rows platform e slot)
  unfolding key_rows
  key_rows_unwalked none_walked ((g, path), days) =
      by_outcome (outcome platform e (resolve_name e g) path) refl
    where
      by_outcome :
          (o : KeyOutcome)
          → outcome platform e (resolve_name e g) path ≡ o
          → All IsUnresolved (day_rows (kept_as platform (resolve_name e g) o) path days)
      by_outcome (leaf n) q = absurd (cc (outcome_unwalked none_walked _ _ (leaf n) q refl))
      by_outcome restat q = absurd (cc (outcome_unwalked none_walked _ _ restat q refl))
      by_outcome unresolved_share q =
          unfold kept_as in All-map IsUnresolved (day_row _ _ _ path) days (λ d. (refl, refl))
      by_outcome drop_root q = unfold kept_as in tt
      by_outcome drop_dir q = unfold kept_as in tt
      by_outcome drop_non_walked_share q = unfold kept_as in tt

  -- Where no share was walked, as in a run with no --share, every row of the dump is one of an
  -- unresolved share.
  pub emit_rows_unwalked : e.walked_shares ≡ [] → All IsUnresolved (emit_rows platform e)
  unfolding emit_rows
  emit_rows_unwalked none_walked =
      All-sort_by cmp_emit_row IsUnresolved (flat_map (key_rows platform e) e.heat)
        (All-flat_map IsUnresolved (key_rows platform e) e.heat (key_rows_unwalked none_walked))
