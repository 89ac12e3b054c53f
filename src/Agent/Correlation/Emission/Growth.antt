-- ===== src/Agent/Correlation/Emission/Growth.antt =====
-- What a dump has a row about, every later dump of the run has a row about.
use windows_fileserver_heatm.Prelude.{
  ℕ, ◌≡◌, refl, sym, ◌∙◌, ap, Option, none, some, List, [], ◌∷◌, Bool, true, any, flat_map,
}
use windows_fileserver_heatm.Prelude.Any.{any-sort_by, any-flat_map, any-map, any-imp, any-modify}
use windows_fileserver_heatm.Prelude.Int.{ℤ}
use windows_fileserver_heatm.Prelude.Map.{Map, modify}
use windows_fileserver_heatm.Prelude.Order.{nat_ord, int_ord, list_ord, pair_ord, option_ord}
use windows_fileserver_heatm.Prelude.Text.{Text}
use windows_fileserver_heatm.Agent.Platform.{Platform}
use windows_fileserver_heatm.Agent.Inventory.{Inventory}
use windows_fileserver_heatm.Agent.Events.{GuidKey, SmbEvent, tree_connect, open_file}
use windows_fileserver_heatm.Agent.Correlation.{
  Access, read, write, metadata, HeatKey, DayCount, CorrelationEngine, classify_access, record_open,
  apply_open, apply, run_trace, resolve_name,
}
use windows_fileserver_heatm.Agent.Correlation.Emission.{
  EmitRow, cmp_emit_row, classify_key, outcome, kept_as, day_row, day_rows, key_rows, emit_rows,
}

abbrev Slot : Type 0
Slot = HeatKey × Map ℤ DayCount

module _ (platform : Platform) (about : Text → Text → ℤ → Bool) where
  -- The row is about such a share, path and day.
  abbrev at : EmitRow → Bool
  at r = about r.share r.path r.day

  abbrev at_slot : CorrelationEngine → Slot → Bool
  at_slot e slot = any at (key_rows platform e slot)

  -- Some row of the dump is about such a share, path and day.
  abbrev pub reports : CorrelationEngine → Bool
  reports e = any at (emit_rows platform e)

  reports_lem : (e : CorrelationEngine) → reports e ≡ any (at_slot e) e.heat
  unfolding emit_rows
  reports_lem e =
      any-sort_by cmp_emit_row at (flat_map (key_rows platform e) e.heat)
      ∙ any-flat_map at (key_rows platform e) e.heat

  at_days :
      (kept : Option (Text × Option ℕ × List Text)) (path : Text) (day : ℤ)
      (bump : DayCount → DayCount) (days : Map ℤ DayCount)
      → any at (day_rows kept path days) ≡ true
      → any at (day_rows kept path (modify day (record { reads = 0; writes = 0 }) bump days)) ≡ true
  at_days none path day bump days t = t
  at_days (some (share, alloc, flags)) path day bump days t =
      any-map at (day_row share alloc flags path) (modify day _ bump days)
      ∙ any-modify (λ (d : ℤ × DayCount). about share path d.0) day _ bump (λ j v h. h) days
          (sym (any-map at (day_row share alloc flags path) days) ∙ t)

-- A test of the table's keys that no further count of a key ends.
abbrev IsLasting : (Slot → Bool) → Type 0
IsLasting p =
    (key : HeatKey) (days : Map ℤ DayCount) (day : ℤ) (bump : DayCount → DayCount)
    → p (key, days) ≡ true
    → p (key, modify day (record { reads = 0; writes = 0 }) bump days) ≡ true

module _ (platform : Platform) where
  any-record_open :
      (p : Slot → Bool)
      → IsLasting p
      → (g : Option GuidKey) (path : Text) (kind : Access) (day : ℤ) (e : CorrelationEngine)
      → any p e.heat ≡ true
      → any p (record_open platform g path kind day e).heat ≡ true
  unfolding record_open
  any-record_open p lasting g path kind day e t =
      any-modify p _ [] _ (λ key days h. lasting key days day _ h) e.heat t

  any-apply :
      (p : Slot → Bool)
      → IsLasting p
      → (ev : SmbEvent) (filetime : ℤ) (e : CorrelationEngine) → any p e.heat ≡ true
      → any p (apply platform ev filetime e).0.heat ≡ true
  unfolding apply apply_open
  any-apply p lasting (tree_connect g share) filetime e t = t
  any-apply p lasting (open_file opened tree g path access) filetime e t =
      by_kind (classify_access access)
    where
      by_kind :
          (kind : Access)
          → any p (apply_open platform kind opened tree g path access filetime e).0.heat ≡ true
      by_kind metadata = t
      by_kind read = any-record_open p lasting g path read _ e t
      by_kind write = any-record_open p lasting g path write _ e t

  any-run_trace :
      (p : Slot → Bool)
      → IsLasting p
      → (log : List (SmbEvent × ℤ)) (e : CorrelationEngine) → any p e.heat ≡ true
      → any p (run_trace platform log e).heat ≡ true
  unfolding run_trace
  any-run_trace p lasting [] e t = t
  any-run_trace p lasting ((ev, filetime) ∷ log) e t =
      any-run_trace p lasting log _ (any-apply p lasting ev filetime e t)

  -- What was loaded stays.
  abbrev loaded : CorrelationEngine → Inventory × List Text
  loaded e = (e.inventory, e.walked_shares)

  loaded-apply :
      (ev : SmbEvent) (filetime : ℤ) (e : CorrelationEngine)
      → loaded (apply platform ev filetime e).0 ≡ loaded e
  unfolding apply apply_open record_open
  loaded-apply (tree_connect g share) filetime e = refl
  loaded-apply (open_file opened tree g path access) filetime e = by_kind (classify_access access)
    where
      by_kind :
          (kind : Access)
          → loaded (apply_open platform kind opened tree g path access filetime e).0 ≡ loaded e
      by_kind metadata = refl
      by_kind read = refl
      by_kind write = refl

  loaded-run_trace :
      (log : List (SmbEvent × ℤ)) (e : CorrelationEngine)
      → loaded (run_trace platform log e) ≡ loaded e
  unfolding run_trace
  loaded-run_trace [] e = refl
  loaded-run_trace ((ev, filetime) ∷ log) e = loaded-run_trace log _ ∙ loaded-apply ev filetime e

  same_rows :
      (e later : CorrelationEngine)
      → loaded later ≡ loaded e
      → (g : Option GuidKey) (path : Text) (days : Map ℤ DayCount)
      → resolve_name later g ≡ resolve_name e g
      → key_rows platform later ((g, path), days) ≡ key_rows platform e ((g, path), days)
  unfolding key_rows outcome
  same_rows e later same g path days name =
      let share = resolve_name e g in
      rw name (
        ap
          (λ (l : Inventory × List Text).
            day_rows (kept_as platform share (classify_key platform share path l.0 l.1)) path days)
          same)

  at_slot-IsLasting :
      (about : Text → Text → ℤ → Bool) (e : CorrelationEngine)
      → IsLasting (at_slot platform about e)
  unfolding key_rows
  at_slot-IsLasting about e (g, path) days day bump t =
      at_days platform about
        (kept_as platform (resolve_name e g) (outcome platform e (resolve_name e g) path)) path day
        bump days t

  -- The trace goes on: what a dump has a row about, a dump after any further events has a row about,
  -- where each ShareGUID has the name at the second that it had at the first.
  pub reports-run_trace :
      (about : Text → Text → ℤ → Bool) (log : List (SmbEvent × ℤ)) (e : CorrelationEngine)
      → ((g : Option GuidKey) → resolve_name (run_trace platform log e) g ≡ resolve_name e g)
      → reports platform about e ≡ true
      → reports platform about (run_trace platform log e) ≡ true
  reports-run_trace about log e names t =
      let later = run_trace platform log e in
      let in_table : any (at_slot platform about e) later.heat ≡ true =
        any-run_trace (at_slot platform about e) (at_slot-IsLasting about e) log e
          (sym (reports_lem platform about e) ∙ t) in
      reports_lem platform about later
      ∙ any-imp (at_slot platform about e) (at_slot platform about later)
          (λ (slot : Slot) h.
            ap (any (at platform about))
              (same_rows e later (loaded-run_trace log e) slot.0.0 slot.0.1 slot.1 (names slot.0.0))
            ∙ h)
          later.heat in_table
