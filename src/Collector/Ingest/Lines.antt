-- ===== src/Collector/Ingest/Lines.antt =====
-- collector/src/ingest.rs: a body that is made of lines is split into these lines.
use mathlib.Core.List.{append_assoc}
use windows_fileserver_heatm.Prelude.{◌≡◌, refl, sym, ◌∙◌, ap, List, [], ◌∷◌, ◌++◌}
use windows_fileserver_heatm.Prelude.Text.{Text, newline, split, Free, split-append}
use windows_fileserver_heatm.Collector.Ingest.{drop_last_empty, split_ndjson}

-- Lines, each ended by a newline.
abbrev pub unlines : List Text → Text
unlines [] = []
unlines (l ∷ ls) = l ++ newline ∷ unlines ls

abbrev pub AllFree : List Text → Type 0
AllFree [] = Unit
AllFree (l ∷ ls) = Free newline l × AllFree ls

drop_last_empty_lem : (ls : List Text) → drop_last_empty (ls ++ [] ∷ []) ≡ ls
drop_last_empty_lem [] = refl
drop_last_empty_lem ([] ∷ []) = refl
drop_last_empty_lem ((c ∷ l) ∷ []) = refl
drop_last_empty_lem ([] ∷ m ∷ ls) = ap (λ t. [] ∷ t) (drop_last_empty_lem (m ∷ ls))
drop_last_empty_lem ((c ∷ l) ∷ m ∷ ls) = ap (λ t. (c ∷ l) ∷ t) (drop_last_empty_lem (m ∷ ls))

split-unlines : (ls : List Text) → AllFree ls → split newline (unlines ls) ≡ ls ++ [] ∷ []
split-unlines [] h = unfold split in refl
split-unlines (l ∷ ls) h =
    split-append newline l (unlines ls) h.0 ∙ ap (λ t. l ∷ t) (split-unlines ls h.1)

-- A text of lines without newlines is split into these lines.
pub split_ndjson-unlines : (ls : List Text) → AllFree ls → split_ndjson (unlines ls) ≡ ls
unfolding split_ndjson
split_ndjson-unlines ls h = rw (split-unlines ls h) (drop_last_empty_lem ls)

pub unlines-append : (ls ms : List Text) → unlines (ls ++ ms) ≡ unlines ls ++ unlines ms
unlines-append [] ms = refl
unlines-append (l ∷ ls) ms =
    ap (λ t. l ++ newline ∷ t) (unlines-append ls ms)
    ∙ sym (append_assoc l (newline ∷ unlines ls) (unlines ms))
