-- ===== src/Collector/Ingest/Framing.antt =====
-- Exactly which line sequences `parse_body_lines` accepts.
use windows_fileserver_heatm.Prelude.{
  ℕ, ◌+◌, ◌-◌, ◌≡◌, refl, sym, ◌∙◌, ap, ◌↔◌, Option, none, some, List, [], ◌∷◌, ◌++◌, length,
  length-append, arith,
}
use mathlib.Core.Path.{ap₂, subst}
use native.Mathlib.Nat.{add-zero}
use mathlib.Core.List.{append_assoc, append-nil}
use windows_fileserver_heatm.Prelude.Order.{nat_ord}
use windows_fileserver_heatm.Prelude.Text.{Text}
use windows_fileserver_heatm.Prelude.Result.{Result, ok, err, >>=-eq-ok}
use windows_fileserver_heatm.Collector.Ingest.{
  BodyLine, row, footer, DumpRow, Wire, Progress, body_step, body_loop, check_footer,
  parse_body_lines,
}

module _ (wire : Wire) where
  -- Each line parses as the row at its place.
  abbrev pub ParseAs : List Text → List DumpRow → Type 0
  ParseAs [] [] = Unit
  ParseAs (l ∷ ls) (r ∷ rs) = (wire.body_from_str l ≡ ok (row r)) × ParseAs ls rs
  ParseAs _ _ = ⊥

  -- Row lines and then one footer with their number.
  pub record IsFramed (lines : List Text) (rows : List DumpRow) : Type 0 where
    pub row_lines : List Text
    pub last : Text
    pub split : lines ≡ row_lines ++ last ∷ []
    pub parsed : ParseAs row_lines rows
    pub counted : wire.body_from_str last ≡ ok (footer (length rows))

  -- What the loop has seen when it ends with a footer.
  record Seen (lines : List Text) (before after : List DumpRow) (declared : ℕ) : Type 0 where
    row_lines : List Text
    last : Text
    more : List DumpRow
    split : lines ≡ row_lines ++ last ∷ []
    parsed : ParseAs row_lines more
    appended : after ≡ before ++ more
    ended : wire.body_from_str last ≡ ok (footer declared)

  -- Nothing is accepted behind the last line.
  loop_at_end :
      (lines : List Text) (i n : ℕ) (p q : Progress)
      → i + length lines ≡ n
      → i ≡ n
      → body_loop wire lines i n p ≡ ok q
      → (lines ≡ []) × (p ≡ q)
  unfolding body_loop
  loop_at_end [] i n p q h e r = (refl, cc)
  loop_at_end (l ∷ ls) i n p q h e r = absurd (omega arith)

  -- The two ways in which a round goes on.
  data Round (i n : ℕ) (line : Text) (rows : List DumpRow) (p : Progress) : Type 0 where
    at_row :
        (r : DumpRow)
        → wire.body_from_str line ≡ ok (row r)
        → p ≡ (rows ++ r ∷ [], none)
        → Round i n line rows p
    at_footer :
        (d : ℕ)
        → wire.body_from_str line ≡ ok (footer d)
        → i ≡ n - 1
        → p ≡ (rows, some d)
        → Round i n line rows p

  body_step-Round :
      (i n : ℕ) (line : Text) (rows : List DumpRow) (p : Progress) (x : Result Text BodyLine)
      → wire.body_from_str line ≡ x
      → body_step wire i n x (rows, none) ≡ ok p
      → Round i n line rows p
  unfolding body_step
  body_step-Round i n line rows p (err e) h q = absurd (cc)
  body_step-Round i n line rows p (ok (row r)) h q = at_row r h (ground arith)
  body_step-Round i n line rows p (ok (footer d)) h q = at_footer d h (ground arith) (ground arith)

  cons-Seen :
      (l : Text) (ls : List Text) (r : DumpRow) (before after : List DumpRow) (declared : ℕ)
      → wire.body_from_str l ≡ ok (row r)
      → Seen ls (before ++ r ∷ []) after declared
      → Seen (l ∷ ls) before after declared
  cons-Seen l ls r before after declared e s = record {
    row_lines = l ∷ s.row_lines;
    last = s.last;
    more = r ∷ s.more;
    split = ap (λ t. l ∷ t) s.split;
    parsed = (e, s.parsed);
    appended = s.appended ∙ append_assoc before (r ∷ []) s.more;
    ended = s.ended;
  }

  last-Seen :
      (l : Text) (ls : List Text) (before after : List DumpRow) (d declared : ℕ)
      → wire.body_from_str l ≡ ok (footer d)
      → ls ≡ []
      → Path Progress (before, some d) (after, some declared)
      → Seen (l ∷ ls) before after declared
  last-Seen l ls before after d declared e nothing same = record {
    row_lines = [];
    last = l;
    more = [];
    split = ap (λ t. l ∷ t) nothing;
    parsed = tt;
    appended = sym (ap (λ (p : Progress). p.0) same) ∙ sym (append-nil before);
    ended = rw e (ground arith);
  }

  body_loop-Seen :
      (lines : List Text) (i n : ℕ) (before after : List DumpRow) (declared : ℕ)
      → i + length lines ≡ n
      → body_loop wire lines i n (before, none) ≡ ok (after, some declared)
      → Seen lines before after declared
  unfolding body_loop
  body_loop-Seen [] i n before after declared h q = absurd (cc)
  body_loop-Seen (l ∷ ls) i n before after declared h q =
      let (p, first, rest) =
        >>=-eq-ok (body_step wire i n (wire.body_from_str l) (before, none))
          (λ p. body_loop wire ls (i + 1) n p) q in
      by_round p rest (body_step-Round i n l before p (wire.body_from_str l) refl first)
        (λ r e. body_loop-Seen ls (i + 1) n (before ++ r ∷ []) after declared (omega arith) e)
    where
      by_round :
          (p : Progress)
          → body_loop wire ls (i + 1) n p ≡ ok (after, some declared)
          → Round i n l before p
          → ((r : DumpRow)
              → body_loop wire ls (i + 1) n (before ++ r ∷ [], none) ≡ ok (after, some declared)
              → Seen ls (before ++ r ∷ []) after declared)
          → Seen (l ∷ ls) before after declared
      by_round p rest (at_row r e s) ih =
          cons-Seen l ls r before after declared e (ih r (rw s at rest))
      by_round p rest (at_footer d e final s) ih =
          let (nothing, same) =
            loop_at_end ls (i + 1) n p (after, some declared) (omega arith) (omega arith) rest in
          last-Seen l ls before after d declared e nothing (sym s ∙ same)

  -- The other way: a framed sequence runs through the loop.
  loop_rows :
      (row_lines : List Text) (rest : List Text) (i n : ℕ) (before more : List DumpRow)
      → ParseAs row_lines more
      → body_loop wire (row_lines ++ rest) i n (before, none)
        ≡ body_loop wire rest (i + length row_lines) n (before ++ more, none)
  unfolding body_loop body_step
  loop_rows [] rest i n before [] h = rw (append-nil before, add-zero i)
  loop_rows (l ∷ ls) rest i n before [] h = absurd h
  loop_rows [] rest i n before (r ∷ more) h = absurd h
  loop_rows (l ∷ ls) rest i n before (r ∷ more) h = rw h.0 (
      loop_rows ls rest (i + 1) n (before ++ r ∷ []) more h.1
      ∙ ap₂ (λ k t. body_loop wire rest k n (t, none)) (omega arith)
          (append_assoc before (r ∷ []) more))

  parse-IsFramed :
      (lines : List Text) (rows after : List DumpRow) (f : Option ℕ)
      → body_loop wire lines 0 (length lines) ([], none) ≡ ok (after, f)
      → check_footer wire (after, f) ≡ ok rows
      → IsFramed lines rows
  unfolding check_footer
  parse-IsFramed lines rows after none first rest = absurd (cc)
  parse-IsFramed lines rows after (some d) first rest =
      let s = body_loop-Seen lines 0 (length lines) [] after d (omega arith) first in
      let number : d ≡ length after = ground arith in
      let same : after ≡ rows = ground arith in
      record {
        row_lines = s.row_lines;
        last = s.last;
        split = s.split;
        parsed = subst (ParseAs s.row_lines) (sym s.appended ∙ same) s.parsed;
        counted = s.ended ∙ ap (λ k. ok (footer k)) (number ∙ ap length same);
      }

  loop_framed :
      (row_lines : List Text) (last : Text) (rows : List DumpRow) (n : ℕ)
      → n ≡ length row_lines + 1
      → ParseAs row_lines rows
      → wire.body_from_str last ≡ ok (footer (length rows))
      → body_loop wire (row_lines ++ last ∷ []) 0 n ([], none) ≡ ok (rows, some (length rows))
  loop_framed row_lines last rows n long parsed counted =
      loop_rows row_lines (last ∷ []) 0 n [] rows parsed
      ∙ (unfold body_loop body_step in rw counted (ground arith))

  -- `parse_body_lines` accepts a sequence of lines, and returns these rows, exactly when it is the
  -- lines of these rows, each parsed, and then a single footer that declares their number. So a row
  -- behind the footer, a second or a missing footer, a wrong number and a line that does not parse
  -- are all refused.
  pub parse_body_lines_iff :
      (lines : List Text) (rows : List DumpRow)
      → (parse_body_lines wire lines ≡ ok rows) ↔ IsFramed lines rows
  parse_body_lines_iff lines rows = (accepts, accepted)
    where
      accepts : parse_body_lines wire lines ≡ ok rows → IsFramed lines rows
      accepts h =
          let (p, first, rest) =
            >>=-eq-ok (body_loop wire lines 0 (length lines) ([], none)) (check_footer wire)
              {b = rows} (unfold parse_body_lines in h) in
          parse-IsFramed lines rows p.0 p.1 first rest

      accepted : IsFramed lines rows → parse_body_lines wire lines ≡ ok rows
      accepted f =
          let long : length lines ≡ length f.row_lines + 1 =
            ap length f.split ∙ length-append f.row_lines (f.last ∷ []) in
          let through =
            ap (λ t. body_loop wire t 0 (length lines) ([], none)) f.split
            ∙ loop_framed f.row_lines f.last rows (length lines) long f.parsed f.counted in
          unfold parse_body_lines in rw through (unfold check_footer in ground arith)
