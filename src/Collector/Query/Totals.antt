-- ===== src/Collector/Query/Totals.antt =====
-- The totals of a parent are the sums over the children that the response shows.
use mathlib.Core.Path.{subst}
use windows_fileserver_heatm.Prelude.{
  ℕ, ◌+◌, ◌^◌, ◌<◌, ◌≡◌, refl, ap, ◌∙◌, Option, none, some, List, [], ◌∷◌, Bool, true, false, ◌||◌,
  if◌then◌else◌, map, any, sum_of, arith,
}
use windows_fileserver_heatm.Prelude.Int.{ℤ, pos, negsuc, wrap_i64, ◌+ℤ◌}
use windows_fileserver_heatm.Prelude.Lists.{All, sum_of-map}
use windows_fileserver_heatm.Prelude.Result.{ok, ok_or, >>=-eq-ok}
use windows_fileserver_heatm.Prelude.Text.{Text, text}
use windows_fileserver_heatm.Collector.Query.{Std, Knobs}
use windows_fileserver_heatm.Collector.Query.Responses.{
  RawChild, ChildRow, ChildrenResponse, Connection, Sums, add_child, sum_children, no_sums,
  parent_totals_of, ParentTotals, child_row, children_response, children_query, child_depth_of,
  children,
}

-- A number of bytes, if it is known: DuckDB's sum of sizes is not negative.
abbrev pub IsByteCount : Option ℤ → Type 0
IsByteCount none = Unit
IsByteCount (some (pos n)) = Unit
IsByteCount (some (negsuc n)) = ⊥

abbrev pub byte_count : Option ℤ → ℕ
byte_count none = 0
byte_count (some (pos n)) = n
byte_count (some (negsuc n)) = 0

abbrev pub is_known : Option ℤ → Bool
is_known none = false
is_known (some b) = true

module _ (std : Std) where
  abbrev CountsBytes : List (RawChild std) → Type 0
  CountsBytes = All (λ c. IsByteCount c.bytes)

  abbrev raw_bytes : List (RawChild std) → ℕ
  raw_bytes = sum_of (λ c. byte_count c.bytes)

  wrap_small : (n : ℕ) → n < 2 ^ 63 → wrap_i64 (pos n) ≡ pos n
  wrap_small n h = ground arith

  add_bytes :
      (m : ℕ) (x : ℤ) (b : Option ℤ)
      → x ≡ pos m
      → IsByteCount b
      → m + byte_count b < 2 ^ 63
      → (elim b [ none ↦ x | some b ↦ wrap_i64 (x +ℤ b) ]) ≡ pos (m + byte_count b)
  unfolding ◌+ℤ◌
  add_bytes m x none e h fits = ground arith
  add_bytes m x (some (pos n)) e h fits = ground arith
  add_bytes m x (some (negsuc n)) e h fits = elim h [ ]

  sum_children-bytes :
      (raw : List (RawChild std)) (m : ℕ) (s : Sums std)
      → s.sum_bytes ≡ pos m
      → CountsBytes raw
      → m + raw_bytes raw < 2 ^ 63
      → (sum_children std raw s).sum_bytes ≡ pos (m + raw_bytes raw)
  unfolding sum_children
  sum_children-bytes [] m s e h fits = e ∙ ap pos (omega arith)
  sum_children-bytes (c ∷ raw) m s e h fits =
      sum_children-bytes raw (m + byte_count c.bytes) (add_child std c s)
        (add_bytes m s.sum_bytes c.bytes e h.0 (omega arith)) h.1 (omega arith)
      ∙ ap pos (omega arith)

  sum_children-any :
      (raw : List (RawChild std)) (s : Sums std)
      → (sum_children std raw s).any_bytes ≡ (s.any_bytes || any (λ c. is_known c.bytes) raw)
  unfolding sum_children
  sum_children-any [] s = ground arith
  sum_children-any (c ∷ raw) s = sum_children-any raw (add_child std c s) ∙ by_bytes c.bytes
    where
      by_bytes :
          (b : Option ℤ)
          → ((elim b [ none ↦ s.any_bytes | some _ ↦ true ]) || any (λ c. is_known c.bytes) raw)
            ≡ (s.any_bytes || (is_known b || any (λ c. is_known c.bytes) raw))
      by_bytes none = ground arith
      by_bytes (some b) = ground arith

  -- What a response of the children says of its own sums.
  abbrev pub HasTotals : ChildrenResponse std → Type 0
  HasTotals r = r.parent_totals.bytes ≡ (
      if any (λ (c : ChildRow std). is_known c.bytes) r.rows
      then some (pos (sum_of (λ (c : ChildRow std). byte_count c.bytes) r.rows))
      else none)

  any-child_row :
      (raw : List (RawChild std)) (totals : ParentTotals std)
      → any (λ (c : ChildRow std). is_known c.bytes) (map (child_row std totals) raw)
        ≡ any (λ c. is_known c.bytes) raw
  unfolding child_row
  any-child_row [] totals = refl
  any-child_row (c ∷ raw) totals = ap (λ b. is_known c.bytes || b) (any-child_row raw totals)

  All-child_row :
      (raw : List (RawChild std)) (totals : ParentTotals std)
      → All (λ (c : ChildRow std). IsByteCount c.bytes) (map (child_row std totals) raw)
      → CountsBytes raw
  unfolding child_row
  All-child_row [] totals h = tt
  All-child_row (c ∷ raw) totals h = (h.0, All-child_row raw totals h.1)

  bytes-child_row :
      (raw : List (RawChild std)) (totals : ParentTotals std)
      → sum_of (λ (c : ChildRow std). byte_count c.bytes) (map (child_row std totals) raw)
        ≡ raw_bytes raw
  unfolding child_row
  bytes-child_row raw totals =
      sum_of-map (λ (c : ChildRow std). byte_count c.bytes) (child_row std totals) raw

  response-HasTotals :
      (k : Knobs std) (parent : Text) (raw : List (RawChild std))
      → CountsBytes raw
      → raw_bytes raw < 2 ^ 63
      → HasTotals (children_response std k parent raw)
  unfolding parent_totals_of
  response-HasTotals k parent raw h fits =
      let known = sum_children-any raw (no_sums std) in
      let bytes = sum_children-bytes raw 0 (no_sums std) refl h (omega arith) in
      let totals = parent_totals_of std raw in
      rw (any-child_row raw totals) (
        rw (bytes-child_row raw totals) (
          rw known (
            rw bytes (
              ap (λ n. if any (λ c. is_known c.bytes) raw then some (pos n) else none)
                (omega arith)))))

  -- When the children's numbers of bytes are not negative and their sum fits an `i64`, the bytes of
  -- the parent in a response are the sum over the rows of that response; the parent has no bytes only
  -- if no row has.
  pub children-HasTotals :
      (conn : Connection std) (k : Knobs std) {r : ChildrenResponse std}
      → children std conn k ≡ ok r
      → All (λ (c : ChildRow std). IsByteCount c.bytes) r.rows
      → sum_of (λ (c : ChildRow std). byte_count c.bytes) r.rows < 2 ^ 63
      → HasTotals r
  unfolding children
  children-HasTotals conn k {r} e h fits =
      let (parent, found, more) =
        >>=-eq-ok (ok_or k.parent (text "parent is required")) _ {b = r} e in
      let (raw, returned, last) =
        >>=-eq-ok (children_query std conn k parent (child_depth_of std parent)) _ {b = r} more in
      let made : children_response std k parent raw ≡ r = cc last in
      subst
        (λ (r : ChildrenResponse std).
          All (λ (c : ChildRow std). IsByteCount c.bytes) r.rows
          → sum_of (λ (c : ChildRow std). byte_count c.bytes) r.rows < 2 ^ 63
          → HasTotals r)
        made
        (λ counts small.
          response-HasTotals k parent raw (All-child_row raw (parent_totals_of std raw) counts)
            (omega (arith, bytes-child_row raw (parent_totals_of std raw), small)))
        h fits
