-- ===== src/Collector/Ingest/Distinct.antt =====
-- Which dumps share a file of the archive.
use mathlib.Core.Path.{subst}
use mathlib.Core.List.{append_cancel_left, append_cancel_right, tail-eq_of_cons-eq}
use windows_fileserver_heatm.Prelude.{
  ℕ, zero, suc, ◌≡◌, ◌≢◌, ◌↔◌, refl, sym, ◌∙◌, ap, List, [], ◌∷◌, ◌++◌, Bool, true, false, not,
  if◌then◌else◌, length, take, &&-true, arith,
}
use windows_fileserver_heatm.Prelude.Order.{nat_ord, list_ord}
use windows_fileserver_heatm.Prelude.Decimal.{decimal_injective}
use windows_fileserver_heatm.Prelude.Text.{Text, text, split, decimal}
use windows_fileserver_heatm.Prelude.Result.{Result, ok, err}
use windows_fileserver_heatm.Collector.Archive.{malformed_path}
use windows_fileserver_heatm.Collector.Ingest.{
  Header, DumpRow, Disposition, malformed, rejected, accepted, Wire, is_valid_server,
  is_lower_or_digit, validate_naming, parse_header, parse_body_lines, classify_body, classify_lines,
  classify, archive_rel_path, split_ndjson,
}
use windows_fileserver_heatm.Collector.Ingest.Naming.{
  validate_naming_parts, archive_rel_path_contained, file_name,
}

take_prefix : (n : ℕ) (a b : Text) → length a ≡ n → take n (a ++ b) ≡ a
take_prefix zero [] b h = refl
take_prefix zero (c ∷ a) b h = absurd (omega arith)
take_prefix (suc n) [] b h = absurd (omega arith)
take_prefix (suc n) (c ∷ a) b h = ap (λ t. c ∷ t) (take_prefix n a b (omega arith))

-- The same file server, the same first eight bytes of the run's id, and the same number.
abbrev pub SameFile : Header → Header → Type 0
SameFile h k =
    (h.server ≡ k.server) × (take 8 h.run_id ≡ take 8 k.run_id) × (h.dump_seq ≡ k.dump_seq)

same_names :
    (h k : Header)
    → length (take 8 h.run_id) ≡ 8
    → length (take 8 k.run_id) ≡ 8
    → file_name h ≡ file_name k
    → (take 8 h.run_id ≡ take 8 k.run_id) × (h.dump_seq ≡ k.dump_seq)
same_names h k long_h long_k e =
    let stems : take 8 h.run_id ≡ take 8 k.run_id =
      sym (take_prefix 8 (take 8 h.run_id) _ long_h)
      ∙ ap (take 8) e
      ∙ take_prefix 8 (take 8 k.run_id) _ long_k in
    let ending = text ".ndjson" ++ [] in
    let numbers : text "-" ++ (decimal h.dump_seq ++ ending)
        ≡ text "-" ++ (decimal k.dump_seq ++ ending) =
      append_cancel_left (take 8 k.run_id) _ _
        (subst (λ t. t ++ (text "-" ++ (decimal h.dump_seq ++ ending)) ≡ file_name k) stems e) in
    (
      stems,
      decimal_injective h.dump_seq k.dump_seq (
          append_cancel_right (decimal h.dump_seq) (decimal k.dump_seq) ending
            (tail-eq_of_cons-eq numbers)),
    )

malformed_not_server :
    (server s t : Text) → is_valid_server server ≡ true → text "_malformed/" ++ s ≢ server ++ t
unfolding is_valid_server
malformed_not_server [] s t h e = absurd (cc)
malformed_not_server (c ∷ server) s t h e =
    let first : is_lower_or_digit c ≡ true = (&&-true (is_lower_or_digit c) _ h).0 in
    let underscore : b'_' ≡ c = cc in absurd (ground arith)

module _ (wire : Wire) where
  same_file :
      (h k : Header)
      → validate_naming wire h ≡ ok tt
      → validate_naming wire k ≡ ok tt
      → archive_rel_path h.server h.run_id h.dump_seq
        ≡ archive_rel_path k.server k.run_id k.dump_seq
      → SameFile h k
  same_file h k v w e =
      let a = archive_rel_path_contained wire h v in
      let b = archive_rel_path_contained wire k w in
      let parts : h.server ∷ file_name h ∷ [] ≡ k.server ∷ file_name k ∷ [] =
        sym a.0 ∙ ap (split b'/') e ∙ b.0 in
      let names = same_names h k a.3 b.3 (cc) in (cc, names.0, names.1)

  same_path :
      (h k : Header)
      → SameFile h k
      → archive_rel_path h.server h.run_id h.dump_seq
        ≡ archive_rel_path k.server k.run_id k.dump_seq
  unfolding archive_rel_path
  same_path h k (server, run, seq) = cc

  -- Two dumps with valid headers are archived in one file exactly when they are of one file server,
  -- the first eight bytes of their runs' ids are the same, and so are their numbers.
  pub archive_rel_path_iff :
      (h k : Header)
      → validate_naming wire h ≡ ok tt
      → validate_naming wire k ≡ ok tt
      → (archive_rel_path h.server h.run_id h.dump_seq
          ≡ archive_rel_path k.server k.run_id k.dump_seq)
        ↔ SameFile h k
  archive_rel_path_iff h k v w = (same_file h k v w, same_path h k)

  -- The header of a disposition, if it has one, is valid.
  abbrev pub HasValidHeader : Disposition → Type 0
  HasValidHeader (malformed reason) = Unit
  HasValidHeader (rejected header reason) = validate_naming wire header ≡ ok tt
  HasValidHeader (accepted header rows) = validate_naming wire header ≡ ok tt

  classify_body-HasValidHeader :
      (header : Header) (lines : List Text) → HasValidHeader (classify_body wire header lines)
  unfolding classify_body
  classify_body-HasValidHeader header lines =
      by_naming (validate_naming wire header) refl (parse_body_lines wire lines)
    where
      by_naming :
          (v : Result Text (Unit {0}))
          → validate_naming wire header ≡ v
          → (body : Result Text (List DumpRow))
          → HasValidHeader (elim v [
            | err reason ↦ malformed reason
            | ok _ ↦ elim body [
              | ok rows ↦ accepted header rows
              | err reason ↦ rejected header reason
            ]
          ])
      by_naming (err reason) e body = tt
      by_naming (ok _) e (ok rows) = e
      by_naming (ok _) e (err reason) = e

  classify_lines-HasValidHeader : (lines : List Text) → HasValidHeader (classify_lines wire lines)
  unfolding classify_lines
  classify_lines-HasValidHeader [] = tt
  classify_lines-HasValidHeader (first ∷ rest) = by_header (parse_header wire first)
    where
      by_header :
          (r : Result Text Header)
          → HasValidHeader (elim r [
            | err reason ↦ malformed reason
            | ok header ↦ classify_body wire header rest
          ])
      by_header (err reason) = tt
      by_header (ok header) = classify_body-HasValidHeader header rest

  pub classify-HasValidHeader : (body : Text) → HasValidHeader (classify wire body)
  unfolding classify
  classify-HasValidHeader body = by_test (not (wire.is_utf8 body))
    where
      by_test :
          (b : Bool)
          → HasValidHeader (
              if b
              then malformed (text "body is not valid UTF-8")
              else classify_lines wire (split_ndjson body))
      by_test true = tt
      by_test false = classify_lines-HasValidHeader (split_ndjson body)

  -- No server is named `_malformed`.
  pub malformed_path_apart :
      (millis : ℕ) (h : Header)
      → validate_naming wire h ≡ ok tt
      → malformed_path millis ≢ archive_rel_path h.server h.run_id h.dump_seq
  unfolding archive_rel_path
  malformed_path_apart millis h v e =
      malformed_not_server h.server _ _ (validate_naming_parts wire h v).0 e
