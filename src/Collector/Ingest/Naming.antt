-- ===== src/Collector/Ingest/Naming.antt =====
-- The archive path that is built from a validated header stays below the archive directory.
use Prim.Native.Nat.{◌≤◌}
use mathlib.Core.Path.{subst}
use windows_fileserver_heatm.Prelude.{
  ℕ, ◌≡◌, ◌≢◌, refl, ◌∙◌, ap, List, [], ◌∷◌, Bool, true, ◌||◌, length, take, all, All, All-append,
  All-imp, All-all, &&-true, arith,
}
use windows_fileserver_heatm.Prelude.Order.{nat_ord, list_ord, ◌==◌, ==_iff}
use windows_fileserver_heatm.Prelude.Text.{
  Text, text, split, decimal, cat, Free, split-append, split-Free, is_ascii_hexdigit,
}
use windows_fileserver_heatm.Prelude.TextLaws.{take-split, Digit, decimal-All}
use windows_fileserver_heatm.Prelude.Result.{ok}
use windows_fileserver_heatm.Collector.Ingest.{
  Header, Wire, is_valid_server, is_lower_or_digit, is_valid_uuid, groups, zip_all, group_ok,
  validate_naming, archive_rel_path,
}

-- Neither a separator of paths nor a dot.
pub record IsPlain (c : ℕ) : Type 0 where
  pub slash : c ≢ b'/'
  pub backslash : c ≢ 92
  pub dot : c ≢ b'.'

first-IsPlain : (c : ℕ) → is_lower_or_digit c ≡ true → IsPlain c
first-IsPlain c h = ground arith

abbrev server_byte : ℕ → Bool
server_byte d = is_lower_or_digit d || d == b'-'

server_byte-IsPlain : (c : ℕ) → server_byte c ≡ true → IsPlain c
server_byte-IsPlain c h = ground arith

pub is_valid_server-IsPlain : (s : Text) → is_valid_server s ≡ true → (s ≢ []) × All IsPlain s
unfolding is_valid_server
is_valid_server-IsPlain [] h = absurd (cc)
is_valid_server-IsPlain (c ∷ s) h =
    let (first, rest) = &&-true (is_lower_or_digit c) (all server_byte s) h in
    ((λ q. cc), (first-IsPlain c first, All-all server_byte IsPlain s server_byte-IsPlain rest))

hex-IsPlain : (c : ℕ) → is_ascii_hexdigit c ≡ true → IsPlain c
hex-IsPlain c h = ground arith

first_group :
    (parts : List Text)
    → length parts ≡ length groups
    → zip_all parts groups ≡ true
    → (p : Text) × (ps : List Text) × (parts ≡ p ∷ ps) × (length p ≡ 8) × All IsPlain p
first_group [] h z = absurd (omega arith)
first_group (p ∷ ps) h z =
    let (group, others) = &&-true (group_ok p 8) (zip_all ps (4 ∷ 4 ∷ 4 ∷ 12 ∷ [])) z in
    let (long, digits) = &&-true (length p == 8) (all is_ascii_hexdigit p) group in
    (
      p,
      ps,
      refl,
      (==_iff (length p) 8).0 long,
      All-all is_ascii_hexdigit IsPlain p hex-IsPlain digits,
    )

pub uuid_stem :
    (s : Text) → is_valid_uuid s ≡ true → (length (take 8 s) ≡ 8) × All IsPlain (take 8 s)
unfolding is_valid_uuid
uuid_stem s h =
    let count_ok : length (split b'-' s) ≡ length groups = ground arith in
    let zip_ok : zip_all (split b'-' s) groups ≡ true = ground arith in
    let (p, ps, whole, long, plain) = first_group (split b'-' s) count_ok zip_ok in
    let stem : take 8 s ≡ p = subst (λ n. take n s ≡ p) long (take-split b'-' s p ps whole) in
    rw stem (long, plain)

-- The name of the file in the directory of the server.
abbrev pub file_name : Header → Text
file_name h = cat (take 8 h.run_id ∷ text "-" ∷ decimal h.dump_seq ∷ text ".ndjson" ∷ [])

pub IsPlain-Free : (s : Text) → All IsPlain s → Free b'/' s
IsPlain-Free s h = All-imp IsPlain (λ c. c ≢ b'/') (λ c p. p.slash) s h

digits-Free : (s : Text) → All Digit s → Free b'/' s
digits-Free s h = All-imp Digit (λ c. c ≢ b'/') (λ c d e. omega arith) s h

pub file_name-Free : (h : Header) → All IsPlain (take 8 h.run_id) → Free b'/' (file_name h)
file_name-Free h plain =
    All-append (λ c. c ≢ b'/') (take 8 h.run_id) _ (IsPlain-Free (take 8 h.run_id) plain)
      (
        (λ e. omega arith),
        All-append (λ c. c ≢ b'/') (decimal h.dump_seq) _
            (digits-Free (decimal h.dump_seq) (decimal-All h.dump_seq)) (omega arith),
      )

module _ (wire : Wire) where
  pub validate_naming_parts :
      (h : Header)
      → validate_naming wire h ≡ ok tt
      → (is_valid_server h.server ≡ true) × (is_valid_uuid h.run_id ≡ true) × (1 ≤ h.dump_seq)
  unfolding validate_naming
  validate_naming_parts h v = ground arith

  -- A header that passes the validation names a file in a directory of its own: the archive path has
  -- exactly two components, the server and a file name, the server and the eight bytes that the file
  -- name begins with are not empty, and they hold no `/`, no backslash and no dot.
  pub archive_rel_path_contained :
      (h : Header)
      → validate_naming wire h ≡ ok tt
      → (split b'/' (archive_rel_path h.server h.run_id h.dump_seq) ≡ h.server ∷ file_name h ∷ [])
        × (h.server ≢ [])
        × All IsPlain h.server
        × (length (take 8 h.run_id) ≡ 8)
        × All IsPlain (take 8 h.run_id)
  unfolding archive_rel_path
  archive_rel_path_contained h v =
      let (server_ok, uuid_ok, seq_ok) = validate_naming_parts h v in
      let (some_server, plain_server) = is_valid_server-IsPlain h.server server_ok in
      let (long, plain_stem) = uuid_stem h.run_id uuid_ok in
      (
        split-append b'/' h.server (file_name h) (IsPlain-Free h.server plain_server)
            ∙ ap (λ t. h.server ∷ t) (split-Free b'/' (file_name h) (file_name-Free h plain_stem)),
        some_server,
        plain_server,
        long,
        plain_stem,
      )
