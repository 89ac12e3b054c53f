-- ===== src/Collector/Query/Like.antt =====
-- What the pattern of the children's statement matches: the descendants of the parent.
use mathlib.Core.Path.{subst}
use windows_fileserver_heatm.Prelude.{
  ℕ, ◌≡◌, ◌↔◌, refl, sym, ap, ◌∙◌, List, [], ◌∷◌, ◌++◌, Bool, true, false, ◌||◌, if◌then◌else◌, map,
  arith,
}
use windows_fileserver_heatm.Prelude.Order.{nat_ord, ◌==◌}
use windows_fileserver_heatm.Prelude.Text.{Text, backslash}
use windows_fileserver_heatm.Collector.Query.{escape_like}
use windows_fileserver_heatm.Collector.Query.Statements.{parent_like_of}

-- A pattern of `LIKE … ESCAPE '!'`, read as the SQL standard does: `%` stands for any run, `_` for
-- one character, and `!` takes the next character literally.
pub data Token : Type 0 where
  literal : ℕ → Token
  any_one any_run : Token

abbrev pub plain_token : ℕ → Token
plain_token c = if c == b'%' then any_run else if c == b'_' then any_one else literal c

abbrev pub tokens : Text → List Token
tokens [] = []
tokens (c ∷ []) = plain_token c ∷ []
tokens (c ∷ d ∷ p) =
    let escaped = literal d ∷ tokens p in
    let plain = plain_token c ∷ tokens (d ∷ p) in if c == b'!' then escaped else plain

abbrev pub Matches : List Token → Text → Type 0
Matches [] s = s ≡ []
Matches (literal c ∷ ts) s = (r : Text) × (s ≡ c ∷ r) × Matches ts r
Matches (any_one ∷ ts) s = (c : ℕ) × (r : Text) × (s ≡ c ∷ r) × Matches ts r
Matches (any_run ∷ ts) s = (u : Text) × (r : Text) × (s ≡ u ++ r) × Matches ts r

-- `s LIKE p ESCAPE '!'`.
abbrev pub Like : Text → Text → Type 0
Like p s = Matches (tokens p) s

tokens-plain :
    (c : ℕ) (p : Text)
    → (c == b'!') ≡ false
    → plain_token c ≡ literal c
    → tokens (c ∷ p) ≡ literal c ∷ tokens p
tokens-plain c [] h e = ap (λ t. t ∷ []) e
tokens-plain c (d ∷ p) h e = rw h (ap (λ t. t ∷ tokens (d ∷ p)) e)

tokens-escaped : (c : ℕ) (p : Text) → tokens (b'!' ∷ c ∷ p) ≡ literal c ∷ tokens p
tokens-escaped c p = refl

plain_token_lem :
    (c : ℕ)
    → (c == b'!' || c == b'%' || c == b'_') ≡ false
    → ((c == b'!') ≡ false) × (plain_token c ≡ literal c)
plain_token_lem c h = ground (arith, h)

tokens-parent_like_of :
    (parent : Text)
    → tokens (parent_like_of parent) ≡ map literal parent ++ literal backslash ∷ any_run ∷ []
unfolding escape_like
tokens-parent_like_of [] = refl
tokens-parent_like_of (c ∷ parent) =
    by_test (c == b'!' || c == b'%' || c == b'_') refl (tokens-parent_like_of parent)
  where
    by_test :
        (b : Bool)
        → (c == b'!' || c == b'%' || c == b'_') ≡ b
        → tokens (parent_like_of parent) ≡ map literal parent ++ literal backslash ∷ any_run ∷ []
        → tokens (
            (if b then b'!' ∷ c ∷ escape_like parent else c ∷ escape_like parent)
            ++ backslash ∷ b'%' ∷ [])
          ≡ literal c ∷ (map literal parent ++ literal backslash ∷ any_run ∷ [])
    by_test true e rest = ap (λ ts. literal c ∷ ts) rest
    by_test false e rest =
        let (free, plain) = plain_token_lem c e in
        tokens-plain c (parent_like_of parent) free plain ∙ ap (λ ts. literal c ∷ ts) rest

Matches-literals :
    (parent s : Text)
    → Matches (map literal parent ++ literal backslash ∷ any_run ∷ []) s
    → (rest : Text) × (s ≡ parent ++ backslash ∷ rest)
Matches-literals [] s (r, e, (u, v, f, g)) = (r, e)
Matches-literals (c ∷ parent) s (r, e, more) =
    let (rest, g) = Matches-literals parent r more in (rest, e ∙ ap (λ t. c ∷ t) g)

append_nil : (s : Text) → s ++ [] ≡ s
append_nil [] = refl
append_nil (c ∷ s) = ap (λ t. c ∷ t) (append_nil s)

literals-Matches :
    (parent rest : Text)
    → Matches (map literal parent ++ literal backslash ∷ any_run ∷ []) (parent ++ backslash ∷ rest)
literals-Matches [] rest = (rest, refl, (rest, [], sym (append_nil rest), refl))
literals-Matches (c ∷ parent) rest =
    (parent ++ backslash ∷ rest, refl, literals-Matches parent rest)

-- With the pattern that the children's statement binds for a parent, LIKE matches exactly the paths
-- that are the parent, a backslash and some rest: what stands for `!`, `%` or `_` in the parent's
-- name matches only itself.
pub parent_like_of_iff :
    (parent path : Text)
    → Like (parent_like_of parent) path ↔ ((rest : Text) × (path ≡ parent ++ backslash ∷ rest))
parent_like_of_iff parent path = (
  λ m.
      Matches-literals parent path (subst (λ ts. Matches ts path) (tokens-parent_like_of parent) m),
  λ (rest, e).
      subst (λ ts. Matches ts path) (sym (tokens-parent_like_of parent))
        (subst (Matches (map literal parent ++ literal backslash ∷ any_run ∷ [])) (sym e)
          (literals-Matches parent rest)),
)
