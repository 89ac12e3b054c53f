-- ===== src/Agent/Identity/Domains.antt =====
-- The domain of an account does not decide its class.
use windows_fileserver_heatm.Prelude.{
  ◌≡◌, refl, sym, ◌∙◌, ap, none, [], ◌∷◌, ◌++◌, Bool, true, false, ◌||◌,
}
use windows_fileserver_heatm.Prelude.Order.{nat_ord, list_ord, ◌==◌, ==_iff}
use windows_fileserver_heatm.Prelude.Text.{
  Text, text, split, split-append, split-Free, Free, last_piece, after_last, backslash, is_empty,
}
use windows_fileserver_heatm.Agent.Identity.{compose, is_unnamed, sid_class, name_class, classify}

after_last-append :
    (d u : Text)
    → Free backslash d
    → Free backslash u
    → after_last backslash (d ++ backslash ∷ u) ≡ u
unfolding after_last
after_last-append d u hd hu =
    ap last_piece (split-append backslash d u hd ∙ ap (λ t. d ∷ t) (split-Free backslash u hu))

after_last-Free : (u : Text) → Free backslash u → after_last backslash u ≡ u
unfolding after_last
after_last-Free u hu = ap last_piece (split-Free backslash u hu)

unknown_bare : after_last backslash (text "<unknown>") ≡ text "<unknown>"
unfolding after_last split
unknown_bare = refl

classify_named :
    (account : Text)
    → is_unnamed account ≡ false
    → sid_class account ≡ none
    → classify account ≡ name_class (after_last backslash account)
unfolding classify
classify_named account named sid = rw (named, classify) (rw (sid, classify) refl)

-- An account `DOMAIN\name` is classified as the bare name is. Neither part is empty or holds a
-- backslash, the name is not `<unknown>`, and neither account begins like a well-known SID.
pub classify-compose :
    (domain user : Text)
    → is_empty domain ≡ false
    → is_unnamed user ≡ false
    → Free backslash domain
    → Free backslash user
    → sid_class (compose domain user) ≡ none
    → sid_class user ≡ none
    → classify (compose domain user) ≡ classify user
unfolding compose
classify-compose [] user some_domain named hd hu s1 s2 = absurd (cc)
classify-compose (c ∷ d) [] some_domain named hd hu s1 s2 = absurd (cc)
classify-compose (c ∷ d) (e ∷ u) some_domain named hd hu s1 s2 =
    let bare = after_last-append (c ∷ d) (e ∷ u) hd hu in
    classify_named ((c ∷ d) ++ backslash ∷ e ∷ u)
      (by_test (((c ∷ d) ++ backslash ∷ e ∷ u) == text "<unknown>") refl) s1
    ∙ ap name_class (bare ∙ sym (after_last-Free (e ∷ u) hu))
    ∙ sym (classify_named (e ∷ u) named s2)
  where
    by_test :
        (b : Bool) → (((c ∷ d) ++ backslash ∷ e ∷ u) == text "<unknown>") ≡ b → (false || b) ≡ false
    by_test false t = refl
    by_test true t =
        let same = (==_iff ((c ∷ d) ++ backslash ∷ e ∷ u) (text "<unknown>")).0 t in
        let user_same : (e ∷ u) ≡ text "<unknown>" =
          sym (after_last-append (c ∷ d) (e ∷ u) hd hu)
          ∙ ap (after_last backslash) same
          ∙ unknown_bare in
        let yes = (==_iff (e ∷ u) (text "<unknown>")).1 user_same in absurd (cc)
