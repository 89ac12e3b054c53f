-- ===== src/Collector/Query/Params.antt =====
-- Every statement is run with as many parameters as it has places for them, and no input of a
-- request stands in its text.
use windows_fileserver_heatm.Prelude.{
  ◌≡◌, refl, ap, Option, none, some, List, [], ◌∷◌, ◌++◌, length, count, count-append,
  length-append, arith,
}
use windows_fileserver_heatm.Prelude.Int.{ℤ}
use windows_fileserver_heatm.Prelude.Order.{nat_ord, ◌==◌}
use windows_fileserver_heatm.Prelude.Text.{Text, text}
use windows_fileserver_heatm.Collector.Query.{Std, Knobs}
use windows_fileserver_heatm.Collector.Query.Statements.{
  P, int, float, str, Statement, leaderboard_files, leaderboard_blocks, leaderboard_select,
  leaderboard_order, children_files, children_blocks, push_scope, tier_join, tier_nulls, push,
  push_filter, scope_anchor_statement, children_anchor_statement, push_tier_select_and_join,
  build_leaderboard_sql, children_statement,
}

-- Both are given, or neither is.
abbrev pub SamePresence : Option Text → Option Text → Type 0
SamePresence none none = Unit
SamePresence (some a) (some b) = Unit
SamePresence a b = ⊥

module _ (std : Std) where
  abbrev pub IsBalanced : Statement std → Type 0
  IsBalanced st = count (λ c. c == b'?') st.0 ≡ length st.1

  push-IsBalanced :
      (piece : Text) (params : List (P std)) (st : Statement std)
      → count (λ c. c == b'?') piece ≡ length params
      → IsBalanced st
      → IsBalanced (push std piece params st)
  push-IsBalanced piece params st e h =
      omega (arith, count-append (λ c. c == b'?') st.0 piece, length-append st.1 params)

  push_filter-IsBalanced :
      (clause : Text) (value : Option Text) (st : Statement std)
      → count (λ c. c == b'?') clause ≡ 1
      → IsBalanced st
      → IsBalanced (push_filter std clause value st)
  push_filter-IsBalanced clause none st one h = h
  push_filter-IsBalanced clause (some s) st one h = push-IsBalanced clause _ st one h

  tier-IsBalanced :
      (tier_log : Option Text) (st : Statement std)
      → IsBalanced st
      → IsBalanced (push_tier_select_and_join std tier_log (text "b") st)
  unfolding push_tier_select_and_join
  tier-IsBalanced none st h = push-IsBalanced _ [] st refl h
  tier-IsBalanced (some path) st h = push-IsBalanced _ _ st refl h

  -- The statements that find the newest day in scope have a `?` for each parameter that is pushed,
  -- with every combination of the optional server and share.
  pub anchors-IsBalanced :
      (parent parent_like : Text) (server share : Option Text)
      → IsBalanced (scope_anchor_statement std server share)
        × IsBalanced (children_anchor_statement std parent parent_like server share)
  unfolding scope_anchor_statement children_anchor_statement
  anchors-IsBalanced parent parent_like server share = (
    push_filter-IsBalanced _ share _ refl (push_filter-IsBalanced _ server _ refl refl),
    push_filter-IsBalanced _ share _ refl (push_filter-IsBalanced _ server _ refl refl),
  )

  -- The four statements of the read API that take parameters, the two that find the newest day in
  -- scope, that of the leaderboard and that of the children, have a `?` for each parameter that is
  -- bound, with every combination of the optional server, share and tier log.
  pub statements-IsBalanced :
      (k : Knobs std) (threshold child_depth : ℤ) (tier_log : Option Text)
      (parent parent_like : Text)
      → IsBalanced (scope_anchor_statement std k.server k.share)
        × IsBalanced (children_anchor_statement std parent parent_like k.server k.share)
        × IsBalanced (build_leaderboard_sql std k threshold tier_log)
        × IsBalanced (children_statement std k parent parent_like child_depth threshold)
  unfolding build_leaderboard_sql children_statement
  statements-IsBalanced k threshold child_depth tier_log parent parent_like = (
    (anchors-IsBalanced parent parent_like k.server k.share).0,
    (anchors-IsBalanced parent parent_like k.server k.share).1,
    push-IsBalanced _ _ _ refl (
        tier-IsBalanced tier_log _ (
          push-IsBalanced _ _ _ refl (
            push-IsBalanced _ _ _ refl (
              push_filter-IsBalanced _ k.share _ refl
                (push_filter-IsBalanced _ k.server _ refl refl))))),
    push-IsBalanced _ _ _ refl
        (push_filter-IsBalanced _ k.share _ refl (push_filter-IsBalanced _ k.server _ refl refl)),
  )

  push_filter-text :
      (clause : Text) (a b : Option Text) (st ot : Statement std)
      → SamePresence a b
      → st.0 ≡ ot.0
      → (push_filter std clause a st).0 ≡ (push_filter std clause b ot).0
  push_filter-text clause none none st ot same e = e
  push_filter-text clause (some a) (some b) st ot same e = ap (λ t. t ++ clause) e
  push_filter-text clause none (some b) st ot same e = elim same [ ]
  push_filter-text clause (some a) none st ot same e = elim same [ ]

  push_scope-text :
      (k j : Knobs std) (st ot : Statement std)
      → SamePresence k.server j.server
      → SamePresence k.share j.share
      → st.0 ≡ ot.0
      → (push_scope std k st).0 ≡ (push_scope std j ot).0
  push_scope-text k j st ot server share e =
      push_filter-text _ k.share j.share (push_filter std (text " AND server = ?") k.server st)
        (push_filter std (text " AND server = ?") j.server ot) share
        (push_filter-text _ k.server j.server st ot server e)

  tier-text :
      (a b : Option Text) (alias : Text) (st ot : Statement std)
      → SamePresence a b
      → st.0 ≡ ot.0
      → (push_tier_select_and_join std a alias st).0 ≡ (push_tier_select_and_join std b alias ot).0
  unfolding push_tier_select_and_join
  tier-text none none alias st ot same e = ap (λ t. t ++ tier_nulls std alias) e
  tier-text (some a) (some b) alias st ot same e = ap (λ t. t ++ tier_join std alias) e
  tier-text none (some b) alias st ot same e = elim same [ ]
  tier-text (some a) none alias st ot same e = elim same [ ]

  -- The SQL of the two queries does not depend on what a request says: for requests, tier logs, days
  -- and parents that give the same options it is the same text, byte for byte.
  pub statements_bound :
      (k j : Knobs std) (day other : ℤ) (tier_log other_log : Option Text)
      (parent parent_like parent_2 parent_like_2 : Text) (child_depth child_depth_2 : ℤ)
      → SamePresence k.server j.server
      → SamePresence k.share j.share
      → SamePresence tier_log other_log
      → ((build_leaderboard_sql std k day tier_log).0
          ≡ (build_leaderboard_sql std j other other_log).0)
        × ((children_statement std k parent parent_like child_depth day).0
            ≡ (children_statement std j parent_2 parent_like_2 child_depth_2 other).0)
  unfolding build_leaderboard_sql children_statement
  statements_bound k j day other tier_log other_log parent parent_like parent_2 parent_like_2
        child_depth child_depth_2 server share tier =
      let files_k = push std (leaderboard_files std) (int k.depth ∷ []) ([], []) in
      let files_j = push std (leaderboard_files std) (int j.depth ∷ []) ([], []) in
      let scoped = push_scope-text k j files_k files_j server share refl in
      let under_k =
        push std (children_files std) (int child_depth ∷ str parent ∷ str parent_like ∷ [])
          ([], []) in
      let under_j =
        push std (children_files std) (int child_depth_2 ∷ str parent_2 ∷ str parent_like_2 ∷ [])
          ([], []) in
      let tiers_k = push std (leaderboard_select std) [] (
        push std (leaderboard_blocks std) (float k.w_read ∷ float k.w_write ∷ int day ∷ [])
          (push_scope std k files_k)) in
      let tiers_j = push std (leaderboard_select std) [] (
        push std (leaderboard_blocks std) (float j.w_read ∷ float j.w_write ∷ int other ∷ [])
          (push_scope std j files_j)) in
      (
        ap (λ t. t ++ leaderboard_order std)
            (tier-text tier_log other_log (text "b") tiers_k tiers_j tier
              (ap (λ t. (t ++ leaderboard_blocks std) ++ leaderboard_select std) scoped)),
        ap (λ t. t ++ children_blocks std) (push_scope-text k j under_k under_j server share refl),
      )
