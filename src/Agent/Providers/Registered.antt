-- ===== src/Agent/Providers/Registered.antt =====
-- internal/agent/providers/mock/provider.go: the replies of the mock provider.
use arkonis_operator.Prelude.{
  some_inj, String, none, some, [], ◌∷◌, ◌≡◌, ◌⊎◌, inl, inr, refl, sym, ap, ◌∙◌, subst, true, false,
  Bool-cases, Option-cases, All, Member,
}
use arkonis_operator.Prelude.Map.{Map}
use arkonis_operator.Prelude.Text.{to_lower}
use arkonis_operator.Agent.Providers.{
  MockProvider, contains_text, match_responses, or_default, match_prompt,
}

-- The key occurs in the prompt, letter case aside.
abbrev pub Occurs : String → String → Type 0
Occurs prompt key = contains_text (to_lower prompt) (to_lower key) ≡ true

-- The reply is one whose key occurs, or the default one where no key occurs.
abbrev pub IsReply : MockProvider → String → String → Type 0
IsReply p prompt reply =
    ((key : String) × Member (key, reply) p.responses × Occurs prompt key)
    ⊎ (All (λ r. ¬ Occurs prompt r.0) p.responses × (reply ≡ or_default p.default none))

module _ (prompt key r : String) (responses : Map String) where
  match_responses-here :
      Occurs prompt key → match_responses (to_lower prompt) ((key, r) ∷ responses) ≡ some r
  unfolding match_responses contains_text
  match_responses-here occurs = rw (occurs) refl

  match_responses-later :
      contains_text (to_lower prompt) (to_lower key) ≡ false
      → match_responses (to_lower prompt) ((key, r) ∷ responses)
        ≡ match_responses (to_lower prompt) responses
  unfolding match_responses contains_text
  match_responses-later other = rw (other) refl

match_responses-some :
    (prompt : String) (responses : Map String) (reply : String)
    → match_responses (to_lower prompt) responses ≡ some reply
    → (key : String) × Member (key, reply) responses × Occurs prompt key
unfolding match_responses
match_responses-some prompt [] reply found = cc found
match_responses-some prompt ((key, r) ∷ responses) reply found =
    elim (Bool-cases (contains_text (to_lower prompt) (to_lower key))) [
      | inl occurs ↦
          let same : r ≡ reply =
            some_inj (sym (match_responses-here prompt key r responses occurs) ∙ found) in
          (key, inl (ap (λ x. (key, x)) same), occurs)
      | inr other ↦
          let (k, there, occurs) =
            match_responses-some prompt responses reply
              (sym (match_responses-later prompt key r responses other) ∙ found) in
          (k, inr there, occurs)
    ]

match_responses-none :
    (prompt : String) (responses : Map String)
    → match_responses (to_lower prompt) responses ≡ none
    → All (λ r. ¬ Occurs prompt r.0) responses
unfolding match_responses
match_responses-none prompt [] absent = tt
match_responses-none prompt ((key, r) ∷ responses) absent =
    elim (Bool-cases (contains_text (to_lower prompt) (to_lower key))) [
      | inl occurs ↦ cc (match_responses-here prompt key r responses occurs, absent)
      | inr other ↦ (
        (λ occurs. cc (other, occurs)),
        match_responses-none prompt responses
            (sym (match_responses-later prompt key r responses other) ∙ absent),
      )
    ]

-- The mock provider replies with a response whose key occurs in the prompt, letter case aside, or, where the
-- key of no response occurs, with its default.
pub match_prompt-IsReply :
    (p : MockProvider) (prompt : String) → IsReply p prompt (match_prompt p prompt)
unfolding match_prompt
match_prompt-IsReply p prompt =
    elim (Option-cases (match_responses (to_lower prompt) p.responses)) [
      | inr (reply, found) ↦ inl (
          subst
            (λ o.
              (key : String) × Member (key, or_default p.default o) p.responses × Occurs prompt key)
            (sym found) (match_responses-some prompt p.responses reply found))
      | inl absent ↦
          inr (match_responses-none prompt p.responses absent, ap (or_default p.default) absent)
    ]
