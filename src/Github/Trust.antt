-- ===== src/Github/Trust.antt =====
-- Whose comment may resume an agent: `humanRepliedAfterClarification` of github_poller.go.
use agentic_dev_pipeline.Prelude.{
  Bool, Bool-cases, List, [], ap, arith, false, if◌then◌else◌, inl, inr, or_iff, refl, sym, true,
  ◌++◌, ◌↔◌, ◌∙◌, ◌∷◌, ◌≡◌, ◌≢◌, ◌⊎◌,
}
use agentic_dev_pipeline.Text.{Text, codes, text_eq_iff}
use agentic_dev_pipeline.Kube.{Comment}
use agentic_dev_pipeline.Github.{is_bot, is_trusted_association, last_is_trusted}

-- The association of an owner, a member or a collaborator.
abbrev pub IsTrusted : Text → Type 0
IsTrusted a = (a ≡ codes "OWNER") ⊎ (a ≡ codes "MEMBER") ⊎ (a ≡ codes "COLLABORATOR")

abbrev pub IsHuman : Comment → Type 0
IsHuman c =
    (c.user_type ≢ codes "Bot")
    × (c.user_login ≢ codes "github-actions[bot]")
    × (c.user_login ≢ codes "app/github-actions")

IsTrusted-iff : (a : Text) → (is_trusted_association a ≡ true) ↔ IsTrusted a
unfolding is_trusted_association
IsTrusted-iff a =
    or_iff _ _ (text_eq_iff a (codes "OWNER"))
      (or_iff _ _ (text_eq_iff a (codes "MEMBER")) (text_eq_iff a (codes "COLLABORATOR")))

bot_iff :
    (c : Comment)
    → (is_bot c ≡ true) ↔ (
        (c.user_type ≡ codes "Bot")
        ⊎ (c.user_login ≡ codes "github-actions[bot]")
        ⊎ (c.user_login ≡ codes "app/github-actions"))
unfolding is_bot
bot_iff c = or_iff _ _ (text_eq_iff c.user_type (codes "Bot")) (
    or_iff _ _ (text_eq_iff c.user_login (codes "github-actions[bot]"))
      (text_eq_iff c.user_login (codes "app/github-actions")))

not_bot-IsHuman : (c : Comment) → is_bot c ≡ false → IsHuman c
not_bot-IsHuman c h =
    let bot = (bot_iff c).1 in
    let clash : is_bot c ≡ true → ⊥ = λ e. cc in
    (λ e. clash (bot (inl e)), λ e. clash (bot (inr (inl e))), λ e. clash (bot (inr (inr e))))

IsHuman-not_bot : (c : Comment) → IsHuman c → is_bot c ≡ false
IsHuman-not_bot c (a, b, d) = elim (Bool-cases (is_bot c)) [
  | inl e ↦
      absurd (elim ((bot_iff c).0 e) [ inl x ↦ a x | inr y ↦ elim y [ inl x ↦ b x | inr x ↦ d x ] ])
  | inr e ↦ e
]

-- The comments end with one that is not a bot's and whose author is trusted.
abbrev pub EndsTrusted : List Comment → Type 0
EndsTrusted cs =
    (front : List Comment) × (last : Comment) × (cs ≡ front ++ (last ∷ []))
    × IsHuman last
    × IsTrusted last.author_association

trusted-append :
    (front : List Comment) (last : Comment)
    → last_is_trusted (front ++ (last ∷ []))
      ≡ (if is_bot last then false else is_trusted_association last.author_association)
unfolding last_is_trusted
trusted-append [] last = refl
trusted-append (c ∷ []) last = refl
trusted-append (c ∷ d ∷ front) last = trusted-append (d ∷ front) last

passed :
    (bot trusted : Bool)
    → (if bot then false else trusted) ≡ true
    → (bot ≡ false) × (trusted ≡ true)
passed bot trusted h = ground arith

trusted→EndsTrusted : (cs : List Comment) → last_is_trusted cs ≡ true → EndsTrusted cs
trusted→EndsTrusted [] h = unfold last_is_trusted in cc
trusted→EndsTrusted (c ∷ []) h =
    let (human, trusted) = passed (is_bot c) _ (sym (trusted-append [] c) ∙ h) in
    ([], c, refl, not_bot-IsHuman c human, (IsTrusted-iff c.author_association).0 trusted)
trusted→EndsTrusted (c ∷ d ∷ cs) h =
    let (front, last, same, human, trusted) =
      trusted→EndsTrusted (d ∷ cs) (unfold last_is_trusted in h) in
    (c ∷ front, last, ap (λ xs. c ∷ xs) same, human, trusted)

-- A task is resumed by the last of the listed comments alone, and exactly if its author is an owner,
-- member or collaborator, has not the type of a bot and neither login of the two bots; with no
-- comment it is not resumed.
pub last_is_trusted_iff : (cs : List Comment) → (last_is_trusted cs ≡ true) ↔ EndsTrusted cs
last_is_trusted_iff cs = (
  trusted→EndsTrusted cs,
  λ (front, last, same, human, trusted).
      rw (same, trusted-append front last, IsHuman-not_bot last human)
        ((IsTrusted-iff last.author_association).1 trusted),
)
