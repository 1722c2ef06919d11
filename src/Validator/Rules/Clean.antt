-- ===== src/Validator/Rules/Clean.antt =====
-- Loops of rules that report nothing.
use gqlparser.Base.{List, [], ◌∷◌, ◌++◌, ◌≡◌, ◌↔◌, refl}
use gqlparser.Validator.Rules.Rule.{RuleError, for_each}
use gqlparser.Validator.Schema.Sound.Logic.{Every, nothing, each_one}

pub append_nil_iff : (a b : List RuleError) → (a ++ b ≡ []) ↔ ((a ≡ []) × (b ≡ []))
append_nil_iff [] b = (λ h. (refl, h), λ h. h.1)
append_nil_iff (e ∷ a) b = (λ h. cc h, λ (h, k). cc h)

pub Every-head : {A : Type 0} {P : A → Type 0} {a : A} {l : List A} → Every P (a ∷ l) → P a
Every-head (each_one p e) = p

pub Every-tail : {A : Type 0} {P : A → Type 0} {a : A} {l : List A} → Every P (a ∷ l) → Every P l
Every-tail (each_one p e) = e

-- A loop reports nothing exactly where each item has what no report on it stands for.
pub for_each_iff :
    {A : Type 0} {P : A → Type 0} (f : A → List RuleError)
    → ((a : A) → (f a ≡ []) ↔ P a)
    → (l : List A) → (for_each f l ≡ []) ↔ Every P l
unfolding for_each
for_each_iff f each [] = (λ h. nothing, λ e. refl)
for_each_iff f each (a ∷ l) =
    let split = append_nil_iff (f a) (for_each f l) in
    let rest = for_each_iff f each l in
    (
      λ h. each_one ((each a).0 (split.0 h).0) (rest.0 (split.0 h).1),
      λ e. split.1 ((each a).1 (Every-head e), rest.1 (Every-tail e)),
    )
