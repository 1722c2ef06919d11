-- ===== src/Validator/Schema/Sound/Logic.antt =====
-- When a check is passed, by its parts.
pub use gqlparser.Base.{Every, nothing, each_one, Every-map}
use gqlparser.Validator.Schema.Check.{refuse_if}
use gqlparser.Base.{◌↔◌, Bool, true, false, List, [], ◌∷◌, ◌≡◌, refl, Option}
use gqlparser.Ast.Source.{Position}
use gqlparser.Validator.Schema.State.{
  Check, fine, problem, crash, ◌then_check◌, check_all, SchemaMessage,
}

pub then-fine : (c d : Check) → ((c then_check d) ≡ fine) ↔ ((c ≡ fine) × (d ≡ fine))
then-fine fine d = (λ h. (refl, h), λ h. h.1)
then-fine (problem p m) d = (λ h. cc, λ h. cc)
then-fine crash d = (λ h. cc, λ h. cc)

pub check_all-fine :
    {A : Type 0} (f : A → Check) (l : List A) → (check_all f l ≡ fine) ↔ Every (λ a. f a ≡ fine) l
unfolding check_all
check_all-fine f [] = (λ h. nothing, λ h. refl)
check_all-fine f (a ∷ l) = (
  λ h.
      let (first, rest) = (then-fine (f a) (check_all f l)).0 h in
      each_one first ((check_all-fine f l).0 rest),
  all_fine f,
)
  where
    all_fine :
        {A : Type 0} (f : A → Check) {l : List A} → Every (λ a. f a ≡ fine) l → check_all f l ≡ fine
    all_fine f nothing = refl
    all_fine f (each_one {a} {l} p e) = (then-fine (f a) (check_all f l)).1 (p, all_fine f e)

-- A check of all items is passed exactly where each one has what its check stands for.
pub check_all-Every :
    {A : Type 0} {P : A → Type 0} (f : A → Check) (l : List A)
    → ((a : A) → (f a ≡ fine) ↔ P a)
    → (check_all f l ≡ fine) ↔ Every P l
check_all-Every f l each = (
  λ h. Every-map (λ a. (each a).0) ((check_all-fine f l).0 h),
  λ e. (check_all-fine f l).1 (Every-map (λ a. (each a).1) e),
)

pub refuse_if-fine :
    (t : Bool) (p : Option Position) (m : SchemaMessage) → (refuse_if t p m ≡ fine) ↔ (t ≡ false)
refuse_if-fine true p m = (λ h. cc, λ h. cc)
refuse_if-fine false p m = (λ h. refl, λ h. refl)
