-- ===== src/Base/Repeat.antt =====
-- A loop that stops because a measure falls: `step` is one turn, `inl` goes on and `inr` leaves.
use Prim.Native.Nat.{ℕ, zero, suc, ◌<◌}
use mathlib.Core.Path.{◌≡◌, refl, sym, ap, fun_ext, subst}
use mathlib.Core.Logic.{◌⊎◌, inl, inr}
use mathlib.Core.Bool.{Bool, true, false}
use gqlparser.Base.Tests.{if◌then◌else◌}
use native.Mathlib.Omega.{arith}

pub lt_of_lt-suc : {a b k : ℕ} → a < b → b < suc k → a < k
lt_of_lt-suc p q = omega arith

pub lt_suc : (n : ℕ) → n < suc n
lt_suc n = omega arith

module _ {S R : Type 0} (step : S → S ⊎ R) (m : S → ℕ)
    (falls : (s s' : S) → step s ≡ inl s' → m s' < m s) where
  turn : (s : S) (x : S ⊎ R) → step s ≡ x → ((s' : S) → m s' < m s → R) → R
  turn s (inl s') e again = again s' (falls s s' e)
  turn s (inr r) e again = r

  rounds : (k : ℕ) (s : S) → m s < k → R
  rounds zero s h = elim h [ ]
  rounds (suc k) s h = turn s (step s) refl (λ s' lt. rounds k s' (lt_of_lt-suc lt h))

  unfoldable pub repeat : S → R
  unfolding turn rounds
  repeat s = rounds (suc (m s)) s (lt_suc (m s))

  turn-inl :
      {s s' : S} (x : S ⊎ R) (e : step s ≡ x) (again : (s' : S) → m s' < m s → R) (r : R)
      → x ≡ inl s'
      → ((lt : m s' < m s) → again s' lt ≡ r)
      → turn s x e again ≡ r
  unfolding turn
  turn-inl {s} {s'} (inl t) e again r h k =
      let q : t ≡ s' = cc in subst (λ u. (lt : m u < m s) → again u lt ≡ r) (sym q) k (falls s t e)
  turn-inl (inr t) e again r h k = cc

  turn-inr :
      {s : S} (x : S ⊎ R) (e : step s ≡ x) (again : (s' : S) → m s' < m s → R) (r : R)
      → x ≡ inr r
      → turn s x e again ≡ r
  unfolding turn
  turn-inr (inl t) e again r h = cc
  turn-inr (inr t) e again r h = cc

  -- Any bound above the measure gives the same result.
  rounds_irrelevant : (k j : ℕ) (s : S) (h : m s < k) (h' : m s < j) → rounds k s h ≡ rounds j s h'
  unfolding rounds
  rounds_irrelevant zero j s h h' = elim h [ ]
  rounds_irrelevant (suc k) zero s h h' = elim h' [ ]
  rounds_irrelevant (suc k) (suc j) s h h' =
      ap (turn s (step s) refl) (fun_ext λ s'. fun_ext λ lt. rounds_irrelevant k j s' _ _)

  pub repeat-inl : {s s' : S} → step s ≡ inl s' → repeat s ≡ repeat s'
  unfolding repeat
  repeat-inl {s} {s'} e =
      turn-inl (step s) refl _ (rounds (suc (m s')) s' (lt_suc (m s'))) e
        (λ lt. rounds_irrelevant (m s) (suc (m s')) s' _ _)

  pub repeat-inr : {s : S} {r : R} → step s ≡ inr r → repeat s ≡ r
  unfolding repeat
  repeat-inr {s} {r} e = turn-inr (step s) refl _ r e

  turn_ind {κ} :
      (Q : R → Type κ) {s : S} (x : S ⊎ R) (e : step s ≡ x) (again : (s' : S) → m s' < m s → R)
      → ((s' : S) → step s ≡ inl s' → (lt : m s' < m s) → Q (again s' lt))
      → ((r : R) → step s ≡ inr r → Q r)
      → Q (turn s x e again)
  unfolding turn
  turn_ind Q {s} (inl s') e again go_on leave = go_on s' e (falls s s' e)
  turn_ind Q {s} (inr r) e again go_on leave = leave r e

  rounds_ind {ℓ κ} :
      (I : S → Type ℓ) (Q : R → Type κ)
      → ((s s' : S) → I s → step s ≡ inl s' → I s')
      → ((s : S) (r : R) → I s → step s ≡ inr r → Q r)
      → (k : ℕ) (s : S) (h : m s < k) → I s
      → Q (rounds k s h)
  unfolding rounds
  rounds_ind I Q keep leave zero s h i = elim h [ ]
  rounds_ind I Q keep leave (suc k) s h i =
      turn_ind Q (step s) refl _ (λ s' e lt. rounds_ind I Q keep leave k s' _ (keep s s' i e))
        (λ r e. leave s r i e)

  -- The invariant `I` holds at each turn, and what the loop returns satisfies `Q`.
  pub repeat_ind {ℓ κ} :
      (I : S → Type ℓ) (Q : R → Type κ)
      → ((s s' : S) → I s → step s ≡ inl s' → I s')
      → ((s : S) (r : R) → I s → step s ≡ inr r → Q r)
      → (s : S) → I s
      → Q (repeat s)
  unfolding repeat
  repeat_ind I Q keep leave s i = rounds_ind I Q keep leave (suc (m s)) s (lt_suc (m s)) i

-- What holds of one turn: `I` where it goes on, `Q` where it leaves.
pub data Post {ℓ} {S R : Type 0} (I : S → Type ℓ) (Q : R → Type ℓ) : S ⊎ R → Type ℓ where
  goes_on : {s : S} → I s → Post I Q (inl s)
  leaves : {r : R} → Q r → Post I Q (inr r)

pub Post-intro {ℓ} :
    {S R : Type 0} {I : S → Type ℓ} {Q : R → Type ℓ} (x : S ⊎ R)
    → ((s : S) → x ≡ inl s → I s)
    → ((r : R) → x ≡ inr r → Q r)
    → Post I Q x
Post-intro (inl s) f g = goes_on (f s refl)
Post-intro (inr r) f g = leaves (g r refl)

pub Post-if {ℓ} :
    {S R : Type 0} {I : S → Type ℓ} {Q : R → Type ℓ} (b : Bool) {x y : S ⊎ R}
    → (b ≡ true → Post I Q x)
    → (b ≡ false → Post I Q y)
    → Post I Q (if b then x else y)
Post-if true f g = f refl
Post-if false f g = g refl

Post-eq_inl {ℓ} :
    {S R : Type 0} {I : S → Type ℓ} {Q : R → Type ℓ} {x : S ⊎ R} {s : S}
    → Post I Q x
    → x ≡ inl s
    → I s
Post-eq_inl {I} (goes_on p) e = subst I (cc) p
Post-eq_inl (leaves p) e = cc

pub Post-eq_inr {ℓ} :
    {S R : Type 0} {I : S → Type ℓ} {Q : R → Type ℓ} {x : S ⊎ R} {r : R}
    → Post I Q x
    → x ≡ inr r
    → Q r
Post-eq_inr (goes_on p) e = cc
Post-eq_inr {Q} (leaves p) e = subst Q (cc) p

module _ {S R : Type 0} (step : S → S ⊎ R) (m : S → ℕ)
    (falls : (s s' : S) → step s ≡ inl s' → m s' < m s) where
  -- The same, with one lemma for both ways out of a turn.
  pub repeat_post {ℓ} :
      (I : S → Type ℓ) (Q : R → Type ℓ)
      → ((s : S) → I s → Post I Q (step s))
      → (s : S) → I s
      → Q (repeat step m falls s)
  repeat_post I Q keep =
      repeat_ind step m falls I Q (λ s s' i e. Post-eq_inl (keep s i) e)
        (λ s r i e. Post-eq_inr (keep s i) e)
