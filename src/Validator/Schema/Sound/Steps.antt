-- ===== src/Validator/Schema/Sound/Steps.antt =====
-- Chains of steps of validator/schema.go: `ValidateSchemaDocument`.
use mathlib.Core.Path.{subst}
use gqlparser.Validator.Schema.Sound.Logic.{each_one, check_all-fine, Every}
use gqlparser.Base.{List, [], ◌∷◌, ◌≡◌, refl}
use mathlib.Core.List.{Permᴰ}
use gqlparser.Validator.Schema.State.{Check, fine, problem, crash, check_all}
use gqlparser.Validator.Schema.Build.{Built, built, rejected, crashed, ◌>>=◌, each, checked}

pub bind-built :
    {A B : Type 0} (m : Built A) (k : A → Built B) {b : B}
    → (m >>= k) ≡ built b
    → (a : A) × (m ≡ built a) × (k a ≡ built b)
bind-built (built a) k h = (a, refl, h)
bind-built (rejected p m) k h = cc
bind-built crashed k h = cc

pub checked-built :
    {A : Type 0} (c : Check) (a b : A) → checked c a ≡ built b → (c ≡ fine) × (a ≡ b)
checked-built fine a b h = (refl, cc)
checked-built (problem p m) a b h = cc
checked-built crash a b h = cc

-- What each step of a loop keeps holds behind it.
pub each_keeps :
    {A S : Type 0} (P : S → Type 0) (f : A → S → Built S)
    → ((a : A) (s s' : S) → P s → f a s ≡ built s' → P s')
    → (l : List A) (s s' : S) → P s
    → each f l s ≡ built s'
    → P s'
unfolding each
each_keeps P f keep [] s s' p h = let same : s ≡ s' = cc in subst P same p
each_keeps P f keep (a ∷ l) s s' p h =
    let (t, first, rest) = bind-built (f a s) (each f l) h in
    each_keeps P f keep l t s' (keep a s t p first) rest

pub Every-perm : {A : Type 0} {P : A → Type 0} {l l' : List A} → Permᴰ l l' → Every P l → Every P l'
Every-perm Permᴰ.nil e = e
Every-perm {P = P} (Permᴰ.cons same p) (each_one h e) = each_one (subst P same h) (Every-perm p e)
Every-perm {P = P} (Permᴰ.swap e1 e2) (each_one h (each_one k e)) =
    each_one (subst P e2 k) (each_one (subst P e1 h) e)
Every-perm (Permᴰ.trans p q) e = Every-perm q (Every-perm p e)

pub check_all-perm :
    {A : Type 0} (f : A → Check) {l l' : List A}
    → Permᴰ l l'
    → check_all f l ≡ fine
    → check_all f l' ≡ fine
check_all-perm f {l} {l'} p h = (check_all-fine f l').1 (Every-perm p ((check_all-fine f l).0 h))
