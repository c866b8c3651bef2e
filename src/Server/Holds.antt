-- ===== src/Server/Holds.antt =====
-- What holds of the result of a run that may abort.
use pyxis.Prelude.{
  ap, refl, inl, inr, ◌⊎◌, Bool, true, false, Option, none, some, ◌≡◌, subst, if◌then◌else◌, ◌⊎◌,
  inr, inl,
}
use pyxis.Maps.Keys.{nat_key}
use pyxis.Store.{Run, returns, aborts}
use pyxis.Server.{chain, check}

pub Run-cases : {A : Type 0} (r : Run A) → (r ≡ aborts) ⊎ ((a : A) × (r ≡ returns a))
Run-cases (returns a) = inr (a, refl)
Run-cases aborts = inl refl

-- What holds of a result, where a run has one.
pub data Holds {A : Type 0} (P : A → Type 0) : Run A → Type 0 where
  of_result : (a : A) → P a → Holds P (returns a)
  of_none : Holds P aborts

pub Holds-chain :
    {A B : Type 0} (P : A → Type 0) (Q : B → Type 0) (r : Run A) (f : A → Run B)
    → Holds P r
    → ((a : A) → P a → Holds Q (f a))
    → Holds Q (chain r f)
Holds-chain P Q (returns _) f (of_result a p) k = k a p
Holds-chain P Q aborts f of_none k = of_none

pub Holds-check :
    {A : Type 0} (P : A → Type 0) (b : Bool) (r : Run A) → Holds P r → Holds P (check b r)
Holds-check P true r h = h
Holds-check P false r h = of_none

-- Without a hypothesis on what is chained.
pub Holds-after :
    {A B : Type 0} (Q : B → Type 0) (r : Run A) (f : A → Run B)
    → ((a : A) → Holds Q (f a))
    → Holds Q (chain r f)
Holds-after Q (returns a) f k = k a
Holds-after Q aborts f k = of_none

held : {A : Type 0} (P : A → Type 0) (a : A) → Holds P (returns a) → P a
held P _ (of_result a p) = p

pub held_by : {A : Type 0} (P : A → Type 0) (r : Run A) (a : A) → Holds P r → r ≡ returns a → P a
held_by P r a h e = held P a (subst (Holds P) e h)

pub Holds-if :
    {A : Type 0} (P : A → Type 0) (b : Bool) (r q : Run A)
    → Holds P r
    → Holds P q
    → Holds P (if b then r else q)
Holds-if P true r q h k = h
Holds-if P false r q h k = k

-- The same, where the branches may use the test.
pub Holds-test :
    {A : Type 0} (P : A → Type 0) (b : Bool) (r q : Run A)
    → (b ≡ true → Holds P r)
    → (b ≡ false → Holds P q)
    → Holds P (if b then r else q)
Holds-test P true r q h k = h refl
Holds-test P false r q h k = k refl

pub Holds-checked :
    {A : Type 0} (P : A → Type 0) (b : Bool) (r : Run A)
    → (b ≡ true → Holds P r)
    → Holds P (check b r)
Holds-checked P true r h = h refl
Holds-checked P false r h = of_none

-- Runs with the same result.
pub one_result : {A : Type 0} (a b : A) → returns a ≡ returns b → a ≡ b
one_result {A = A} a b e = ap (λ (r : Run A). elim r [ returns x ↦ x | aborts ↦ a ]) e

pub Holds-elim :
    {X A : Type 0} (P : A → Type 0) (o : Option X) (r : Run A) (f : X → Run A)
    → Holds P r
    → ((x : X) → Holds P (f x))
    → Holds P (elim o [ none ↦ r | some x ↦ f x ])
Holds-elim P none r f h k = h
Holds-elim P (some x) r f h k = k x

-- The same of plain values.
pub both_ways :
    {A : Type 0} (P : A → Type 0) (b : Bool) (x y : A) → P x → P y → P (if b then x else y)
both_ways P true x y h k = h
both_ways P false x y h k = k

pub either_way :
    {X A : Type 0} (P : A → Type 0) (o : Option X) (y : A) (f : X → A)
    → P y
    → ((x : X) → P (f x))
    → P (elim o [ none ↦ y | some x ↦ f x ])
either_way P none y f h k = h
either_way P (some x) y f h k = k x

pub weakened :
    {A : Type 0} (P Q : A → Type 0) (r : Run A) → ((a : A) → P a → Q a) → Holds P r → Holds Q r
weakened P Q (returns _) k (of_result a p) = of_result a (k a p)
weakened P Q aborts k of_none = of_none

pub Holds-both :
    {A : Type 0} (P Q : A → Type 0) (r : Run A) → Holds P r → Holds Q r → Holds (λ a. P a × Q a) r
Holds-both P Q (returns a) h g = of_result a (held P a h, held Q a g)
Holds-both P Q aborts h g = of_none
