-- ===== src/Base/Picks.antt =====
-- One entry of a list, and the others in their order.
use mathlib.Core.List.{List, [], ◌∷◌}
use hadron_desktop.Base.Lists.{All}

pub data Pick {ℓ} {A : Type ℓ} (a : A) : List A → List A → Type ℓ where
  here : {xs : List A} → Pick a (a ∷ xs) xs
  there : {b : A} {xs rest : List A} → Pick a xs rest → Pick a (b ∷ xs) (b ∷ rest)

pub All-Pick {ℓ κ} :
    {A : Type ℓ} (P : A → Type κ) {a : A} {xs rest : List A}
    → Pick a xs rest
    → All P xs
    → P a × All P rest
All-Pick P Pick.here (p, ps) = (p, ps)
All-Pick P (Pick.there k) (q, ps) = let (p, others) = All-Pick P k ps in (p, (q, others))

pub All-mono {ℓ κ λ'} :
    {A : Type ℓ} (P : A → Type κ) (Q : A → Type λ')
    → ((a : A) → P a → Q a)
    → (xs : List A) → All P xs
    → All Q xs
All-mono P Q f [] h = tt
All-mono P Q f (x ∷ xs) (p, ps) = (f x p, All-mono P Q f xs ps)
