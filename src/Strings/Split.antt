-- ===== src/Strings/Split.antt =====
-- Splitting a text at a separator.
use frog_quant.Prelude.{
  ℕ, ◌≡◌, refl, false, List, [], ◌∷◌, ◌++◌, Text, if◌then◌else◌, ◌==◌, All, ==_self,
}

abbrev pub put_front : ℕ → List Text → List Text
put_front c [] = (c ∷ []) ∷ []
put_front c (l ∷ ls) = (c ∷ l) ∷ ls

unfoldable pub split : ℕ → Text → List Text
split c [] = [] ∷ []
split c (b ∷ s) = let rest = split c s in if b == c then [] ∷ rest else put_front b rest

abbrev pub Lacks : ℕ → Text → Type 0
Lacks c s = All (λ b. (b == c) ≡ false) s

pub split-last : (c : ℕ) (s : Text) → Lacks c s → split c s ≡ s ∷ []
unfolding split
split-last c [] h = refl
split-last c (b ∷ s) h = rw (h.0, split-last c s h.1) refl

pub split-append : (c : ℕ) (s rest : Text) → Lacks c s → split c (s ++ c ∷ rest) ≡ s ∷ split c rest
unfolding split
split-append c [] rest h = rw (==_self c) refl
split-append c (b ∷ s) rest h = rw (h.0, split-append c s rest h.1) refl
