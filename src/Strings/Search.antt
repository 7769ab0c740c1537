-- ===== src/Strings/Search.antt =====
-- Searching in a text that is put together from parts.
use frog_quant.Prelude.{
  ℕ, ◌≡◌, refl, Bool, true, false, some, [], ◌∷◌, ◌++◌, Text, ◌==◌, arith, All, drop, length,
}
use frog_quant.Strings.{starts_with, find, before}

-- A text that begins with a character is not found where that character does not stand.
pub find-skip :
    (c : ℕ) (token pre rest : Text)
    → All (λ b. (c == b) ≡ false) pre
    → find (c ∷ token) (pre ++ rest) ≡ find (c ∷ token) rest
unfolding find starts_with
find-skip c token [] rest h = refl
find-skip c token (b ∷ pre) rest h = ground (arith, find-skip c token pre rest h.1)

pub starts_with-append : (token rest : Text) → starts_with token (token ++ rest) ≡ true
unfolding starts_with
starts_with-append [] rest = refl
starts_with-append (c ∷ token) rest = ground (arith, starts_with-append token rest)

pub drop-append : (token rest : Text) → drop (length token) (token ++ rest) ≡ rest
drop-append [] rest = refl
drop-append (c ∷ token) rest = drop-append token rest

-- The text in front of a delimiter that does not stand in it.
pub before-append :
    (test : ℕ → Bool) (s : Text) (c : ℕ) (rest : Text)
    → All (λ b. test b ≡ false) s
    → test c ≡ true
    → before test (s ++ c ∷ rest) ≡ some s
unfolding before
before-append test [] c rest h e = rw e refl
before-append test (b ∷ s) c rest h e = rw (h.0, before-append test s c rest h.1 e) refl
