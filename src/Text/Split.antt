-- ===== src/Text/Split.antt =====
-- `strings.Split` of texts that are joined with the separator between them.
use netjugo.Prelude.{ℕ, ◌≡◌, refl, ap, ◌∙◌, arith, false, List, [], ◌∷◌, ◌++◌, All, ◌==◌}
use netjugo.Text.{Text, contains_char, split_on}

-- The texts with a separator between each two.
abbrev pub joined : ℕ → List Text → Text
joined d [] = []
joined d (t ∷ []) = t
joined d (t ∷ (s ∷ ts)) = t ++ (d ∷ joined d (s ∷ ts))

module _ (d : ℕ) where
  abbrev pub IsPiece : Text → Type 0
  IsPiece t = contains_char d t ≡ false

  free_parts : (c : ℕ) (t : Text) → IsPiece (c ∷ t) → ((c == d) ≡ false) × IsPiece t
  free_parts c t free = (ground arith, ground arith)

  -- A text is split at the first separator, and one without a separator is its only piece.
  split_first : (t rest : Text) → IsPiece t → split_on d (t ++ (d ∷ rest)) ≡ t ∷ split_on d rest
  unfolding split_on
  split_first [] rest free = ground arith
  split_first (c ∷ t) rest free =
      let (other, later) = free_parts c t free in rw (other, split_first t rest later) refl

  split_last : (t : Text) → IsPiece t → split_on d t ≡ t ∷ []
  unfolding split_on
  split_last [] free = refl
  split_last (c ∷ t) free =
      let (other, later) = free_parts c t free in rw (other, split_last t later) refl

  pub split_on-joined :
      (t : Text) (ts : List Text) → All IsPiece (t ∷ ts) → split_on d (joined d (t ∷ ts)) ≡ t ∷ ts
  split_on-joined t [] (free, others) = split_last t free
  split_on-joined t (s ∷ ts) (free, others) =
      split_first t (joined d (s ∷ ts)) free ∙ ap (λ k. t ∷ k) (split_on-joined s ts others)
