-- ===== src/Text/Trim.antt =====
-- Trimming: what is trimmed stays so, also with a suffix that does not end in white space.
use mathlib.Core.List.{reverse, reverse-cons, reverse-append, reverse-reverse}
use netjugo.Prelude.{◌≡◌, ℕ, refl, sym, ap, subst, ◌∙◌, false, Bool-cases, inl, inr, [], ◌∷◌, ◌++◌}
use netjugo.Text.{Text, codes, is_space, trim_left, trim_space, is_empty}

-- The text is empty, or begins with something that is no white space.
abbrev pub StartsBlack : Text → Type 0
StartsBlack [] = Unit
StartsBlack (c ∷ t) = is_space c ≡ false

trim_left-StartsBlack : (t : Text) → StartsBlack (trim_left t)
unfolding trim_left
trim_left-StartsBlack [] = tt
trim_left-StartsBlack (c ∷ t) = elim (Bool-cases (is_space c)) [
  | inl e ↦ rw e (trim_left-StartsBlack t)
  | inr e ↦ rw e e
]

trim_left_stays : (t : Text) → StartsBlack t → trim_left t ≡ t
unfolding trim_left
trim_left_stays [] h = refl
trim_left_stays (c ∷ t) h = rw h

-- A trimmed text: neither end is white space.
abbrev pub IsTrimmed : Text → Type 0
IsTrimmed t = StartsBlack t × StartsBlack (reverse t)

pub trim_space_stays : (t : Text) → IsTrimmed t → trim_space t ≡ t
unfolding trim_space
trim_space_stays t (h, k) =
    ap (λ s. reverse (trim_left (reverse s))) (trim_left_stays t h)
    ∙ ap reverse (trim_left_stays (reverse t) k)
    ∙ reverse-reverse t

StartsBlack-append : (t s : Text) → is_empty t ≡ false → StartsBlack t → StartsBlack (t ++ s)
StartsBlack-append [] s e h = absurd (cc)
StartsBlack-append (c ∷ t) s e h = h

trim_left-snoc :
    (t : Text) (c : ℕ) → is_space c ≡ false → trim_left (t ++ (c ∷ [])) ≡ trim_left t ++ (c ∷ [])
unfolding trim_left
trim_left-snoc [] c h = rw h
trim_left-snoc (d ∷ t) c h = elim (Bool-cases (is_space d)) [
  | inl e ↦ rw e (trim_left-snoc t c h)
  | inr e ↦ rw e
]

-- Trimming the end leaves a black beginning.
trim_end-StartsBlack : (t : Text) → StartsBlack t → StartsBlack (reverse (trim_left (reverse t)))
unfolding trim_left
trim_end-StartsBlack [] h = tt
trim_end-StartsBlack (c ∷ t) h =
    subst StartsBlack
      (sym (
        ap (λ r. reverse (trim_left r)) (reverse-cons c t)
        ∙ ap reverse (trim_left-snoc (reverse t) c h)
        ∙ reverse-append (trim_left (reverse t)) (c ∷ [])))
      h

pub trim_space-IsTrimmed : (t : Text) → IsTrimmed (trim_space t)
unfolding trim_space
trim_space-IsTrimmed t =
    let front = trim_left t in
    (
      trim_end-StartsBlack front (trim_left-StartsBlack t),
      subst StartsBlack (sym (reverse-reverse (trim_left (reverse front))))
          (trim_left-StartsBlack (reverse front)),
    )

pub trim_space_idem : (t : Text) → trim_space (trim_space t) ≡ trim_space t
trim_space_idem t = trim_space_stays (trim_space t) (trim_space-IsTrimmed t)

-- A trimmed text with a suffix that is trimmed.
pub IsTrimmed-append :
    (t s : Text)
    → is_empty t ≡ false
    → is_empty (reverse s) ≡ false
    → IsTrimmed t
    → IsTrimmed s
    → IsTrimmed (t ++ s)
IsTrimmed-append t s some_t some_s (h, _) (_, k) = (
  StartsBlack-append t s some_t h,
  subst StartsBlack (sym (reverse-append t s))
      (StartsBlack-append (reverse s) (reverse t) some_s k),
)

-- The suffixes of host prefixes.
pub suffixes-IsTrimmed : IsTrimmed (codes "/32") × IsTrimmed (codes "/128")
unfolding is_space
suffixes-IsTrimmed = ((refl, refl), (refl, refl))
