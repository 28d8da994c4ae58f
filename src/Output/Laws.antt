-- ===== src/Output/Laws.antt =====
-- What is given out against what the state holds.
use netjugo.Prelude.{
  ℕ, zero, suc, ◌+◌, ◌<◌, ◌≡◌, ◌∙◌, refl, ap, arith, true, false, Bool-cases, inl, inr, List, [],
  ◌∷◌, ◌++◌, Option, none, some, length,
}
use netjugo.Errors.{Error}
use netjugo.Text.{Text, codes}
use netjugo.IpText.{IpText}
use netjugo.Aggregator.{Aggregator}
use netjugo.Output.{get_prefixes, Writer, write_lines, write_to_writer, write_to_file}

-- The texts with a line's end behind each.
abbrev pub ended : List Text → List Text
ended [] = []
ended (line ∷ lines) = (line ++ codes "\n") ∷ ended lines

-- What is written: all lines, where no call fails; else those before the call that fails first.
pub data IsWritten (writer : Writer) (n : ℕ) (lines : List Text) (r : List Text × Option Error)
    : Type 0 where
  finished :
      ((k : ℕ) → k < length lines → writer (n + k) ≡ false)
      → r ≡ (ended lines, none)
      → IsWritten writer n lines r
  broken :
      (before behind : List Text) (line : Text)
      → lines ≡ before ++ (line ∷ behind)
      → writer (n + length before) ≡ true
      → ((k : ℕ) → k < length before → writer (n + k) ≡ false)
      → r ≡ (ended before, some Error.plain)
      → IsWritten writer n lines r

none_failed :
    (writer : Writer) (n m : ℕ)
    → writer n ≡ false
    → ((k : ℕ) → k < m → writer (suc n + k) ≡ false)
    → (k : ℕ) → k < suc m
    → writer (n + k) ≡ false
none_failed writer n m first rest zero lt = ap writer (omega arith) ∙ first
none_failed writer n m first rest (suc k) lt = ap writer (omega arith) ∙ rest k (omega arith)

module _ (writer : Writer) where
  write_lines_next :
      (n : ℕ) (line : Text) (lines : List Text)
      → writer n ≡ false
      → write_lines writer n (line ∷ lines) ≡ (
        (line ++ codes "\n") ∷ (write_lines writer (suc n) lines).0,
        (write_lines writer (suc n) lines).1,
      )
  unfolding write_lines
  write_lines_next n line lines fine = rw (fine, write_lines)

  write_lines-IsWritten :
      (n : ℕ) (lines : List Text) → IsWritten writer n lines (write_lines writer n lines)
  unfolding write_lines
  write_lines-IsWritten n [] = finished (λ k lt. absurd (omega arith)) refl
  write_lines-IsWritten n (line ∷ lines) = elim (Bool-cases (writer n)) [
    | inl fails ↦
        broken [] lines line refl (ap writer (omega arith) ∙ fails) (λ k lt. absurd (omega arith))
          (rw (fails, write_lines))
    | inr fine ↦
        let next = write_lines_next n line lines fine in
        elim (write_lines-IsWritten (suc n) lines) [
          | finished all e ↦
              finished (none_failed writer n (length lines) fine all)
                (next ∙ ap (λ r. ((line ++ codes "\n") ∷ r.0, r.1)) e)
          | broken before behind bad split fails all e ↦
              broken (line ∷ before) behind bad (ap (λ k. line ∷ k) split)
                (ap writer (omega arith) ∙ fails) (none_failed writer n (length before) fine all)
                (next ∙ ap (λ r. ((line ++ codes "\n") ∷ r.0, r.1)) e)
        ]
  ]

  -- `WriteToWriter` writes a line for each prefix that `GetPrefixes` gives, in order and without
  -- an error where no call of the writer fails, and else the lines before the first call that
  -- fails, with an error.
  pub write_to_writer-IsWritten :
      (ip : IpText) (pa : Aggregator)
      → IsWritten writer 0 (get_prefixes ip pa) (write_to_writer ip writer pa)
  unfolding write_to_writer
  write_to_writer-IsWritten ip pa = write_lines-IsWritten 0 (get_prefixes ip pa)

-- Where a writer gives no error, all lines are written.
pub write_to_writer_done :
    (ip : IpText) (writer : Writer) (pa : Aggregator)
    → (write_to_writer ip writer pa).1 ≡ none
    → (write_to_writer ip writer pa).0 ≡ ended (get_prefixes ip pa)
write_to_writer_done ip writer pa fine = elim (write_to_writer-IsWritten writer ip pa) [
  | finished all e ↦ ap (λ r. r.0) e
  | broken before behind line split fails all e ↦ absurd (cc (ap (λ r. r.1) e))
]

pub write_to_file_done :
    (ip : IpText) (file : Option Writer) (pa : Aggregator)
    → (write_to_file ip file pa).1 ≡ none
    → (write_to_file ip file pa).0 ≡ ended (get_prefixes ip pa)
unfolding write_to_file
write_to_file_done ip none pa fine = absurd cc
write_to_file_done ip (some writer) pa fine = write_to_writer_done ip writer pa fine

-- A writer that never fails.
pub write_to_writer_works :
    (ip : IpText) (writer : Writer) (pa : Aggregator)
    → ((n : ℕ) → writer n ≡ false)
    → (write_to_writer ip writer pa).1 ≡ none
write_to_writer_works ip writer pa works = elim (write_to_writer-IsWritten writer ip pa) [
  | finished all e ↦ ap (λ r. r.1) e
  | broken before behind line split fails all e ↦ absurd (cc (works (0 + length before)))
]
