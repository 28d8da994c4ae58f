-- ===== src/Reader/Lines.antt =====
-- `AddFromReader`: what its lines add.
use netjugo.Prelude.{
  ◌≡◌, refl, sym, ap, ap₂, ◌∙◌, subst, arith, List, [], ◌∷◌, none, some, Option-cases, inl, inr,
  All, if◌then◌else◌,
}
use netjugo.Text.{Text}
use netjugo.IpText.{IpText}
use netjugo.Errors.{ok, err, Error}
use netjugo.Uint256.{Uint256}
use netjugo.IpPrefix.{IpPrefix}
use netjugo.Parse.{parse_ip_prefix}
use netjugo.Parse.Blocks.{IsClean}
use netjugo.Aggregator.{Aggregator, add_prefix}
use netjugo.Aggregator.Lists.{
  taken, not_taken, taken_ipv4, taken_ipv6, add_prefix_fails, add_prefix_ipv4, add_prefix_ipv6,
}
use netjugo.Aggregator.Texts.{with_added, filled_none, filled_ipv4, filled_ipv6, grown}
use netjugo.Aggregator.Valid.{IsValid, add_prefix-IsValid}
use netjugo.Reader.{Scanned, line_prefix, add_line, add_lines, add_from_reader}

module _ (u : Uint256) (ip : IpText) where
  -- The prefix of a line, behind which those of the other lines stand.
  abbrev pub read_line : Text → List IpPrefix → List IpPrefix
  read_line raw rest = elim (line_prefix raw) [
    | none ↦ rest
    | some line ↦ elim (parse_ip_prefix u ip line) [ err e ↦ rest | ok p ↦ p ∷ rest ]
  ]

  -- The prefixes of all the lines that have one.
  abbrev pub read_lines : List Text → List IpPrefix
  read_lines [] = []
  read_lines (raw ∷ raws) = read_line raw (read_lines raws)

  module _ (raw : Text) (rest : List IpPrefix) (pa : Aggregator) where
    skip_line : line_prefix raw ≡ none → (add_line u ip raw pa ≡ pa) × (read_line raw rest ≡ rest)
    unfolding add_line
    skip_line found = (rw (found, add_line) refl, rw (found, read_line) refl)

    module _ (line : Text) (found : line_prefix raw ≡ some line) where
      pub pass_line : add_line u ip raw pa ≡ (add_prefix u ip line pa).0
      unfolding add_line
      pass_line = rw (found, add_line) refl

      read_line_fails : (e : Error) → parse_ip_prefix u ip line ≡ err e → read_line raw rest ≡ rest
      read_line_fails e wrong = rw (found, read_line, wrong) refl

      read_line_reads :
          (p : IpPrefix) → parse_ip_prefix u ip line ≡ ok p → read_line raw rest ≡ p ∷ rest
      read_line_reads p right = rw (found, read_line, right) refl

  added : Aggregator → List IpPrefix → Aggregator
  added pa ps = (with_added u ip pa ps none).0

  -- One line, and the prefixes of the others.
  add_line_lem :
      (raw : Text) (rest : List IpPrefix) (pa : Aggregator)
      → added (add_line u ip raw pa) rest ≡ added pa (read_line raw rest)
  unfolding added
  add_line_lem raw rest pa = elim (Option-cases (line_prefix raw)) [
    | inl skipped ↦
        let (same, without) = skip_line raw rest pa skipped in ap₂ added same (sym without)
    | inr (line, found) ↦
        let passed = pass_line raw rest pa line found in
        elim (taken (parse_ip_prefix u ip line)) [
          | not_taken e wrong ↦
              ap₂ added (passed ∙ ap (λ r. r.0) (add_prefix_fails u ip line pa e wrong))
                (sym (read_line_fails raw rest pa line found e wrong))
          | taken_ipv4 p right four ↦
              ap (λ s. added s rest)
                (passed ∙ ap (λ r. r.0) (add_prefix_ipv4 u ip line pa p right four))
              ∙ ap₂ (λ l n. (grown u ip pa l n).0)
                  (filled_ipv4 u ip pa.ipv4_prefixes pa.ipv6_prefixes rest none p four)
                  (omega arith)
              ∙ ap (added pa) (sym (read_line_reads raw rest pa line found p right))
          | taken_ipv6 p right six ↦
              ap (λ s. added s rest)
                (passed ∙ ap (λ r. r.0) (add_prefix_ipv6 u ip line pa p right six))
              ∙ ap₂ (λ l n. (grown u ip pa l n).0)
                  (filled_ipv6 u ip pa.ipv4_prefixes pa.ipv6_prefixes rest none p six) (omega arith)
              ∙ ap (added pa) (sym (read_line_reads raw rest pa line found p right))
        ]
  ]

  add_lines_lem :
      (raws : List Text) (pa : Aggregator) → add_lines u ip raws pa ≡ added pa (read_lines raws)
  unfolding add_lines added
  add_lines_lem [] pa = sym (
      ap₂ (λ l n. (grown u ip pa l n).0) (filled_none u ip pa.ipv4_prefixes pa.ipv6_prefixes none)
        (omega arith))
  add_lines_lem (raw ∷ raws) pa =
      add_lines_lem raws (add_line u ip raw pa) ∙ add_line_lem raw (read_lines raws) pa

  -- `AddFromReader` adds the prefix of each line that has one that is read, by family and in the
  -- order of the lines, and counts them. Its only error is the one of the reader.
  pub add_from_reader_lem :
      (reader : Scanned) (pa : Aggregator)
      → add_from_reader u ip reader pa
        ≡ with_added u ip pa
            (read_lines reader.lines)
            (if reader.failed then some Error.plain else none)
  unfolding add_from_reader added
  add_from_reader_lem reader pa =
      ap (λ s. (s, if reader.failed then some Error.plain else none))
        (add_lines_lem reader.lines pa)

  add_line-IsValid :
      (raw : Text) (pa : Aggregator)
      → ((line : Text) → line_prefix raw ≡ some line → IsClean u ip line)
      → IsValid pa
      → IsValid (add_line u ip raw pa)
  add_line-IsValid raw pa clean v = elim (Option-cases (line_prefix raw)) [
    | inl skipped ↦ subst IsValid (sym (skip_line raw [] pa skipped).0) v
    | inr (line, found) ↦
        subst IsValid (sym (pass_line raw [] pa line found))
          (add_prefix-IsValid u ip line pa (clean line found) v)
  ]

  -- The lines whose host bits the code clears.
  abbrev pub IsCleanLine : Text → Type 0
  IsCleanLine raw = (line : Text) → line_prefix raw ≡ some line → IsClean u ip line

  add_lines-IsValid :
      (raws : List Text) (pa : Aggregator)
      → All IsCleanLine raws
      → IsValid pa
      → IsValid (add_lines u ip raws pa)
  unfolding add_lines
  add_lines-IsValid [] pa clean v = v
  add_lines-IsValid (raw ∷ raws) pa (one, clean) v =
      add_lines-IsValid raws (add_line u ip raw pa) clean (add_line-IsValid raw pa one v)

  pub add_from_reader-IsValid :
      (reader : Scanned) (pa : Aggregator)
      → All IsCleanLine reader.lines
      → IsValid pa
      → IsValid (add_from_reader u ip reader pa).0
  unfolding add_from_reader
  add_from_reader-IsValid reader pa = add_lines-IsValid reader.lines pa
