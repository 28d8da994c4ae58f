-- ===== src/Aggregator/Decided.antt =====
-- Whether a list of texts is taken as a whole, and what is added where it is not.
use netjugo.Prelude.{
  ◌+◌, ◌≡◌, refl, sym, ap, ◌∙◌, arith, true, false, List, [], ◌∷◌, ◌++◌, none, some, length, All,
}
use netjugo.Text.{Text}
use netjugo.IpText.{IpText}
use netjugo.Errors.{is_ok, Error}
use netjugo.Uint256.{Uint256}
use netjugo.Parse.{is_valid_ip_prefix}
use netjugo.Parse.Laws.{ranged, is_valid_ip_prefix_lem, parse_ip_prefix-IsParsed, parsed, refused}
use netjugo.Aggregator.{Aggregator, Outcome, add_prefixes}
use netjugo.Aggregator.Texts.{
  read_before, first_error, read_fails, read_reads, with_added, add_prefixes_lem,
}

module _ (u : Uint256) (ip : IpText) where
  -- The error of a list of texts is absent where all of them are valid, and else the sentinel.
  data IsDecided (ts : List Text) : Type 0 where
    accepted :
        All (λ t. is_valid_ip_prefix u ip t ≡ true) ts
        → first_error u ip ts ≡ none
        → length (read_before u ip ts) ≡ length ts
        → IsDecided ts
    rejected :
        (before behind : List Text) (t : Text)
        → ts ≡ before ++ (t ∷ behind)
        → is_valid_ip_prefix u ip t ≡ false
        → All (λ s. is_valid_ip_prefix u ip s ≡ true) before
        → first_error u ip ts ≡ some Error.invalid_prefix
        → read_before u ip ts ≡ read_before u ip before
        → length (read_before u ip before) ≡ length before
        → IsDecided ts

  texts-IsDecided : (ts : List Text) → IsDecided ts
  texts-IsDecided [] = accepted tt refl refl
  texts-IsDecided (t ∷ ts) = elim (parse_ip_prefix-IsParsed u ip t) [
    | refused found ↦
        let (none_read, fails) = read_fails u ip t ts Error.invalid_prefix found in
        rejected [] ts t refl (is_valid_ip_prefix_lem u ip t ∙ ap is_ok found) tt fails none_read
          refl
    | parsed f a h fits host found ↦
        let (reads, fails) = read_reads u ip t ts (ranged f a h) found in
        let valid = is_valid_ip_prefix_lem u ip t ∙ ap is_ok found in
        elim (texts-IsDecided ts) [
          | accepted all fine n ↦
              accepted (valid, all) (fails ∙ fine) (omega (arith, ap length reads, n))
          | rejected before behind bad split wrong all e same n ↦
              let (reads', _) = read_reads u ip t before (ranged f a h) found in
              rejected (t ∷ before) behind bad (ap (λ k. t ∷ k) split) wrong (valid, all)
                (fails ∙ e) (reads ∙ ap (λ l. ranged f a h ∷ l) same ∙ sym reads')
                (omega (arith, ap length reads', n))
        ]
  ]

  -- What a call on a list of texts ends with.
  pub data IsAddedAll (ts : List Text) (pa : Aggregator) (r : Outcome) : Type 0 where
    all_added :
        All (λ t. is_valid_ip_prefix u ip t ≡ true) ts
        → r.1 ≡ none
        → r.0.original_count ≡ pa.original_count + length ts
        → IsAddedAll ts pa r
    stopped :
        (before behind : List Text) (t : Text)
        → ts ≡ before ++ (t ∷ behind)
        → is_valid_ip_prefix u ip t ≡ false
        → All (λ s. is_valid_ip_prefix u ip s ≡ true) before
        → r.1 ≡ some Error.invalid_prefix
        → r.0 ≡ (add_prefixes u ip before pa).0
        → r.0.original_count ≡ pa.original_count + length before
        → IsAddedAll ts pa r

  -- Either all texts of a list are valid, and `AddPrefixes` gives no error and counts all of them;
  -- or it gives the sentinel for an invalid prefix, and the state is the one after a call with the
  -- texts before the first invalid one, which are counted.
  pub add_prefixes-IsAddedAll :
      (ts : List Text) (pa : Aggregator) → IsAddedAll ts pa (add_prefixes u ip ts pa)
  add_prefixes-IsAddedAll ts pa =
      let lem = add_prefixes_lem u ip ts pa in
      let count = ap (λ r. r.0.original_count) lem in
      elim (texts-IsDecided ts) [
        | accepted all fine n ↦ all_added all (ap (λ r. r.1) lem ∙ fine) (omega (arith, count, n))
        | rejected before behind t split wrong all e same n ↦
            stopped before behind t split wrong all (ap (λ r. r.1) lem ∙ e)
              (ap (λ r. r.0) lem
                ∙ ap (λ k. (with_added u ip pa k none).0) same
                ∙ sym (ap (λ r. r.0) (add_prefixes_lem u ip before pa)))
              (omega (arith, count, ap length same, n))
      ]
