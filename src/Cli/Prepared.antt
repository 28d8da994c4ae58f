-- ===== src/Cli/Prepared.antt =====
-- `main` of cmd/ipaggregator/main.go: the state that its flags and files prepare, and what it makes of
-- it.
use netjugo.Prelude.{ℕ, ◌≡◌, refl, ap, subst, true, false, ◌||◌, List, none, some, All, pos, ltb_ℤ}
use netjugo.Text.{Text, is_empty}
use netjugo.IpText.{IpText}
use netjugo.Errors.{Result, ok, err, Error}
use netjugo.Uint256.{Uint256}
use netjugo.Sorting.{SortSlice}
use netjugo.Parse.Blocks.{IsClean}
use netjugo.Aggregator.{
  Aggregator, Outcome, ◌then_try◌, new_prefix_aggregator, set_min_prefix_length,
  set_include_prefixes, set_exclude_prefixes,
}
use netjugo.Reader.{Scanned, Opened, opened, add_from_file, add_from_reader}
use netjugo.Reader.Lines.{IsCleanLine}
use netjugo.Optimize.{aggregate}
use netjugo.Output.{get_prefixes}
use netjugo.Output.Laws.{ended}
use netjugo.Lifecycle.{
  Step, min_set, include_set, exclude_set, was_read, Reached, made, later, IsSmall, Reached-IsValid,
  IsReady-of_IsValid,
}
use netjugo.Cli.{
  Flags, World, pieces, set_lengths, read_prefixes_from_file, include_from_file, include_from_flag,
  exclude_from_file, exclude_from_flag, prepare, main,
}
use netjugo.Cli.Laws.{by_if, handled_by}
use netjugo.Cli.Success.{IsAccepted, main_succeeds}

module _ (u : Uint256) (ip : IpText) (world : World) (flags : Flags) (s : SortSlice) where
  -- Texts to include or to add whose host bits the code clears: every IPv4 text, and IPv6 texts
  -- with none set.
  pub record IsCleanInput : Type 0 where
    pub include_file :
        (ts : List Text)
        → read_prefixes_from_file u ip (world.open_file flags.include_file) ≡ ok ts
        → All (IsClean u ip) ts
    pub include_flag : All (IsClean u ip) (pieces flags.include_pfx)
    pub input_file :
        (reader : Scanned)
        → world.open_file flags.input_file ≡ opened reader
        → All (IsCleanLine u ip) reader.lines

  -- Where a call gives no error, its state can be reached.
  Reaches : Outcome → Type 0
  Reaches r = (q : Aggregator) → r ≡ (q, none) → Reached u s ip q

  Reaches-then_try :
      (r : Outcome) (next : Aggregator → Outcome)
      → Reaches r
      → ((pa : Aggregator) → Reached u s ip pa → Reaches (next pa))
      → Reaches (r then_try next)
  unfolding Reaches
  Reaches-then_try (pa, none) next first rest q e = rest pa (first pa refl) q e
  Reaches-then_try (pa, some x) next first rest q e = absurd (cc (ap (λ r. r.1) e))

  Reaches-Step :
      (pa : Aggregator) (o : Outcome) → Reached u s ip pa → Step u s ip pa o.0 → Reaches o
  unfolding Reaches
  Reaches-Step pa o reached step q e = subst (Reached u s ip) (ap (λ r. r.0) e) (later reached step)

  Reaches-same : (pa : Aggregator) → Reached u s ip pa → Reaches (pa, none)
  unfolding Reaches
  Reaches-same pa reached q e = subst (Reached u s ip) (ap (λ r. r.0) e) reached

  Reaches-fails : (pa : Aggregator) (x : Error) → Reaches (pa, some x)
  unfolding Reaches
  Reaches-fails pa x q e = absurd (cc (ap (λ r. r.1) e))

  lengths-Reaches : (pa : Aggregator) → Reached u s ip pa → Reaches (set_lengths flags pa)
  unfolding set_lengths
  lengths-Reaches pa reached =
      let n4 = flags.min_ipv4_len in
      let n6 = flags.min_ipv6_len in
      by_if Reaches (ltb_ℤ (pos 0) n4 || ltb_ℤ (pos 0) n6) (set_min_prefix_length n4 n6 pa)
        (pa, none) (λ _. Reaches-Step pa (set_min_prefix_length n4 n6 pa) reached (min_set n4 n6))
        (λ _. Reaches-same pa reached)

  -- A list of texts that a file gives, or an error.
  file-Reaches :
      (pa : Aggregator) (set : List Text → Outcome) (r : Result (List Text))
      → ((ts : List Text) → r ≡ ok ts → Reaches (set ts))
      → Reaches (elim r [ err e ↦ (pa, some e) | ok prefixes ↦ set prefixes ])
  file-Reaches pa set (err e) h = Reaches-fails pa e
  file-Reaches pa set (ok ts) h = h ts refl

  module _ (clean : IsCleanInput) (pa : Aggregator) (reached : Reached u s ip pa) where
    include_file-Reaches : Reaches (include_from_file u ip world flags pa)
    unfolding include_from_file
    include_file-Reaches =
        let r = read_prefixes_from_file u ip (world.open_file flags.include_file) in
        by_if Reaches (is_empty flags.include_file) (pa, none) _ (λ _. Reaches-same pa reached)
          (λ _.
            file-Reaches pa (λ ts. set_include_prefixes u ip ts pa) r
              (λ ts e.
                Reaches-Step pa (set_include_prefixes u ip ts pa) reached
                  (include_set ts (clean.include_file ts e))))

    include_flag-Reaches : Reaches (include_from_flag u ip world flags pa)
    unfolding include_from_flag
    include_flag-Reaches =
        let ts = pieces flags.include_pfx in
        by_if Reaches (is_empty flags.include_pfx) (pa, none) (set_include_prefixes u ip ts pa)
          (λ _. Reaches-same pa reached)
          (λ _.
            Reaches-Step pa (set_include_prefixes u ip ts pa) reached
              (include_set ts clean.include_flag))

    exclude_file-Reaches : Reaches (exclude_from_file u ip world flags pa)
    unfolding exclude_from_file
    exclude_file-Reaches =
        let r = read_prefixes_from_file u ip (world.open_file flags.exclude_file) in
        by_if Reaches (is_empty flags.exclude_file) (pa, none) _ (λ _. Reaches-same pa reached)
          (λ _.
            file-Reaches pa (λ ts. set_exclude_prefixes u ip ts pa) r
              (λ ts e. Reaches-Step pa (set_exclude_prefixes u ip ts pa) reached (exclude_set ts)))

    exclude_flag-Reaches : Reaches (exclude_from_flag u ip world flags pa)
    unfolding exclude_from_flag
    exclude_flag-Reaches =
        let ts = pieces flags.exclude_pfx in
        by_if Reaches (is_empty flags.exclude_pfx) (pa, none) (set_exclude_prefixes u ip ts pa)
          (λ _. Reaches-same pa reached)
          (λ _. Reaches-Step pa (set_exclude_prefixes u ip ts pa) reached (exclude_set ts))

    input-Reaches : Reaches (add_from_file u ip (world.open_file flags.input_file) pa)
    unfolding add_from_file
    input-Reaches = by_file (world.open_file flags.input_file) clean.input_file
      where
        by_file :
            (file : Opened)
            → ((reader : Scanned) → file ≡ opened reader → All (IsCleanLine u ip) reader.lines)
            → Reaches (add_from_file u ip file pa)
        by_file Opened.not_exist h = Reaches-fails pa Error.file_not_found
        by_file Opened.failed h = Reaches-fails pa Error.plain
        by_file (opened reader) h =
            Reaches-Step pa (add_from_reader u ip reader pa) reached
              (was_read reader (h reader refl))

  prepare-Reaches : IsCleanInput → Reaches (prepare u ip world flags)
  unfolding prepare
  prepare-Reaches clean =
      let lengths = set_lengths flags new_prefix_aggregator in
      let a = lengths then_try include_from_file u ip world flags in
      let b = a then_try include_from_flag u ip world flags in
      let c = b then_try exclude_from_file u ip world flags in
      let d = c then_try exclude_from_flag u ip world flags in
      Reaches-then_try d (add_from_file u ip (world.open_file flags.input_file))
        (Reaches-then_try c (exclude_from_flag u ip world flags)
          (Reaches-then_try b (exclude_from_file u ip world flags)
            (Reaches-then_try a (include_from_flag u ip world flags)
              (Reaches-then_try lengths (include_from_file u ip world flags)
                (lengths-Reaches new_prefix_aggregator made) (include_file-Reaches clean))
              (include_flag-Reaches clean))
            (exclude_file-Reaches clean))
          (exclude_flag-Reaches clean))
        (input-Reaches clean)

  prepare-Reached :
      (p : Aggregator) → IsCleanInput → prepare u ip world flags ≡ (p, none) → Reached u s ip p
  unfolding Reaches
  prepare-Reached p clean prepared = prepare-Reaches clean p prepared

  -- The program ends with the exit code 0 and has written all prefixes of the aggregated state, if
  -- its flags are accepted and name no output file, the flags and files prepare a state without an
  -- error, that state has less than 5000 prefixes and inclusions of each family, the IPv6 texts to
  -- include and to add have no host bits that the code keeps, and the standard output never fails.
  pub main_finishes :
      (p : Aggregator)
      → IsAccepted u ip world flags s
      → IsCleanInput
      → prepare u ip world flags ≡ (p, none)
      → IsSmall p
      → is_empty flags.output_file ≡ true
      → ((n : ℕ) → world.stdout n ≡ false)
      → ((main u ip world flags s).exit_code ≡ 0)
        × ((main u ip world flags s).written
            ≡ ended
                (get_prefixes ip (aggregate u s world.elapsed (handled_by u ip world flags s p)).0))
  main_finishes p accepted clean prepared small no_file works =
      let valid = Reached-IsValid u s ip (prepare-Reached p clean prepared) in
      main_succeeds u ip world flags s p accepted prepared (IsReady-of_IsValid p valid small)
        no_file works
