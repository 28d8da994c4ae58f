-- ===== src/Cli/Laws.antt =====
-- `main` of cmd/ipaggregator/main.go: what it has written when it reports success.
use netjugo.Prelude.{
  ◌≡◌, refl, ap, Bool, true, false, ◌||◌, inl, inr, [], none, Option-cases, pos, ltb_ℤ,
  if◌then◌else◌,
}
use netjugo.Text.{is_empty}
use netjugo.IpText.{IpText}
use netjugo.Uint256.{Uint256}
use netjugo.Sorting.{SortSlice}
use netjugo.Aggregator.{Aggregator, set_warning_handler}
use netjugo.Optimize.{aggregate}
use netjugo.Output.{get_prefixes, write_to_writer, write_to_file}
use netjugo.Output.Laws.{ended, write_to_writer_done, write_to_file_done}
use netjugo.Cli.{Flags, World, Finished, fatal, prepare, write_output, reports, finish, run, main}

-- What holds of both branches holds of the conditional.
pub by_if :
    {A : Type 0} (P : A → Type 0) (b : Bool) (x y : A)
    → (b ≡ true → P x)
    → (b ≡ false → P y)
    → P (if b then x else y)
by_if P true x y left right = left refl
by_if P false x y left right = right refl

module _ (u : Uint256) (ip : IpText) (world : World) (flags : Flags) where
  -- Success of the output is all lines.
  pub write_output_done :
      (pa : Aggregator)
      → (write_output u ip world flags pa).1 ≡ none
      → (write_output u ip world flags pa).0 ≡ ended (get_prefixes ip pa)
  unfolding write_output
  write_output_done pa =
      by_if (λ r. r.1 ≡ none → r.0 ≡ ended (get_prefixes ip pa)) (is_empty flags.output_file)
        (write_to_writer ip world.stdout pa)
        (write_to_file ip (world.create_file flags.output_file) pa)
        (λ _. write_to_writer_done ip world.stdout pa)
        (λ _. write_to_file_done ip (world.create_file flags.output_file) pa)

  module _ (s : SortSlice) where
    -- The aggregator that is aggregated.
    abbrev pub handled_by : Aggregator → Aggregator
    handled_by prepared = if flags.verbose then set_warning_handler true prepared else prepared

    -- The program only printed its version, or it prepared an aggregator, aggregated it and wrote
    -- all of its prefixes, without an error.
    pub data IsSuccess (r : Finished) : Type 0 where
      only_version : flags.version ≡ true → r.written ≡ [] → r.reported ≡ [] → IsSuccess r
      all_written :
          (p q : Aggregator)
          → prepare u ip world flags ≡ (p, none)
          → aggregate u s world.elapsed (handled_by p) ≡ (q, none)
          → r.written ≡ ended (get_prefixes ip q)
          → r.reported ≡ reports u ip world flags q
          → IsSuccess r

    IsChecked : Finished → Type 0
    IsChecked r = r.exit_code ≡ 0 → IsSuccess r

    finish-IsChecked :
        (p : Aggregator)
        → prepare u ip world flags ≡ (p, none)
        → IsChecked (finish u ip world flags s p)
    unfolding finish IsChecked
    finish-IsChecked p ready =
        let done = aggregate u s world.elapsed (handled_by p) in
        elim (Option-cases done.1) [
          | inr (e, failed) ↦ rw (failed, finish) (λ zero. absurd cc)
          | inl fine ↦ elim (Option-cases (write_output u ip world flags done.0).1) [
            | inr (e, failed) ↦ rw (fine, finish, failed) (λ zero. absurd cc)
            | inl written ↦
                rw (fine, finish, written)
                  (λ zero.
                    all_written p done.0 ready (ap (λ o. (done.0, o)) fine)
                      (write_output_done done.0 written) refl)
          ]
        ]

    run-IsChecked : IsChecked (run u ip world flags s)
    unfolding run IsChecked
    run-IsChecked = elim (Option-cases (prepare u ip world flags).1) [
      | inr (e, failed) ↦ rw (failed, run) (λ zero. absurd cc)
      | inl fine ↦
          let p = (prepare u ip world flags).0 in
          rw (fine, run) (finish-IsChecked p (ap (λ o. (p, o)) fine))
    ]

    fatal-IsChecked : IsChecked fatal
    unfolding IsChecked
    fatal-IsChecked zero = absurd cc

    -- Where the program ends with the exit code 0, it only printed its version, or it prepared an
    -- aggregator and aggregated it without an error, wrote a line for each of its prefixes, and
    -- reported the statistics of that state that its flags ask for.
    pub main-IsSuccess :
        (main u ip world flags s).exit_code ≡ 0 → IsSuccess (main u ip world flags s)
    unfolding main IsChecked
    main-IsSuccess =
        let n4 = flags.min_ipv4_len in
        let n6 = flags.min_ipv6_len in
        by_if IsChecked flags.version _ _ (λ only zero. only_version only refl refl)
          (λ _.
            by_if IsChecked (is_empty flags.input_file) fatal _ (λ _. fatal-IsChecked)
              (λ _.
                by_if IsChecked (ltb_ℤ n4 (pos 0) || ltb_ℤ (pos 32) n4) fatal _
                  (λ _. fatal-IsChecked)
                  (λ _.
                    by_if IsChecked (ltb_ℤ n6 (pos 0) || ltb_ℤ (pos 128) n6) fatal
                      (run u ip world flags s) (λ _. fatal-IsChecked) (λ _. run-IsChecked))))
