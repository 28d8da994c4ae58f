-- ===== src/Cli/Success.antt =====
-- `main` of cmd/ipaggregator/main.go: when it succeeds.
use netjugo.Prelude.{ℕ, ◌≡◌, refl, sym, ap, ◌∙◌, subst, true, false, ◌||◌, none, pos, ltb_ℤ}
use netjugo.Text.{is_empty}
use netjugo.IpText.{IpText}
use netjugo.Uint256.{Uint256}
use netjugo.Sorting.{SortSlice}
use netjugo.Aggregator.{Aggregator, set_warning_handler}
use netjugo.Optimize.{aggregate}
use netjugo.Optimize.Whole.{IsReady, aggregate-IsAggregated}
use netjugo.Aggregator.Valid.{set_warning_handler_lem}
use netjugo.Output.{get_prefixes}
use netjugo.Output.Laws.{ended, write_to_writer_works}
use netjugo.Cli.{Flags, World, prepare, write_output, finish, run, main}
use netjugo.Cli.Laws.{by_if, write_output_done, handled_by}

module _ (u : Uint256) (ip : IpText) (world : World) (flags : Flags) (s : SortSlice) where
  handled_by-IsReady : (p : Aggregator) → IsReady p → IsReady (handled_by u ip world flags s p)
  handled_by-IsReady p r =
      by_if IsReady flags.verbose (set_warning_handler true p) p
        (λ _. subst IsReady (sym (set_warning_handler_lem true p)) (record {
          min_ipv4 = r.min_ipv4;
          min_ipv6 = r.min_ipv6;
          min_ipv4_fits = r.min_ipv4_fits;
          min_ipv6_fits = r.min_ipv6_fits;
          set_ipv4 = r.set_ipv4;
          set_ipv6 = r.set_ipv6;
          blocks_ipv4 = r.blocks_ipv4;
          blocks_ipv6 = r.blocks_ipv6;
          few_ipv4 = r.few_ipv4;
          few_ipv6 = r.few_ipv6;
          exclusions_ipv4 = r.exclusions_ipv4;
          exclusions_ipv6 = r.exclusions_ipv6;
        }))
        (λ _. r)

  -- Flags that are not refused.
  pub record IsAccepted : Type 0 where
    pub no_version : flags.version ≡ false
    pub some_input : is_empty flags.input_file ≡ false
    pub ipv4_in_range :
        (ltb_ℤ flags.min_ipv4_len (pos 0) || ltb_ℤ (pos 32) flags.min_ipv4_len) ≡ false
    pub ipv6_in_range :
        (ltb_ℤ flags.min_ipv6_len (pos 0) || ltb_ℤ (pos 128) flags.min_ipv6_len) ≡ false

  main-run : IsAccepted → main u ip world flags s ≡ run u ip world flags s
  unfolding main
  main-run h = rw (h.no_version, h.some_input, h.ipv4_in_range, h.ipv6_in_range)

  run-finish :
      (p : Aggregator)
      → prepare u ip world flags ≡ (p, none)
      → run u ip world flags s ≡ finish u ip world flags s p
  unfolding run
  run-finish p ready = rw (ap (λ r. r.1) ready, run) (ap (λ r. finish u ip world flags s r.0) ready)

  finish_writes :
      (p : Aggregator)
      → (aggregate u s world.elapsed (handled_by u ip world flags s p)).1 ≡ none
      → (write_output u ip world flags
          (aggregate u s world.elapsed (handled_by u ip world flags s p)).0).1
        ≡ none
      → ((finish u ip world flags s p).exit_code ≡ 0)
        × ((finish u ip world flags s p).written
            ≡ ended
                (get_prefixes ip (aggregate u s world.elapsed (handled_by u ip world flags s p)).0))
  unfolding finish
  finish_writes p fine written =
      let done =
        write_output_done u ip world flags
          (aggregate u s world.elapsed (handled_by u ip world flags s p)).0 written in
      rw (fine, finish, written) (refl, done)

  stdout_writes :
      (pa : Aggregator)
      → is_empty flags.output_file ≡ true
      → ((n : ℕ) → world.stdout n ≡ false)
      → (write_output u ip world flags pa).1 ≡ none
  unfolding write_output
  stdout_writes pa no_file works =
      rw (no_file, write_output) (write_to_writer_works ip world.stdout pa works)

  -- The program ends with the exit code 0 and has written all prefixes of the aggregated state, if
  -- its flags are accepted and name no output file, the prepared state is one that `Aggregate`
  -- works on, and the standard output never fails.
  pub main_succeeds :
      (p : Aggregator)
      → IsAccepted
      → prepare u ip world flags ≡ (p, none)
      → IsReady p
      → is_empty flags.output_file ≡ true
      → ((n : ℕ) → world.stdout n ≡ false)
      → ((main u ip world flags s).exit_code ≡ 0)
        × ((main u ip world flags s).written
            ≡ ended
                (get_prefixes ip (aggregate u s world.elapsed (handled_by u ip world flags s p)).0))
  main_succeeds p accepted prepared ready no_file works =
      let all =
        aggregate-IsAggregated u s world.elapsed (handled_by u ip world flags s p)
          (handled_by-IsReady p ready) in
      let q = (aggregate u s world.elapsed (handled_by u ip world flags s p)).0 in
      subst (λ r. (r.exit_code ≡ 0) × (r.written ≡ ended (get_prefixes ip q)))
        (sym (main-run accepted ∙ run-finish p prepared))
        (finish_writes p (ap (λ r. r.1) all.returned) (stdout_writes q no_file works))
