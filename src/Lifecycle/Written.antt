-- ===== src/Lifecycle/Written.antt =====
-- What `WriteToWriter` writes, read by `AddFromReader` of a new aggregator.
use mathlib.Core.List.{append-nil}
use netjugo.Prelude.{
  ℕ, ◌+◌, ◌≡◌, refl, sym, ap, ap₂, ◌∙◌, arith, true, false, List, [], ◌++◌, none, some, length,
  length-append, All, if◌then◌else◌,
}
use netjugo.Errors.{Error}
use netjugo.IpText.{IpText}
use netjugo.Uint256.{Uint256}
use netjugo.IpPrefix.{IpPrefix, IsBlock}
use netjugo.Sorting.{SortSlice}
use netjugo.Aggregator.{Aggregator, new_prefix_aggregator}
use netjugo.Aggregator.Texts.{with_added}
use netjugo.Reader.{Scanned, add_from_reader}
use netjugo.Reader.Lines.{read_lines, add_from_reader_lem}
use netjugo.Reader.Written.{AllPrinted, read_lines-strings, by_family, ended_injective}
use netjugo.Output.{strings, get_prefixes, Writer, write_to_writer}
use netjugo.Output.Laws.{ended, write_to_writer_done}
use netjugo.Lifecycle.{Reached, Reached-IsValid}

module _ (u : Uint256) (ip : IpText) (pa : Aggregator) (four : All (IsBlock true) pa.ipv4_prefixes)
    (six : All (IsBlock false) pa.ipv6_prefixes) (printed4 : AllPrinted ip pa.ipv4_prefixes)
    (printed6 : AllPrinted ip pa.ipv6_prefixes) where
  read_prefixes : read_lines u ip (get_prefixes ip pa) ≡ pa.ipv4_prefixes ++ pa.ipv6_prefixes
  unfolding get_prefixes
  read_prefixes =
      read_lines-strings u ip true pa.ipv4_prefixes pa.ipv6_prefixes (strings ip pa.ipv6_prefixes)
        four printed4
        (ap (read_lines u ip) (sym (append-nil (strings ip pa.ipv6_prefixes)))
          ∙ read_lines-strings u ip false pa.ipv6_prefixes [] [] six printed6 refl
          ∙ append-nil pa.ipv6_prefixes)

  read_again :
      (reader : Scanned)
      → reader.lines ≡ get_prefixes ip pa
      → reader.failed ≡ false
      → add_from_reader u ip reader new_prefix_aggregator ≡ (
        record new_prefix_aggregator {
          ipv4_prefixes = pa.ipv4_prefixes;
          ipv6_prefixes = pa.ipv6_prefixes;
          original_count = length pa.ipv4_prefixes + length pa.ipv6_prefixes;
        },
        none,
      )
  read_again reader lines fine =
      let all = pa.ipv4_prefixes ++ pa.ipv6_prefixes in
      let parts = by_family pa.ipv4_prefixes pa.ipv6_prefixes four six in
      add_from_reader_lem u ip reader new_prefix_aggregator
      ∙ ap₂ (λ ps o. with_added u ip new_prefix_aggregator ps o)
          (ap (read_lines u ip) lines ∙ read_prefixes)
          (ap (λ b. if b then some Error.plain else none) fine)
      ∙ ap₂
          (λ (ls : List IpPrefix × List IpPrefix) (n : ℕ). (
            record new_prefix_aggregator {
              ipv4_prefixes = ls.0;
              ipv6_prefixes = ls.1;
              original_count = n;
            },
            none,
          ))
          (ap₂ (λ a b. (a, b)) parts.0 parts.1)
          (omega (arith, length-append pa.ipv4_prefixes pa.ipv6_prefixes))

-- What `WriteToWriter` writes for a state, `AddFromReader` of a new aggregator reads back: both
-- lists are then those of the state, with the same prefixes and ranges in the same order, and are
-- counted, without an error. The state is one that an aggregator comes to by calls of its methods
-- in a program that does not call `Reset`, where IPv6 texts to add have no host bits that the code
-- keeps and `Aggregate` is called below its bound; the text of each prefix is trimmed, holds a
-- slash, does not begin with `#` and is read as the prefix by `netip.ParsePrefix`; the writer
-- gives no error; and the reader gives the lines that were written, without an error.
pub add_from_reader-write_to_writer :
    (u : Uint256) (s : SortSlice) (ip : IpText) {pa : Aggregator} (writer : Writer)
    (reader : Scanned)
    → Reached u s ip pa
    → AllPrinted ip pa.ipv4_prefixes
    → AllPrinted ip pa.ipv6_prefixes
    → (write_to_writer ip writer pa).1 ≡ none
    → ended reader.lines ≡ (write_to_writer ip writer pa).0
    → reader.failed ≡ false
    → add_from_reader u ip reader new_prefix_aggregator ≡ (
      record new_prefix_aggregator {
        ipv4_prefixes = pa.ipv4_prefixes;
        ipv6_prefixes = pa.ipv6_prefixes;
        original_count = length pa.ipv4_prefixes + length pa.ipv6_prefixes;
      },
      none,
    )
add_from_reader-write_to_writer u s ip {pa} writer reader reached printed4 printed6 wrote lines
      fine =
    let valid = Reached-IsValid u s ip reached in
    read_again u ip pa valid.main.0 valid.main.1 printed4 printed6 reader
      (ended_injective reader.lines (get_prefixes ip pa)
        (lines ∙ write_to_writer_done ip writer pa wrote))
      fine
