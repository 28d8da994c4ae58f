-- ===== src/Reader.antt =====
-- `AddFromReader` and `AddFromFile` of aggregator.go. `bufio.Scanner` is the list of the lines that
-- it gives and whether it ends with an error, and a file is what `os.Open` makes of it.
pub mod Lines
pub mod Bare
pub mod Written
use netjugo.Prelude.{Bool, ◌||◌, List, [], ◌∷◌, ◌++◌, Option, none, some, ◌==◌, if◌then◌else◌}
use netjugo.Errors.{Error}
use netjugo.Text.{
  Text, codes, trim_space, is_empty, text_eq, starts_with, contains_char, count_char,
}
use netjugo.IpText.{IpText}
use netjugo.Uint256.{Uint256}
use netjugo.Aggregator.{Aggregator, Outcome, add_prefix}

pub record Scanned : Type 0 where
  pub lines : List Text
  pub failed : Bool

pub data Opened : Type 0 where
  not_exist : Opened
  failed : Opened
  opened : Scanned → Opened

-- What the loop passes on to `AddPrefix` for one line, if it does.
unfoldable pub line_prefix : Text → Option Text
line_prefix raw =
    let line = trim_space raw in
    if is_empty line
      || starts_with b'#' line
      || text_eq line (codes "network")
      || text_eq line (codes "prefix")
      || text_eq line (codes "cidr")
    then none
    else if contains_char b'/' line
    then some line
    else if contains_char b':' line
    then some (line ++ codes "/128")
    else if count_char b'.' line == 3
    then some (line ++ codes "/32")
    else none

module _ (u : Uint256) (ip : IpText) where
  -- The body of the loop: the error of `AddPrefix` is dropped.
  unfoldable pub add_line : Text → Aggregator → Aggregator
  add_line raw pa = elim (line_prefix raw) [ none ↦ pa | some line ↦ (add_prefix u ip line pa).0 ]

  unfoldable pub add_lines : List Text → Aggregator → Aggregator
  add_lines [] pa = pa
  add_lines (raw ∷ rest) pa = add_lines rest (add_line raw pa)

  unfoldable pub add_from_reader : Scanned → Aggregator → Outcome
  add_from_reader reader pa =
      (add_lines reader.lines pa, if reader.failed then some Error.plain else none)

  unfoldable pub add_from_file : Opened → Aggregator → Outcome
  add_from_file Opened.not_exist pa = (pa, some Error.file_not_found)
  add_from_file Opened.failed pa = (pa, some Error.plain)
  add_from_file (opened file) pa = add_from_reader file pa
