-- ===== src/Reader/Written.antt =====
-- Lines that are printed prefixes: what `AddFromReader` takes from them.
use mathlib.Core.List.{append_cancel_right, head-eq_of_cons-eq, tail-eq_of_cons-eq}
use netjugo.Prelude.{
  ℕ, ◌*◌, ◌/◌, ◌^◌, ◌≡◌, refl, sym, ap, ap₂, ◌∙◌, subst, arith, Bool, true, false, List, [], ◌∷◌,
  ◌++◌, some, All,
}
use netjugo.Prelude.Powers.{pow_pos, quotient_of}
use netjugo.Text.{Text, codes, is_empty, text_eq, starts_with, contains_char}
use netjugo.Text.Trim.{IsTrimmed, trim_space_stays}
use netjugo.IpText.{IpText}
use netjugo.Errors.{ok}
use netjugo.Netip.{Prefix, value}
use netjugo.Uint256.{Uint256}
use netjugo.IpPrefix.{IpPrefix, IsBlock}
use netjugo.Validation.Blocks.{family_addr-value, prefix_of, last}
use netjugo.Parse.{with_range, parse_ip_prefix}
use netjugo.Parse.Laws.{ranged, with_range_lem, parse_written}
use netjugo.Aggregator.Texts.{ipv4_of, ipv6_of}
use netjugo.Output.{strings}
use netjugo.Output.Laws.{ended}
use netjugo.Reader.{line_prefix}
use netjugo.Reader.Lines.{read_line, read_lines}

-- The text of a prefix is trimmed and no comment, holds a slash, and is read as the prefix.
pub record IsPrinted (ip : IpText) (p : Prefix) : Type 0 where
  pub trimmed : IsTrimmed (ip.prefix_string p)
  pub slash : contains_char b'/' (ip.prefix_string p) ≡ true
  pub no_comment : starts_with b'#' (ip.prefix_string p) ≡ false
  pub reads : ip.parse_prefix (ip.prefix_string p) ≡ some p

module _ (f : Bool) (p : IpPrefix) (block : IsBlock f p) where
  abbrev number : ℕ
  number = value p.prefix.addr

  -- A block is the prefix of its address with its range.
  same_ranged : p ≡ ranged f number block.host
  same_ranged =
      let size = 2 ^ block.host in
      let start = block.min_aligned in
      let low = block.min_le in
      let high = block.le_max in
      let end = block.max_end in
      let positive = pow_pos block.host in
      let aligned : number / size * size ≡ p.min =
        ap (λ n. n * size)
          (quotient_of size block.block number positive (omega arith) (omega arith))
        ∙ sym start in
      let to : p.max ≡ last number block.host = omega arith in
      let addr = family_addr-value f p.prefix.addr block.family block.valid in
      let name : p.prefix ≡ prefix_of f number block.host =
        ap₂ (λ a b. record { addr = a; bits = b }) addr block.length in
      ap (λ q. record { prefix = q; min = p.min; max = p.max }) name
      ∙ ap₂ (λ a b. record { prefix = prefix_of f number block.host; min = a; max = b })
          (sym block.read_back) to

  pub with_range_back : (u : Uint256) → with_range u p.prefix ≡ ok p
  with_range_back u =
      subst (λ q. with_range u q.prefix ≡ ok q) (sym same_ranged)
        (with_range_lem u f number block.host (omega (arith, block.le_max, block.bounded))
          block.host_fits)

-- A text with a character differs from one without it.
text_eq-other :
    (d : ℕ) (t s : Text)
    → contains_char d t ≡ true
    → contains_char d s ≡ false
    → text_eq t s ≡ false
text_eq-other d [] s h k = cc
text_eq-other d (c ∷ t) [] h k = refl
text_eq-other d (c ∷ t) (b ∷ s) h k = ground (arith, text_eq-other d t s)

module _ (u : Uint256) (ip : IpText) (p : IpPrefix) (printed : IsPrinted ip p.prefix) where
  abbrev text : Text
  text = ip.prefix_string p.prefix

  text_some : is_empty text ≡ false
  text_some = by_text text printed.slash
    where
      by_text : (t : Text) → contains_char b'/' t ≡ true → is_empty t ≡ false
      by_text [] e = cc
      by_text (c ∷ t) e = refl

  line_lem : line_prefix text ≡ some text
  unfolding line_prefix
  line_lem =
      let other = λ (s : Text) (e : contains_char b'/' s ≡ false).
        text_eq-other b'/' text s printed.slash e in
      rw (
        trim_space_stays text printed.trimmed,
        text_some,
        printed.no_comment,
        other (codes "network") refl,
        other (codes "prefix") refl,
        other (codes "cidr") refl,
        printed.slash,
      )

  parse_lem : (f : Bool) → IsBlock f p → parse_ip_prefix u ip text ≡ ok p
  parse_lem f block =
      parse_written u ip text printed.trimmed text_some p.prefix printed.reads
      ∙ with_range_back f p block u

  read_line_lem :
      (f : Bool) (rest : List IpPrefix) → IsBlock f p → read_line u ip text rest ≡ p ∷ rest
  read_line_lem f rest block = rw (line_lem, read_line, parse_lem f block) refl

abbrev pub AllPrinted : IpText → List IpPrefix → Type 0
AllPrinted ip l = All (λ p. IsPrinted ip p.prefix) l

module _ (u : Uint256) (ip : IpText) where
  -- The lines of printed prefixes are read as the prefixes.
  pub read_lines-strings :
      (f : Bool) (l rest : List IpPrefix) (lines : List Text)
      → All (IsBlock f) l
      → AllPrinted ip l
      → read_lines u ip lines ≡ rest
      → read_lines u ip (strings ip l ++ lines) ≡ l ++ rest
  unfolding strings
  read_lines-strings f [] rest lines h printed e = e
  read_lines-strings f (p ∷ l) rest lines (block, h) (one, printed) e =
      read_line_lem u ip p one f (read_lines u ip (strings ip l ++ lines)) block
      ∙ ap (λ k. p ∷ k) (read_lines-strings f l rest lines h printed e)

-- The prefixes of each family, where those of IPv4 come first.
pub by_family :
    (four six : List IpPrefix)
    → All (IsBlock true) four
    → All (IsBlock false) six
    → (ipv4_of (four ++ six) ≡ four) × (ipv6_of (four ++ six) ≡ six)
by_family [] [] h k = (refl, refl)
by_family [] (p ∷ six) h (block, k) =
    let (none4, all6) = by_family [] six tt k in
    (rw block.family none4, rw block.family (ap (λ l. p ∷ l) all6))
by_family (p ∷ four) six (block, h) k =
    let (all4, all6) = by_family four six h k in
    (rw block.family (ap (λ l. p ∷ l) all4), rw block.family all6)

pub ended_injective : (l m : List Text) → ended l ≡ ended m → l ≡ m
ended_injective [] [] e = refl
ended_injective [] (b ∷ m) e = cc
ended_injective (a ∷ l) [] e = cc
ended_injective (a ∷ l) (b ∷ m) e =
    ap₂ (λ t k. t ∷ k) (append_cancel_right a b (codes "\n") (head-eq_of_cons-eq e))
      (ended_injective l m (tail-eq_of_cons-eq e))
