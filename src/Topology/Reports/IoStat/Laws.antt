-- ===== src/Topology/Reports/IoStat/Laws.antt =====
-- internal/topology/dindio_parse.go: io.stat records read back what they were printed for.
use garm_provider_docker.Base.{
  ℕ, ◌+◌, ◌%◌, ◌^◌, ◌≤◌, String, true, false, not, none, some, List, [], ◌∷◌, ◌++◌, map, ok, All,
  ◌≡◌, refl, ap, ◌∙◌, arith, ◌⧺◌, eqb,
}
use mathlib.Core.List.{append_assoc, append-nil}
use Prim.Native.Char.{code}
use text.Mathlib.TextLemmas.{cons-append, nil-append}
use garm_provider_docker.Base.Texts.{cut, strip_prefix, all_chars, itoa, max_uint64}
use garm_provider_docker.Base.Texts.Decimals.{parse_uint-itoa}
use garm_provider_docker.Topology.Reports.IoStat.{
  DeviceWrites, is_device, wbytes_of, find_wbytes, parse_io_stat_line, read_line, read_lines,
  finished,
}

-- A key that has no "=" is cut off in front of the first one.
cut_key :
    (k v : String)
    → all_chars (λ c. not (eqb 61 (code c))) k ≡ true
    → cut "=" (k ⧺ ("=" ⧺ v)) ≡ some (k, v)
unfolding cut strip_prefix all_chars
cut_key String.[] v plain = rw (nil-append ("=" ⧺ v), cons-append _ "" v, nil-append v) refl
cut_key (String.◌∷◌ c k) v plain =
    rw (cons-append c k ("=" ⧺ v)) (ground (arith, plain, cut_key k v))

find_wbytes-printed :
    (device : String) (before after : List String) (n : ℕ)
    → All (λ kv. wbytes_of (cut "=" kv) ≡ none) before
    → n ≤ max_uint64
    → find_wbytes device (before ++ ("wbytes" ⧺ ("=" ⧺ itoa n)) ∷ after)
      ≡ ok (record { device = device; bytes = n })
unfolding find_wbytes all_chars
find_wbytes-printed device [] after n h le =
    rw (cut_key "wbytes" (itoa n) refl, parse_uint-itoa n le) refl
find_wbytes-printed device (kv ∷ before) after n (other, h) le =
    rw other (find_wbytes-printed device before after n h le)

-- A line of io.stat: a device's figure, with the keys in front of it and behind it.
pub record IoLine : Type 0 where
  pub writes : DeviceWrites
  pub before : List String
  pub after : List String

-- The record that the script prints of a line.
abbrev pub io_record : IoLine → List String
io_record l =
    "io" ∷ l.writes.device ∷ (l.before ++ ("wbytes" ⧺ ("=" ⧺ itoa l.writes.bytes)) ∷ l.after)

abbrev pub writes_of : List IoLine → List DeviceWrites
writes_of [] = []
writes_of (l ∷ ls) = l.writes ∷ writes_of ls

-- The device is MAJ:MIN, its count fits 64 bits, and no key in front of the count is wbytes.
abbrev pub IsPrintable : IoLine → Type 0
IsPrintable l =
    (is_device (cut ":" l.writes.device) ≡ true)
    × (l.writes.bytes ≤ max_uint64)
    × All (λ kv. wbytes_of (cut "=" kv) ≡ none) l.before

abbrev pub bytes_of : List DeviceWrites → ℕ
bytes_of [] = 0
bytes_of (d ∷ ds) = d.bytes + bytes_of ds

-- Sums that wrap at each step.
abbrev wrapped : ℕ → List DeviceWrites → ℕ
wrapped w [] = w
wrapped w (d ∷ ds) = wrapped ((w + d.bytes) % 2 ^ 64) ds

wrapped-bytes_of :
    (w : ℕ) (ds : List DeviceWrites) → wrapped (w % 2 ^ 64) ds ≡ (w + bytes_of ds) % 2 ^ 64
wrapped-bytes_of w [] = omega arith
wrapped-bytes_of w (d ∷ ds) =
    ap (λ x. wrapped x ds) (omega arith) ∙ wrapped-bytes_of (w + d.bytes) ds ∙ omega arith

read_lines-printed :
    (ls : List IoLine) (devices : List DeviceWrites) (w : ℕ)
    → All IsPrintable ls
    → read_lines (map io_record ls) (true, record { written = w; devices = devices })
      ≡ ok (true, record { written = wrapped w (writes_of ls); devices = devices ++ writes_of ls })
unfolding read_lines read_line parse_io_stat_line
read_lines-printed [] devices w p = rw (append-nil devices) refl
read_lines-printed (l ∷ ls) devices w ((dev, fits, h), p) =
    rw (dev, find_wbytes-printed l.writes.device l.before l.after l.writes.bytes h fits)
      (read_lines-printed ls (devices ++ l.writes ∷ []) ((w + l.writes.bytes) % 2 ^ 64) p
        ∙ rw (append_assoc devices (l.writes ∷ []) (writes_of ls)) refl)

-- If the lines of io.stat are printed, each of a MAJ:MIN device with a count that fits 64 bits, after
-- keys of its own other than wbytes and with any keys after it, reading them behind the marker gives
-- back the devices in their order with their counts, and the sum of those modulo 2 ^ 64.
pub read_lines-io_record :
    (ls : List IoLine)
    → All IsPrintable ls
    → finished (
        read_lines
          (("io_stat" ∷ []) ∷ map io_record ls)
          (false, record { written = 0; devices = [] }))
      ≡ ok (record { written = bytes_of (writes_of ls) % 2 ^ 64; devices = writes_of ls })
unfolding read_lines read_line
read_lines-io_record ls p = rw (read_lines-printed ls [] 0 p) (
    ap (λ n. ok (record { written = n; devices = writes_of ls }))
      (wrapped-bytes_of 0 (writes_of ls) ∙ omega arith))
