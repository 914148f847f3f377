-- ===== src/Topology/Reports/IoStat.antt =====
-- internal/topology/dindio_parse.go: the io.stat of a sidecar's cgroup (parseIOStat). A sum of bytes
-- wraps as uint64 does.
pub mod Laws
use garm_provider_docker.Base.{
  ℕ, ◌+◌, ◌%◌, ◌^◌, String, Bool, true, false, ◌&&◌, not, Option, none, some, List, [], ◌∷◌, ◌++◌,
  Result, ok, err, Error, failed, ◌==◌, ◌⧺◌, if◌then◌else◌,
}
use garm_provider_docker.Base.Texts.{
  cut, is_char, is_digit, all_chars, parse_uint, itoa, split_on, fields,
}

pub record DeviceWrites : Type 0 where
  pub device : String
  pub bytes : ℕ

-- `io_stat` is the record that says that the file could be read.
pub record IoStat : Type 0 where
  pub written : ℕ
  pub devices : List DeviceWrites

-- strings.Join
abbrev pub join_with : String → List String → String
join_with sep [] = ""
join_with sep (p ∷ []) = p
join_with sep (p ∷ q ∷ ps) = p ⧺ sep ⧺ join_with sep (q ∷ ps)

abbrev device_texts : List DeviceWrites → List String
device_texts [] = []
device_texts (d ∷ ds) = (d.device ⧺ "=" ⧺ itoa d.bytes) ∷ device_texts ds

unfoldable pub by_device : IoStat → String
by_device s = join_with "," (device_texts s.devices)

unfoldable pub is_decimal : String → Bool
is_decimal s = not (s == "") && all_chars is_digit s

abbrev pub is_device : Option (String × String) → Bool
is_device none = false
is_device (some (major, minor)) = is_decimal major && is_decimal minor

abbrev pub counted : String → Option ℕ → Result DeviceWrites
counted device none = err failed
counted device (some n) = ok (record { device = device; bytes = n })

-- The value of a key, if the key is wbytes.
abbrev pub wbytes_of : Option (String × String) → Option String
wbytes_of none = none
wbytes_of (some (k, v)) = if k == "wbytes" then some v else none

abbrev pub found_or_next : String → Option String → Result DeviceWrites → Result DeviceWrites
found_or_next device (some v) next = counted device (parse_uint v)
found_or_next device none next = next

unfoldable pub find_wbytes : String → List String → Result DeviceWrites
find_wbytes device [] = err failed
find_wbytes device (kv ∷ kvs) =
    found_or_next device (wbytes_of (cut "=" kv)) (find_wbytes device kvs)

unfoldable pub parse_io_stat_line : List String → Result DeviceWrites
parse_io_stat_line [] = err failed
parse_io_stat_line (device ∷ kvs) =
    if is_device (cut ":" device) then find_wbytes device kvs else err failed

-- The lines so far: whether the marker was seen, and the figures.
abbrev pub Progress : Type 0
Progress = Bool × IoStat

abbrev pub add_device : Bool → IoStat → Result DeviceWrites → Result Progress
add_device present st (err e) = err e
add_device present st (ok d) =
    ok (
      present,
      record { devices = st.devices ++ d ∷ []; written = (st.written + d.bytes) % 2 ^ 64 },
    )

unfoldable pub read_line : Progress → List String → Result Progress
read_line (present, st) [] = ok (present, st)
read_line (present, st) (key ∷ rest) =
    if key == "io_stat"
    then ok (true, st)
    else if key == "io"
    then add_device present st (parse_io_stat_line rest)
    else ok (present, st)

abbrev pub after_line : Result Progress → (Progress → Result Progress) → Result Progress
after_line (err e) next = err e
after_line (ok p) next = next p

unfoldable pub read_lines : List (List String) → Progress → Result Progress
read_lines [] p = ok p
read_lines (line ∷ lines) p = after_line (read_line p line) (λ q. read_lines lines q)

abbrev pub finished : Result Progress → Result IoStat
finished (err e) = err e
finished (ok (true, st)) = ok st
finished (ok (false, st)) = err failed

abbrev pub each_fields : List String → List (List String)
each_fields [] = []
each_fields (l ∷ ls) = fields l ∷ each_fields ls

unfoldable pub parse_io_stat : String → Result IoStat
parse_io_stat out = finished (
    read_lines (each_fields (split_on (is_char b'\n') out))
      (false, record { written = 0; devices = [] }))
