-- ===== src/StoreCheck/Units.antt =====
-- prison-store-check/src/lib.rs: `check_unit_name` and `recheck_unit`, and the `str` functions of the
-- standard library that this crate uses, on lists of code points.
pub mod Names
use nix_os_container_podman.Common.{
  ℕ, ◌+◌, ◌≤◌, ◌<◌, ◌≡◌, refl, Bool, true, false, not, ◌&&◌, ◌||◌, List, [], ◌∷◌, ◌++◌, map,
  reverse, Option, none, some, Result, ok, err, Text, codes, all, any, contains, is_empty,
  starts_with, strip_prefix, leb, ltb, ◌==◌, if◌then◌else◌, is_ascii_alphanumeric,
}

-- The bytes of a code point in UTF-8.
abbrev pub len_utf8 : ℕ → ℕ
len_utf8 c = if ltb c 0x80 then 1 else if ltb c 0x800 then 2 else if ltb c 0x10000 then 3 else 4

-- `str::len`
abbrev pub len : Text → ℕ
len [] = 0
len (c ∷ cs) = len_utf8 c + len cs

-- `char::is_whitespace`
abbrev pub is_whitespace : ℕ → Bool
is_whitespace c =
    (leb 9 c && leb c 13)
    || c == 0x20
    || c == 0x85
    || c == 0xA0
    || c == 0x1680
    || (leb 0x2000 c && leb c 0x200A)
    || c == 0x2028
    || c == 0x2029
    || c == 0x202F
    || c == 0x205F
    || c == 0x3000

unfoldable pub trim_start : Text → Text
trim_start [] = []
trim_start (c ∷ cs) = let rest = trim_start cs in if is_whitespace c then rest else c ∷ cs

unfoldable pub trim : Text → Text
unfolding trim_start
trim s = reverse (trim_start (reverse (trim_start s)))

-- `s.strip_suffix(x)`
abbrev pub reversed : Option Text → Option Text
reversed none = none
reversed (some r) = some (reverse r)

abbrev pub strip_suffix : Text → Text → Option Text
strip_suffix x s = reversed (strip_prefix (reverse x) (reverse s))

pub data Error : Type 0 where
  invalid_unit_name : Text → Error
  cannot_read_count : Text → Error
  cannot_record_skip : Text → Error
  cannot_clear_count : Text → Error
  not_a_number : Text → Error
  no_systemd_run : Error
  not_utf8 : Error
  -- what the host itself reports
  refused : Error

abbrev pub is_unit_char : ℕ → Bool
is_unit_char b = is_ascii_alphanumeric b || contains b (codes ":_.@-\\")

unfoldable pub is_unit_name : Text → Bool
is_unit_name unit =
    not (is_empty unit)
    && leb (len unit) 255
    && not (starts_with (codes ".") unit)
    && not (starts_with (codes "-") unit)
    && all is_unit_char unit

unfoldable pub check_unit_name : Text → Result Error (Unit {0})
unfolding is_unit_name
check_unit_name unit = if is_unit_name unit then ok tt else err (invalid_unit_name unit)

abbrev pub timer_char : ℕ → ℕ
timer_char c = if is_ascii_alphanumeric c || c == b'-' || c == b'_' then c else b'-'

abbrev pub or_whole : Option Text → Text → Text
or_whole none s = s
or_whole (some r) s = r

-- The stem of the name: `unit.strip_suffix(".service").unwrap_or(unit)`, made a unit name's part.
unfoldable pub timer_stem : Text → Text
timer_stem unit = map timer_char (or_whole (strip_suffix (codes ".service") unit) unit)

unfoldable pub recheck_unit : Text → Result Error Text
recheck_unit unit =
    if is_unit_name unit
    then ok (codes "prison-store-recheck-" ++ timer_stem unit)
    else err (invalid_unit_name unit)
