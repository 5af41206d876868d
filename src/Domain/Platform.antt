-- ===== src/Domain/Platform.antt =====
-- What lies below the program: the regular expressions that a catalogue entry names, the time zones
-- of the machine, ISO dates, and the letters and digits that Unicode has beyond ASCII. All are parameters.
use Prim.Native.Nat.{ℕ}
use settings_api.Prelude.{String, Bool, Option}

pub record Platform : Type 0 where
  -- `re.fullmatch(pattern, value)` finds a match.
  pub fullmatch : String → String → Bool
  -- `zoneinfo.ZoneInfo(value)` does not raise.
  pub resolves_zone : String → Bool
  -- `date.fromisoformat(text)`, as the day's ordinal; `none` where it raises.
  pub from_iso_date : String → Option ℕ
  -- A code point from 128 on that `\w` matches.
  pub is_word_beyond_ascii : ℕ → Bool
  -- A code point from 128 on that `str.isdigit` accepts, and the digit that `int` reads it as, if any.
  pub is_digit_beyond_ascii : ℕ → Bool
  pub digit_beyond_ascii : ℕ → Option ℕ
