-- ===== src/Clock.antt =====
-- Timestamps. `datetime` is not part of the repository: what the code takes of it is a `Datetime`.
use Prim.Native.Char.{code}
use Prim.Native.String.{◌++◌ as text_append}
use skill2workflow.Prelude.{
  ℕ, ◌+◌, ◌*◌, String, Bool, true, Option, none, some, eqb, leb, if◌then◌else◌,
}
use skill2workflow.Result.{Result, ok, err, value_error, overflow_error, ◌>>=◌}

-- What `datetime.fromisoformat` reads: the microseconds since the year 1 in UTC, and whether the
-- text had a timezone.
pub record Instant : Type 0 where
  pub micros : ℕ
  pub aware : Bool

pub record Datetime : Type 0 where
  pub fromisoformat : String → Option Instant
  pub isoformat : ℕ → String

-- datetime.max
abbrev pub max_micros : ℕ
max_micros = 315537897599999999

-- value.replace("Z", "+00:00")
unfoldable pub replace_z : String → String
replace_z String.[] = ""
replace_z (String.◌∷◌ c s) =
    let rest = replace_z s in
    if eqb (code c) b'Z' then text_append "+00:00" rest else String.◌∷◌ c rest

unfoldable pub require_aware : Option Instant → Result ℕ
require_aware none = err (value_error "timestamp")
require_aware (some t) = if t.aware then ok t.micros else err (value_error "timestamp timezone")

unfoldable pub parse_timestamp : Datetime → String → Result ℕ
unfolding replace_z require_aware
parse_timestamp dt value = require_aware (dt.fromisoformat (replace_z value))

unfoldable pub add_millis : Datetime → ℕ → ℕ → Result String
add_millis dt timeout_ms start =
    let finish = start + timeout_ms * 1000 in
    if leb finish max_micros then ok (dt.isoformat finish) else err overflow_error

unfoldable pub deadline_after : Datetime → String → ℕ → Result String
unfolding add_millis
deadline_after dt started_at timeout_ms =
    parse_timestamp dt started_at >>= λ start. add_millis dt timeout_ms start

-- now >= deadline
unfoldable pub is_past : Datetime → String → String → Result Bool
is_past dt now deadline = do
  a ← parse_timestamp dt now
  d ← parse_timestamp dt deadline
  ok (leb d a)

-- A timestamp that cannot be read counts as past: `except ValueError: expired = True`.
unfoldable pub or_true : Result Bool → Bool
or_true (ok b) = b
or_true (err e) = true

unfoldable pub is_expired : Datetime → String → String → Bool
unfolding or_true is_past
is_expired dt now deadline = or_true (is_past dt now deadline)
