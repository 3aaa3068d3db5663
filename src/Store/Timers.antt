-- ===== src/Store/Timers.antt =====
-- crates/breeze-store/src/timers.rs and the timers of crates/breeze-store/src/models.rs. A local
-- time is a number of nanoseconds since the midnight of some first day; chrono's formatting and
-- parsing of such a time are the parameter `LocalTime`.
pub mod Moments
pub mod Kinds
use breeze_core_native.Common.{
  ℕ, ◌+◌, ◌-◌, ◌*◌, ◌/◌, ◌%◌, ◌^◌, Bool, true, false, not, ◌&&◌, ◌||◌, Option, none, some, String,
  List, [], ◌∷◌, ltb, leb, ◌==◌, if◌then◌else◌, any, retain, length, Outcome, ok, err,
}
use breeze_core_native.Common.Texts.{str_eq, codes, trim, split_once}
use breeze_core_native.Store.Control.{ControlRequest, power_off, power_on}

abbrev pub max_minutes : ℕ
max_minutes = 24 * 60

abbrev pub max_start_days : ℕ
max_start_days = 30

abbrev pub max_units : ℕ
max_units = 64

abbrev pub start_grace_minutes : ℕ
start_grace_minutes = 15

abbrev pub second : ℕ
second = 1_000_000_000

abbrev pub minute : ℕ
minute = 60_000_000_000

abbrev pub hour : ℕ
hour = 3_600_000_000_000

abbrev pub day : ℕ
day = 86_400_000_000_000

-- chrono's `format` and `parse_from_str` for "%Y-%m-%dT%H:%M:%S".
pub record LocalTime : Type 0 where
  pub format : ℕ → String
  pub parse_from_str : String → Option ℕ

pub data TimerKind : Type 0 where
  sleep start : TimerKind

abbrev pub kind_eq : TimerKind → TimerKind → Bool
kind_eq sleep sleep = true
kind_eq start start = true
kind_eq _ _ = false

pub record Timer : Type 0 where
  pub id : String
  pub unit_ids : List String
  pub minutes : ℕ
  pub created_at : String
  pub fires_at : String
  pub settings : ControlRequest
  pub label : String
  pub kind : TimerKind

pub record TimersDoc : Type 0 where
  pub timers : List Timer

pub data TimerError : Type 0 where
  bad_minutes too_many_units bad_days : ℕ → TimerError
  bad_time : String → TimerError
  -- the moment that has passed
  in_the_past : ℕ → TimerError

abbrev is_digit : ℕ → Bool
is_digit c = leb b'0' c && leb c b'9'

abbrev digits : List ℕ → ℕ → Option ℕ
digits [] acc = some acc
digits (c ∷ cs) acc =
    let rest = digits cs (acc * 10 + (c - b'0')) in if is_digit c then rest else none

abbrev pub some_digits : List ℕ → Option ℕ
some_digits [] = none
some_digits (c ∷ cs) = digits (c ∷ cs) 0

-- `u32::from_str` on two characters at most, which cannot overflow. It takes a leading `+`.
unfoldable pub parse_u32 : List ℕ → Option ℕ
parse_u32 [] = none
parse_u32 (c ∷ cs) = if c == b'+' then some_digits cs else some_digits (c ∷ cs)

-- `NaiveTime::from_hms_opt(hour, minute, 0)`.
abbrev from_hm : Option ℕ → Option ℕ → Option ℕ
from_hm (some h) (some m) = if ltb h 24 && ltb m 60 then some (h * hour + m * minute) else none
from_hm _ _ = none

abbrev hhmm_parts : Option (List ℕ × List ℕ) → Option ℕ
hhmm_parts none = none
hhmm_parts (some (h, m)) =
    if length h == 0 || (ltb 2 (length h) || not (length m == 2))
    then none
    else from_hm (parse_u32 h) (parse_u32 m)

-- A text's lengths are counted in characters here: one that is not ASCII is no number.
unfoldable pub parse_hhmm : String → Option ℕ
parse_hhmm text = hhmm_parts (split_once b':' (trim (codes text)))

abbrev unwrap_or {ℓ} : {A : Type ℓ} → A → Option A → A
unwrap_or d none = d
unwrap_or d (some a) = a

abbrev pub covers : Timer → String → Bool
covers t unit_id = length t.unit_ids == 0 || any (λ u. str_eq u unit_id) t.unit_ids

unfoldable pub replace_for_units : TimersDoc → List String → TimerKind → TimersDoc × ℕ
replace_for_units doc unit_ids kind =
    let kept =
      retain (λ t. not (kind_eq t.kind kind) || not (any (covers t) unit_ids)) doc.timers in
    (record { timers = kept }, length doc.timers - length kept)

unfoldable pub remove : TimersDoc → String → TimersDoc × Bool
remove doc timer_id =
    let kept = retain (λ t. not (str_eq t.id timer_id)) doc.timers in
    (record { timers = kept }, not (length kept == length doc.timers))

module _ (local : LocalTime) where
  unfoldable pub build_timer :
      String → List String → ℕ → Option ControlRequest → String → ℕ → Outcome TimerError Timer
  build_timer id unit_ids minutes settings label now =
      if minutes == 0 || ltb max_minutes minutes
      then err (bad_minutes minutes)
      else if ltb max_units (length unit_ids)
      then err (too_many_units (length unit_ids))
      else ok (record {
        id = id;
        unit_ids = unit_ids;
        minutes = minutes;
        created_at = local.format now;
        fires_at = local.format (now + minutes * minute);
        settings = unwrap_or power_off settings;
        label = label;
        kind = sleep;
      })

  abbrev start_at : String → List String → String → ℕ → ℕ → Outcome TimerError Timer
  start_at id unit_ids label now fires_at =
      if leb fires_at now
      then err (in_the_past fires_at)
      else ok (record {
        id = id;
        unit_ids = unit_ids;
        minutes = ((fires_at - now) / second + 59) / 60 % 2 ^ 32;
        created_at = local.format now;
        fires_at = local.format fires_at;
        settings = power_on;
        label = label;
        kind = start;
      })

  unfoldable pub build_start_timer :
      String → List String → ℕ → String → String → ℕ → Outcome TimerError Timer
  build_start_timer id unit_ids days at label now =
      if ltb max_start_days days
      then err (bad_days days)
      else if ltb max_units (length unit_ids)
      then err (too_many_units (length unit_ids))
      else elim (parse_hhmm at) [
        | none ↦ err (bad_time at)
        | some time ↦ start_at id unit_ids label now ((now / day + days) * day + time)
      ]

  unfoldable pub seconds_remaining : Timer → ℕ → ℕ
  seconds_remaining t now = elim (local.parse_from_str t.fires_at) [
    | none ↦ 0
    | some due ↦ (due - now) / second
  ]

  unfoldable pub is_due : Timer → ℕ → Bool
  is_due t now = seconds_remaining t now == 0

  unfoldable pub missed : Timer → ℕ → Bool
  missed t now = kind_eq t.kind start && (elim (local.parse_from_str t.fires_at) [
    | none ↦ true
    | some due ↦ ltb (due + start_grace_minutes * minute) now
  ])

  unfoldable pub due : TimersDoc → ℕ → List Timer
  due doc now = retain (λ t. is_due t now) doc.timers
