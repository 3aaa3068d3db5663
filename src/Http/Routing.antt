-- ===== src/Http/Routing.antt =====
-- crates/breeze-http/src/server.rs: which handler a method and a path lead to, and what it is behind.
-- A handler, a function in the program, is its name.
pub mod Guarded
pub mod Allowed
use breeze_core_native.Common.{
  ℕ, Bool, true, false, not, ◌&&◌, ◌||◌, Option, none, some, String, List, [], ◌∷◌, ◌++◌, ◌==◌,
  if◌then◌else◌, find, any, length, take, drop,
}
use breeze_core_native.Common.Bytes.{bytes_eq}
use breeze_core_native.Common.Texts.{str_eq, codes, split_once}

pub data Guard : Type 0 where
  open_to_all api_key full admin_lan : Guard

pub data Handler : Type 0 where
  route_health route_version route_metrics route_units route_all_states route_config : Handler
  route_system route_add_unit route_enroll_start route_enroll_poll route_enroll_approve : Handler
  route_list_devices route_whoami route_upgrade route_timer_status route_timers_list : Handler
  route_timer_create route_program_status route_programs_list route_program_create route_scan :
      Handler
  route_timer_cancel route_program_apply route_program_get route_program_update : Handler
  route_program_delete route_revoke_device route_rename_unit route_delete_unit route_unit_state :
      Handler
  route_unit_capabilities route_unit_history route_control : Handler

pub data Resolved : Type 0 where
  route : Guard → Handler → Resolved
  method_not_allowed : String → Resolved
  not_found : Resolved
  stream : Guard → Resolved

pub record Entry : Type 0 where
  pub method : String
  pub path : String
  pub guard : Guard
  pub handler : Handler

-- The table `fixed`.
abbrev entry : String → String → Guard → Handler → Entry
entry method path guard handler = record {
  method = method;
  path = path;
  guard = guard;
  handler = handler;
}

abbrev pub fixed : List Entry
fixed =
    entry "GET" "/api/health" open_to_all route_health
    ∷ entry "GET" "/api/version" api_key route_version
    ∷ entry "GET" "/metrics" api_key route_metrics
    ∷ entry "GET" "/api/units" full route_units
    ∷ entry "GET" "/api/units/state" full route_all_states
    ∷ entry "GET" "/api/config" full route_config
    ∷ entry "GET" "/api/system" full route_system
    ∷ entry "POST" "/api/units" full route_add_unit
    ∷ entry "POST" "/api/auth/enroll/start" api_key route_enroll_start
    ∷ entry "POST" "/api/auth/enroll/poll" api_key route_enroll_poll
    ∷ entry "POST" "/api/auth/enroll/approve" admin_lan route_enroll_approve
    ∷ entry "GET" "/api/auth/devices" admin_lan route_list_devices
    ∷ entry "GET" "/api/auth/whoami" full route_whoami
    ∷ entry "POST" "/api/auth/upgrade" full route_upgrade
    ∷ entry "GET" "/api/timers/status" full route_timer_status
    ∷ entry "GET" "/api/timers" full route_timers_list
    ∷ entry "POST" "/api/timers" full route_timer_create
    ∷ entry "GET" "/api/programs/status" full route_program_status
    ∷ entry "GET" "/api/programs" full route_programs_list
    ∷ entry "POST" "/api/programs" full route_program_create
    ∷ []

abbrev pub answer : Entry → Resolved
answer e = route e.guard e.handler

-- A handler under one method, or the method that works.
abbrev pub only : String → String → Guard → Handler → Resolved
only method allowed guard handler =
    if str_eq method allowed then route guard handler else method_not_allowed allowed

abbrev pub strip_prefix : List ℕ → List ℕ → Option (List ℕ)
strip_prefix prefix text =
    if bytes_eq (take (length prefix) text) prefix then some (drop (length prefix) text) else none

-- The text without the suffix: the text is it and what stands before.
abbrev pub strip_suffix : List ℕ → List ℕ → Option (List ℕ)
strip_suffix suffix [] = if bytes_eq suffix [] then some [] else none
strip_suffix suffix (c ∷ cs) =
    if bytes_eq suffix (c ∷ cs)
    then some []
    else elim (strip_suffix suffix cs) [ none ↦ none | some before ↦ some (c ∷ before) ]

-- `is_empty() || contains('/')`.
abbrev pub is_no_id : List ℕ → Bool
is_no_id id = length id == 0 || any (λ c. c == b'/') id

abbrev pub timers_path : String → List ℕ → Resolved
timers_path method id =
    if is_no_id id then not_found else only method "DELETE" full route_timer_cancel

abbrev pub programs_path : String → List ℕ → Option (List ℕ) → Resolved
programs_path method rest (some id) =
    if is_no_id id then not_found else only method "POST" full route_program_apply
programs_path method rest none =
    if is_no_id rest
    then not_found
    else if str_eq method "GET"
    then route full route_program_get
    else if str_eq method "PUT"
    then route full route_program_update
    else if str_eq method "DELETE"
    then route full route_program_delete
    else method_not_allowed "GET"

abbrev pub devices_path : String → List ℕ → Resolved
devices_path method id =
    if is_no_id id then not_found else only method "DELETE" admin_lan route_revoke_device

abbrev pub unit_path : String → List ℕ → Resolved
unit_path method rest =
    if length rest == 0
    then not_found
    else if str_eq method "PATCH"
    then route full route_rename_unit
    else if str_eq method "DELETE"
    then route full route_delete_unit
    else method_not_allowed "PATCH"

abbrev pub action_path : String → List ℕ → Resolved
action_path method tail =
    if bytes_eq tail (codes "state")
    then only method "GET" full route_unit_state
    else if bytes_eq tail (codes "capabilities")
    then only method "GET" full route_unit_capabilities
    else if bytes_eq tail (codes "history")
    then only method "GET" full route_unit_history
    else if bytes_eq tail (codes "control")
    then only method "POST" full route_control
    else not_found

abbrev pub units_path : String → List ℕ → Option (List ℕ × List ℕ) → Resolved
units_path method rest none = unit_path method rest
units_path method rest (some (id, tail)) = action_path method tail

abbrev pub below_units : String → Option (List ℕ) → Resolved
below_units method none = not_found
below_units method (some rest) = units_path method rest (split_once b'/' rest)

abbrev pub below_devices : String → List ℕ → Option (List ℕ) → Resolved
below_devices method path (some id) = devices_path method id
below_devices method path none = below_units method (strip_prefix (codes "/api/units/") path)

abbrev pub below_programs : String → List ℕ → Option (List ℕ) → Resolved
below_programs method path (some rest) =
    programs_path method rest (strip_suffix (codes "/apply") rest)
below_programs method path none =
    below_devices method path (strip_prefix (codes "/api/auth/devices/") path)

abbrev pub below_timers : String → List ℕ → Option (List ℕ) → Resolved
below_timers method path (some id) = timers_path method id
below_timers method path none =
    below_programs method path (strip_prefix (codes "/api/programs/") path)

-- The paths that hold an id.
abbrev pub by_pattern : String → List ℕ → Resolved
by_pattern method path = below_timers method path (strip_prefix (codes "/api/timers/") path)

abbrev pub wrong_method : String → List ℕ → Option Entry → Resolved
wrong_method method path none = by_pattern method path
wrong_method method path (some e) = method_not_allowed e.method

-- `found` is the entry of the method and the path, `known` the first one of the path.
abbrev pub at_fixed : String → String → Option Entry → Option Entry → Resolved
at_fixed method path (some found) known = answer found
at_fixed method path none known = wrong_method method (codes path) known

abbrev pub in_table : List Entry → String → String → Resolved
in_table table path method =
    at_fixed method path (find (λ e. str_eq e.path path && str_eq e.method method) table)
      (find (λ e. str_eq e.path path) table)

unfoldable pub resolve : String → String → Resolved
resolve method path =
    if str_eq path "/api/units/stream"
    then (if str_eq method "GET" then stream full else method_not_allowed "GET")
    else if str_eq path "/api/units/scan"
    then only method "GET" full route_scan
    else in_table fixed path method
