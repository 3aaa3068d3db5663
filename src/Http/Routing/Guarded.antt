-- ===== src/Http/Routing/Guarded.antt =====
-- crates/breeze-http/src/server.rs: what each handler is behind.
use breeze_core_native.Common.{
  ℕ, Bool, true, false, ◌&&◌, Option, none, some, String, List, ◌==◌, if◌then◌else◌, find, All,
  find-All, length, Option-cases, inl, inr, ◌≡◌, refl, arith,
}
use breeze_core_native.Common.Bytes.{bytes_eq}
use breeze_core_native.Common.Texts.{str_eq, codes, split_once}
use breeze_core_native.Http.Routing.{
  Guard, open_to_all, api_key, full, admin_lan, Handler, Resolved, route, stream, Entry, fixed,
  answer, only, strip_prefix, strip_suffix, is_no_id, programs_path, unit_path, action_path,
  units_path, below_units, below_devices, below_programs, below_timers, wrong_method, in_table,
  resolve,
}

-- What a handler has to be behind: reading that the server lives needs nothing; what is not about a
-- unit needs the key, and pairing and the list of devices the local network as well; everything else
-- needs the key and a device.
abbrev pub required : Handler → Guard
required Handler.route_health = open_to_all
required Handler.route_version = api_key
required Handler.route_metrics = api_key
required Handler.route_enroll_start = api_key
required Handler.route_enroll_poll = api_key
required Handler.route_enroll_approve = admin_lan
required Handler.route_list_devices = admin_lan
required Handler.route_revoke_device = admin_lan
required _ = full

abbrev pub IsGuarded : Resolved → Type 0
IsGuarded (route guard handler) = guard ≡ required handler
IsGuarded (stream guard) = guard ≡ full
IsGuarded _ = Unit

if_IsGuarded :
    (b : Bool) (x y : Resolved) → IsGuarded x → IsGuarded y → IsGuarded (if b then x else y)
if_IsGuarded true x y h h' = h
if_IsGuarded false x y h h' = h'

only-IsGuarded :
    (method allowed : String) (handler : Handler)
    → IsGuarded (only method allowed (required handler) handler)
only-IsGuarded method allowed handler = if_IsGuarded (str_eq method allowed) _ _ refl tt

programs_path-IsGuarded :
    (method : String) (rest : List ℕ) (id : Option (List ℕ))
    → IsGuarded (programs_path method rest id)
programs_path-IsGuarded method rest (some id) =
    if_IsGuarded (is_no_id id) _ _ tt (only-IsGuarded method "POST" Handler.route_program_apply)
programs_path-IsGuarded method rest none = if_IsGuarded (is_no_id rest) _ _ tt (
    if_IsGuarded (str_eq method "GET") _ _ refl (
      if_IsGuarded (str_eq method "PUT") _ _ refl
        (if_IsGuarded (str_eq method "DELETE") _ _ refl tt)))

unit_path-IsGuarded : (method : String) (rest : List ℕ) → IsGuarded (unit_path method rest)
unit_path-IsGuarded method rest = if_IsGuarded (length rest == 0) _ _ tt (
    if_IsGuarded (str_eq method "PATCH") _ _ refl
      (if_IsGuarded (str_eq method "DELETE") _ _ refl tt))

action_path-IsGuarded : (method : String) (tail : List ℕ) → IsGuarded (action_path method tail)
action_path-IsGuarded method tail =
    if_IsGuarded (bytes_eq tail (codes "state")) _ _
      (only-IsGuarded method "GET" Handler.route_unit_state)
      (if_IsGuarded (bytes_eq tail (codes "capabilities")) _ _
        (only-IsGuarded method "GET" Handler.route_unit_capabilities)
        (if_IsGuarded (bytes_eq tail (codes "history")) _ _
          (only-IsGuarded method "GET" Handler.route_unit_history)
          (if_IsGuarded (bytes_eq tail (codes "control")) _ _
            (only-IsGuarded method "POST" Handler.route_control) tt)))

units_path-IsGuarded :
    (method : String) (rest : List ℕ) (parts : Option (List ℕ × List ℕ))
    → IsGuarded (units_path method rest parts)
units_path-IsGuarded method rest none = unit_path-IsGuarded method rest
units_path-IsGuarded method rest (some (id, tail)) = action_path-IsGuarded method tail

below_units-IsGuarded :
    (method : String) (rest : Option (List ℕ)) → IsGuarded (below_units method rest)
below_units-IsGuarded method none = tt
below_units-IsGuarded method (some rest) = units_path-IsGuarded method rest (split_once b'/' rest)

below_devices-IsGuarded :
    (method : String) (path : List ℕ) (id : Option (List ℕ))
    → IsGuarded (below_devices method path id)
below_devices-IsGuarded method path (some id) =
    if_IsGuarded (is_no_id id) _ _ tt (only-IsGuarded method "DELETE" Handler.route_revoke_device)
below_devices-IsGuarded method path none =
    below_units-IsGuarded method (strip_prefix (codes "/api/units/") path)

below_programs-IsGuarded :
    (method : String) (path : List ℕ) (rest : Option (List ℕ))
    → IsGuarded (below_programs method path rest)
below_programs-IsGuarded method path (some rest) =
    programs_path-IsGuarded method rest (strip_suffix (codes "/apply") rest)
below_programs-IsGuarded method path none =
    below_devices-IsGuarded method path (strip_prefix (codes "/api/auth/devices/") path)

below_timers-IsGuarded :
    (method : String) (path : List ℕ) (id : Option (List ℕ))
    → IsGuarded (below_timers method path id)
below_timers-IsGuarded method path (some id) =
    if_IsGuarded (is_no_id id) _ _ tt (only-IsGuarded method "DELETE" Handler.route_timer_cancel)
below_timers-IsGuarded method path none =
    below_programs-IsGuarded method path (strip_prefix (codes "/api/programs/") path)

wrong_method-IsGuarded :
    (method : String) (path : List ℕ) (e : Option Entry) → IsGuarded (wrong_method method path e)
wrong_method-IsGuarded method path none =
    below_timers-IsGuarded method path (strip_prefix (codes "/api/timers/") path)
wrong_method-IsGuarded method path (some e) = tt

fixed-IsGuarded : All (λ e. IsGuarded (answer e)) fixed
fixed-IsGuarded = ground arith

in_table-IsGuarded :
    (table : List Entry) (method path : String)
    → All (λ e. IsGuarded (answer e)) table
    → IsGuarded (in_table table path method)
in_table-IsGuarded table method path guarded =
    let test : Entry → Bool = λ e. str_eq e.path path && str_eq e.method method in
    elim (Option-cases (find test table)) [
      | inl e ↦
          rw e (wrong_method-IsGuarded method (codes path) (find (λ e. str_eq e.path path) table))
      | inr (found, e) ↦ rw e (find-All (λ e. IsGuarded (answer e)) test table found guarded e)
    ]

-- Whatever method and path a request has, the handler it leads to stands behind what that handler has
-- to be behind, and the stream of states behind the key and a device.
pub resolve-IsGuarded : (method path : String) → IsGuarded (resolve method path)
unfolding resolve
resolve-IsGuarded method path =
    if_IsGuarded (str_eq path "/api/units/stream") _ _
      (if_IsGuarded (str_eq method "GET") _ _ refl tt)
      (if_IsGuarded (str_eq path "/api/units/scan") _ _
        (only-IsGuarded method "GET" Handler.route_scan)
        (in_table-IsGuarded fixed method path fixed-IsGuarded))
