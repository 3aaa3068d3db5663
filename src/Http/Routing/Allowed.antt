-- ===== src/Http/Routing/Allowed.antt =====
-- crates/breeze-http/src/server.rs: what an answer 405 says.
use mathlib.Core.Path.{subst}
use breeze_core_native.Common.{
  ℕ, Bool, true, false, ◌&&◌, Option, none, some, String, List, [], ◌∷◌, ◌==◌, if◌then◌else◌, find,
  length, Bool-cases, Option-cases, inl, inr, ◌≡◌, refl, sym, ap, ◌∙◌, arith,
}
use breeze_core_native.Common.Bytes.{bytes_eq}
use breeze_core_native.Common.Texts.{str_eq, str_eq_refl, codes, split_once}
use breeze_core_native.Http.Routing.{
  Guard, full, admin_lan, Handler, Resolved, route, method_not_allowed, not_found, stream, Entry,
  fixed, answer, only, strip_prefix, strip_suffix, is_no_id, programs_path, unit_path, action_path,
  units_path, below_units, below_devices, below_programs, below_timers, in_table, resolve,
}

-- A handler or the stream answers.
abbrev pub is_served : Resolved → Bool
is_served (route guard handler) = true
is_served (stream guard) = true
is_served _ = false

-- Where the method is refused for another one, that one is served.
abbrev Names : (String → Resolved) → Type 0
Names f =
    (method allowed : String) → f method ≡ method_not_allowed allowed → is_served (f allowed) ≡ true

refused :
    (allowed allowed' : String) (f : String → Resolved)
    → method_not_allowed allowed ≡ method_not_allowed allowed'
    → is_served (f allowed) ≡ true
    → is_served (f allowed') ≡ true
refused allowed allowed' f e h =
    let same : allowed ≡ allowed' = cc in subst (λ a. is_served (f a) ≡ true) same h

not_found-Names : Names (λ method. not_found)
not_found-Names method allowed e = absurd cc

only-Names :
    (allowed : String) (g : Guard) (h : Handler) → Names (λ method. only method allowed g h)
only-Names allowed g h method allowed' e = elim (Bool-cases (str_eq method allowed)) [
  | inl same ↦ absurd (ground (arith, same, e))
  | inr other ↦
      refused allowed allowed' (λ m. only m allowed g h) (ground (arith, other, e))
        (rw (str_eq_refl allowed) refl)
]

stream-Names :
    Names (λ method. if str_eq method "GET" then stream full else method_not_allowed "GET")
stream-Names method allowed e = elim (Bool-cases (str_eq method "GET")) [
  | inl same ↦ absurd (ground (arith, same, e))
  | inr other ↦
      refused "GET" allowed (λ m. if str_eq m "GET" then stream full else method_not_allowed "GET")
        (ground (arith, other, e)) refl
]

if_Names :
    (b : Bool) (f g : String → Resolved)
    → Names f
    → Names g
    → Names (λ method. if b then f method else g method)
if_Names true f g h h' = h
if_Names false f g h h' = h'

skip :
    (b : Bool) (g : Guard) (h : Handler) (r : Resolved) (allowed : String)
    → (if b then route g h else r) ≡ method_not_allowed allowed
    → r ≡ method_not_allowed allowed
skip true g h r allowed e = absurd cc
skip false g h r allowed e = e

same_name : (a b : String) → method_not_allowed a ≡ method_not_allowed b → a ≡ b
same_name a b e = cc

-- The last resort of a path with several methods: the first of them is named.
first_Names :
    (tried : String) (g : Guard) (h : Handler) (f : String → Resolved)
    → ((method allowed : String) → f method ≡ method_not_allowed allowed → tried ≡ allowed)
    → Names (λ method. if str_eq method tried then route g h else f method)
first_Names tried g h f names method allowed e = elim (Bool-cases (str_eq method tried)) [
  | inl same ↦ absurd (ground (arith, same, e))
  | inr other ↦
      subst (λ a. is_served (if str_eq a tried then route g h else f a) ≡ true)
        (names method allowed (ground (arith, other, e))) (rw (str_eq_refl tried) refl)
]

programs_path-Names :
    (rest : List ℕ) (id : Option (List ℕ)) → Names (λ method. programs_path method rest id)
programs_path-Names rest (some id) =
    if_Names (is_no_id id) _ _ not_found-Names (only-Names "POST" full Handler.route_program_apply)
programs_path-Names rest none = if_Names (is_no_id rest) _ _ not_found-Names (
    first_Names "GET" full Handler.route_program_get _ (λ method allowed e.
      same_name "GET" allowed (
        skip (str_eq method "DELETE") full Handler.route_program_delete _ allowed
          (skip (str_eq method "PUT") full Handler.route_program_update _ allowed e))))

unit_path-Names : (rest : List ℕ) → Names (λ method. unit_path method rest)
unit_path-Names rest = if_Names (length rest == 0) _ _ not_found-Names (
    first_Names "PATCH" full Handler.route_rename_unit _ (λ method allowed e.
      same_name "PATCH" allowed
        (skip (str_eq method "DELETE") full Handler.route_delete_unit _ allowed e)))

action_path-Names : (tail : List ℕ) → Names (λ method. action_path method tail)
action_path-Names tail =
    if_Names (bytes_eq tail (codes "state")) _ _ (only-Names "GET" full Handler.route_unit_state) (
      if_Names (bytes_eq tail (codes "capabilities")) _ _
        (only-Names "GET" full Handler.route_unit_capabilities)
        (if_Names (bytes_eq tail (codes "history")) _ _
          (only-Names "GET" full Handler.route_unit_history)
          (if_Names (bytes_eq tail (codes "control")) _ _
            (only-Names "POST" full Handler.route_control) not_found-Names)))

units_path-Names :
    (rest : List ℕ) (parts : Option (List ℕ × List ℕ))
    → Names (λ method. units_path method rest parts)
units_path-Names rest none = unit_path-Names rest
units_path-Names rest (some (id, tail)) = action_path-Names tail

below_units-Names : (rest : Option (List ℕ)) → Names (λ method. below_units method rest)
below_units-Names none = not_found-Names
below_units-Names (some rest) = units_path-Names rest (split_once b'/' rest)

below_devices-Names :
    (path : List ℕ) (id : Option (List ℕ)) → Names (λ method. below_devices method path id)
below_devices-Names path (some id) =
    if_Names (is_no_id id) _ _ not_found-Names
      (only-Names "DELETE" admin_lan Handler.route_revoke_device)
below_devices-Names path none = below_units-Names (strip_prefix (codes "/api/units/") path)

below_programs-Names :
    (path : List ℕ) (rest : Option (List ℕ)) → Names (λ method. below_programs method path rest)
below_programs-Names path (some rest) =
    programs_path-Names rest (strip_suffix (codes "/apply") rest)
below_programs-Names path none =
    below_devices-Names path (strip_prefix (codes "/api/auth/devices/") path)

below_timers-Names :
    (path : List ℕ) (id : Option (List ℕ)) → Names (λ method. below_timers method path id)
below_timers-Names path (some id) =
    if_Names (is_no_id id) _ _ not_found-Names (only-Names "DELETE" full Handler.route_timer_cancel)
below_timers-Names path none =
    below_programs-Names path (strip_prefix (codes "/api/programs/") path)

-- An element that also passes a second test is found by both tests.
find-both :
    (test more : Entry → Bool) (xs : List Entry) (e : Entry)
    → find test xs ≡ some e
    → more e ≡ true
    → (e' : Entry) × (find (λ x. test x && more x) xs ≡ some e')
find-both test more [] e found h = absurd cc
find-both test more (x ∷ xs) e found h = elim (Bool-cases (test x)) [
  | inl first ↦
      let same : x ≡ e = ground (arith, first, found) in (x, rw (first, ap more same ∙ h) refl)
  | inr later ↦
      let (e', found') = find-both test more xs e (ground (arith, later, found)) h in
      (e', rw later found')
]

find-neither :
    (test more : Entry → Bool) (xs : List Entry)
    → find test xs ≡ none
    → find (λ x. test x && more x) xs ≡ none
find-neither test more [] h = refl
find-neither test more (x ∷ xs) h = elim (Bool-cases (test x)) [
  | inl first ↦ absurd (ground (arith, first, h))
  | inr later ↦ rw later (find-neither test more xs (ground (arith, later, h)))
]

in_table-Names : (table : List Entry) (path : String) → Names (in_table table path)
in_table-Names table path method allowed e =
    let at : Entry → Bool = λ e. str_eq e.path path in
    elim (Option-cases (find at table)) [
      | inl absent ↦
          let none_at = find-neither at (λ e. str_eq e.method method) table absent in
          let none_allowed = find-neither at (λ e. str_eq e.method allowed) table absent in
          let by_path : below_timers method (codes path)
                (strip_prefix (codes "/api/timers/") (codes path))
              ≡ method_not_allowed allowed =
            sym (rw (none_at, absent) refl) ∙ e in
          rw (none_allowed, absent)
            (below_timers-Names (codes path) (strip_prefix (codes "/api/timers/") (codes path))
              method allowed by_path)
      | inr (entry, present) ↦
          elim (Option-cases (find (λ e. at e && str_eq e.method method) table)) [
            | inr (found, under) ↦
                let served : answer found ≡ method_not_allowed allowed = sym (rw under refl) ∙ e in
                absurd cc
            | inl refused_there ↦
                let same : entry.method ≡ allowed =
                  same_name entry.method allowed (sym (rw (refused_there, present) refl) ∙ e) in
                let (e', under) =
                  find-both at (λ e. str_eq e.method allowed) table entry present
                    (rw same (str_eq_refl allowed)) in
                rw under refl
          ]
    ]

-- A path that is refused for its method is served under the method that the answer 405 names.
pub resolve-allowed :
    (method allowed path : String)
    → resolve method path ≡ method_not_allowed allowed
    → is_served (resolve allowed path) ≡ true
unfolding resolve
resolve-allowed method allowed path =
    if_Names (str_eq path "/api/units/stream") _ _ stream-Names
      (if_Names (str_eq path "/api/units/scan") _ _ (only-Names "GET" full Handler.route_scan)
        (in_table-Names fixed path))
      method allowed
