-- ===== src/Store/Config.antt =====
-- `AppConfig` of crates/breeze-store/src/models.rs: the configured units. How an id is rendered
-- (`i64::to_string`) is the parameter `render`.
use breeze_core_native.Common.{
  ℕ, Bool, true, false, not, Option, none, some, String, List, [], ◌∷◌, ◌==◌, if◌then◌else◌, find,
  retain, length, ◌≡◌, refl, arith,
}
use breeze_core_native.Common.Int.{ℤ, pos, negsuc}
use breeze_core_native.Common.Texts.{str_eq}

pub record UnitConfig : Type 0 where
  pub name : String
  pub ip : String
  pub port : ℕ
  pub id : ℤ
  pub token : Option String
  pub key : Option String

pub record AppConfig : Type 0 where
  pub api_key : Option String
  pub units : List UnitConfig

abbrev pub same_id : ℤ → ℤ → Bool
same_id (pos a) (pos b) = a == b
same_id (negsuc a) (negsuc b) = a == b
same_id _ _ = false

-- A later value, where there is one.
abbrev keep_or : Option String → Option String → Option String
keep_or old none = old
keep_or old (some new) = some new

abbrev pub updated : UnitConfig → UnitConfig → UnitConfig
updated existing u = record existing {
  ip = u.ip;
  port = u.port;
  name = u.name;
  token = keep_or existing.token u.token;
  key = keep_or existing.key u.key;
}

-- The list with its first unit of that id updated, and whether the unit was new.
unfoldable pub add_or_update : List UnitConfig → UnitConfig → List UnitConfig × Bool
add_or_update [] u = (u ∷ [], true)
add_or_update (x ∷ xs) u =
    let (rest, new) = add_or_update xs u in
    if same_id x.id u.id then (updated x u ∷ xs, false) else (x ∷ rest, new)

unfoldable pub add_or_update_unit : AppConfig → UnitConfig → AppConfig × Bool
add_or_update_unit config u =
    let (units, new) = add_or_update config.units u in (record config { units = units }, new)

unfoldable pub find_unit : (ℤ → String) → AppConfig → String → Option UnitConfig
find_unit render config unit_id = find (λ u. str_eq (render u.id) unit_id) config.units

unfoldable pub remove_unit : (ℤ → String) → AppConfig → String → AppConfig × Bool
remove_unit render config unit_id =
    let units = retain (λ u. not (str_eq (render u.id) unit_id)) config.units in
    (record config { units = units }, not (length units == length config.units))

abbrev pub find_id : ℤ → List UnitConfig → Option UnitConfig
find_id id units = find (λ u. same_id u.id id) units

pub same_id→eq : (a b : ℤ) → same_id a b ≡ true → a ≡ b
same_id→eq (pos a) (pos b) h = ground arith
same_id→eq (negsuc a) (negsuc b) h = ground arith
same_id→eq (pos a) (negsuc b) h = absurd (ground arith)
same_id→eq (negsuc a) (pos b) h = absurd (ground arith)

pub same_id_refl : (a : ℤ) → same_id a a ≡ true
same_id_refl (pos a) = ground arith
same_id_refl (negsuc a) = ground arith

-- Adding a unit makes it the one of its id: as given if there was none (and only then the answer is
-- "new"), else the one there was with the new name, address and port, and with credentials that are
-- replaced only by credentials. Every other id is left as it was.
pub add_or_update_unit-finds :
    (config : AppConfig) (u : UnitConfig) (id : ℤ)
    → (find_id id (add_or_update_unit config u).0.units ≡ (
        if same_id u.id id
        then (elim (find_id u.id config.units) [ none ↦ some u | some x ↦ some (updated x u) ])
        else find_id id config.units))
      × ((add_or_update_unit config u).1
          ≡ (elim (find_id u.id config.units) [ none ↦ true | some x ↦ false ]))
unfolding add_or_update_unit add_or_update
add_or_update_unit-finds config u id = go config.units
  where
    go :
        (units : List UnitConfig)
        → (find_id id (add_or_update units u).0 ≡ (
            if same_id u.id id
            then (elim (find_id u.id units) [ none ↦ some u | some x ↦ some (updated x u) ])
            else find_id id units))
          × ((add_or_update units u).1
              ≡ (elim (find_id u.id units) [ none ↦ true | some x ↦ false ]))
    go [] = (ground arith, refl)
    go (x ∷ xs) = (
      ground (
        arith,
        go xs,
        same_id→eq x.id u.id,
        same_id→eq u.id id,
        same_id→eq x.id id,
        same_id_refl id,
        same_id_refl u.id,
      ),
      ground (arith, go xs),
    )
