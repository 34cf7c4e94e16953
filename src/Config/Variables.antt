-- ===== src/Config/Variables.antt =====
-- About the system variables of a configuration after `applyDefaults`.
use mysqlmock.Map.Laws.{same_refl, lookup-insert}
use mysqlmock.Map.{bytes_eq, insert, is_some, Assoc, lookup}
use mysqlmock.Base.{
  ◌≡◌, refl, ap, ◌∙◌, inl, inr, Option, none, some, [], ◌∷◌, if◌then◌else◌, Bool-cases,
  Option-cases, Bytes, codes, beq, beq_iff,
}
use mysqlmock.Config.{Config, default_variables}
use mysqlmock.Config.Defaults.{
  variables_of, lookup_compat_profile, add_missing, apply_compat_profile, complete_compat,
  apply_defaults,
}

-- The first of two values that is there.
abbrev pub first_of : Option Bytes → Option Bytes → Option Bytes
first_of none b = b
first_of (some a) b = some a

-- One round of the loop.
lookup-taken :
    (j k v : Bytes) (later : Option Bytes) (m : Assoc Bytes Bytes)
    → first_of (lookup j (if is_some (lookup k m) then m else insert k v m)) later
      ≡ first_of (lookup j m) (if beq k j then some v else later)
lookup-taken j k v later m = elim (Bool-cases (beq k j)) [
  | inl t ↦
      rw (t, ← (beq_iff k j).0 t)
        (elim (Option-cases (lookup k m)) [
          | inl e ↦ rw (e, lookup-insert k k v m, same_refl k) refl
          | inr (w, e) ↦ rw e (rw e refl)
        ])
  | inr t ↦ rw t (elim (Option-cases (lookup k m)) [
    | inl e ↦ rw (e, lookup-insert k j v m, t) refl
    | inr (w, e) ↦ rw e refl
  ])
]

none_there : (o : Option Bytes) → o ≡ first_of o none
none_there none = refl
none_there (some v) = refl

first_of_assoc : (a b c : Option Bytes) → first_of (first_of a b) c ≡ first_of a (first_of b c)
first_of_assoc none b c = refl
first_of_assoc (some a) b c = refl

lookup-add_missing :
    (j : Bytes) (defaults m : Assoc Bytes Bytes)
    → lookup j (add_missing defaults m) ≡ first_of (lookup j m) (lookup j defaults)
unfolding add_missing lookup
lookup-add_missing j [] m = none_there (lookup j m)
lookup-add_missing j ((k, v) ∷ defaults) m =
    let next = if is_some (lookup k m) then m else insert k v m in
    lookup-add_missing j defaults next ∙ lookup-taken j k v (lookup j defaults) m

-- After the defaults are applied, `version` is the version of MySQL that the server names; any
-- other variable is the configured one, or else the default one, or else the one of the profile,
-- and is absent if none of them has it.
pub lookup-variables :
    (c : Config) (j : Bytes)
    → lookup j (apply_defaults c).compat.variables ≡ (
        if beq (codes "version") j
        then some (apply_defaults c).server.mysql_version
        else first_of (lookup j c.compat.variables) (
            first_of
              (lookup j default_variables)
              (lookup j (variables_of (lookup_compat_profile (apply_defaults c).compat.profile)))))
unfolding apply_defaults complete_compat apply_compat_profile
lookup-variables c j =
    let name = (apply_defaults c).compat.profile in
    let mysql_version = (apply_defaults c).server.mysql_version in
    let profile = variables_of (lookup_compat_profile name) in
    let m = add_missing default_variables c.compat.variables in
    lookup-insert (codes "version") j mysql_version (apply_compat_profile name m)
    ∙ ap (λ o. if beq (codes "version") j then some mysql_version else o)
        (lookup-add_missing j profile m
          ∙ (ap (λ o. first_of o (lookup j profile))
                (lookup-add_missing j default_variables c.compat.variables)
              ∙ first_of_assoc (lookup j c.compat.variables) (lookup j default_variables)
                  (lookup j profile)))
