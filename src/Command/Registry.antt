-- ===== src/Command/Registry.antt =====
-- The command registry of src/command/command_core.cpp: four-byte ids with their handlers. A handler
-- is of any type here.
pub mod Laws
use pixel_multiverse_firmwar.Prelude.{
  ℕ, Bool, true, false, Option, none, some, List, [], ◌∷◌, ◌++◌, leb, if◌then◌else◌, length,
  bytes_eq, ascii, not, ◌==◌,
}

abbrev pub max_commands : ℕ
max_commands = 16

module _ {ℓ} {H : Type ℓ} where
  -- The loop of `lookup`; the entries are those below `entry_count`.
  unfoldable pub lookup : List ℕ → List (List ℕ × H) → Option H
  lookup id [] = none
  lookup id ((name, fn) ∷ entries) =
      let rest = lookup id entries in if bytes_eq name id then some fn else rest

  abbrev pub is_some : Option H → Bool
  is_some none = false
  is_some (some fn) = true

  unfoldable pub register_command : List ℕ → H → List (List ℕ × H) → Bool × List (List ℕ × H)
  unfolding lookup
  register_command id handler entries =
      if leb max_commands (length entries)
      then (false, entries)
      else if is_some (lookup id entries)
      then (false, entries)
      else (true, entries ++ ((id, handler) ∷ []))

  -- One call of `register_command` after the other.
  abbrev pub register_each : List (List ℕ × H) → List (List ℕ × H) → List (List ℕ × H)
  register_each [] entries = entries
  register_each ((id, handler) ∷ more) entries =
      register_each more (register_command id handler entries).1

  -- The handler that `dispatch_from` calls, if any, and the transport behind the id.
  unfoldable pub dispatch_from {κ} :
      {T : Type κ} → (ℕ → T → List ℕ × T) → List (List ℕ × H) → T → Option H × T
  unfolding lookup
  dispatch_from read entries t =
      let r = read 4 t in (if not (length r.0 == 4) then none else lookup r.0 entries, r.1)
