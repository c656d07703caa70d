-- ===== src/Command/Registry/Laws.antt =====
-- A registered handler is found under its id, and no registration changes another's.
use pixel_multiverse_firmwar.Prelude.{
  ℕ, ◌≤◌, ◌≡◌, ◌⊎◌, not, ◌||◌, refl, true, false, Option, none, some, List, [], ◌∷◌, ◌++◌, leb,
  if◌then◌else◌, length, bytes_eq, length-append, Bool-cases, Option-cases, inl, inr, arith,
}
use pixel_multiverse_firmwar.Command.Registry.{max_commands, lookup, is_some, register_command}

module _ {ℓ} {H : Type ℓ} where
  -- The first entry of an id counts.
  abbrev or_else : Option H → Option H → Option H
  or_else none o = o
  or_else (some fn) o = some fn

  lookup-append :
      (id name : List ℕ) (fn : H) (entries : List (List ℕ × H))
      → lookup id (entries ++ ((name, fn) ∷ []))
        ≡ or_else (lookup id entries) (if bytes_eq name id then some fn else none)
  unfolding lookup
  lookup-append id name fn [] = elim (Bool-cases (bytes_eq name id)) [
    | inl same ↦ rw same refl
    | inr other ↦ rw other refl
  ]
  lookup-append id name fn ((n, f) ∷ entries) = elim (Bool-cases (bytes_eq n id)) [
    | inl same ↦ rw same refl
    | inr other ↦ rw other (lookup-append id name fn entries)
  ]

  -- With room in the table for an id that it does not have: the registration is accepted, the id then
  -- has the handler, and an id with other bytes has the handler that it had.
  pub lookup-register_command :
      (id other : List ℕ) (fn : H) (entries : List (List ℕ × H))
      → leb max_commands (length entries) ≡ false
      → lookup id entries ≡ none
      → bytes_eq id id ≡ true
      → bytes_eq id other ≡ false
      → ((register_command id fn entries).0 ≡ true)
        × (lookup id (register_command id fn entries).1 ≡ some fn)
        × (lookup other (register_command id fn entries).1 ≡ lookup other entries)
  unfolding register_command
  lookup-register_command id other fn entries room new same differs =
      let one = lookup-append id id fn entries in
      let two = lookup-append other id fn entries in
      rw (room, new)
        (
          refl,
          (rw (one, new, same) refl),
          (elim (Option-cases (lookup other entries)) [
            | inl missing ↦ rw (two, missing, differs) refl
            | inr (f, found) ↦ rw (two, found) refl
          ]),
        )

  -- A registration keeps the table within its 16 entries. It is refused exactly when the table is
  -- full or the id has a handler, and one that is refused changes nothing.
  pub register_command-refused :
      (id : List ℕ) (fn : H) (entries : List (List ℕ × H))
      → length entries ≤ max_commands
      → (length (register_command id fn entries).1 ≤ max_commands)
        × ((register_command id fn entries).0
            ≡ not (leb max_commands (length entries) || is_some (lookup id entries)))
        × (((register_command id fn entries).0 ≡ true)
            ⊎ ((register_command id fn entries).1 ≡ entries))
  unfolding register_command
  register_command-refused id fn entries fits =
      elim (Bool-cases (leb max_commands (length entries))) [
        | inl full ↦ rw full (fits, refl, inr refl)
        | inr room ↦ elim (Bool-cases (is_some (lookup id entries))) [
          | inl known ↦ rw (room, known) (fits, refl, inr refl)
          | inr new ↦
              let longer = length-append entries ((id, fn) ∷ []) in
              let fits_still : length (entries ++ ((id, fn) ∷ [])) ≤ max_commands =
                ground (arith, longer, room) in
              rw (room, new) (fits_still, refl, inl refl)
        ]
      ]
