-- ===== src/Command/Machine/Table.antt =====
-- The command table of the running firmware.
use pixel_multiverse_firmwar.Prelude.{
  ℕ, ◌≡◌, length, ◌↔◌, refl, sym, ap, ◌∙◌, some, List, [], ◌∷◌, All, Bool-cases, inl, inr, ascii,
  arith, bytes_eq, bytes_eq→eq,
}
use pixel_multiverse_firmwar.Command.Registry.{lookup, register_command}
use pixel_multiverse_firmwar.Command.Machine.{
  Handler, do_put, do_get, do_del, do_keys, do_data, do_zdat, do_test, do_flip, do_hold, do_live,
  do_vers, do_rst, do_usb, do_fac, table,
}

abbrev pub id_of : Handler → List ℕ
id_of do_put = ascii "put "
id_of do_get = ascii "get "
id_of do_del = ascii "del "
id_of do_keys = ascii "keys"
id_of do_data = ascii "data"
id_of do_zdat = ascii "zdat"
id_of do_test = ascii "test"
id_of do_flip = ascii "flip"
id_of do_hold = ascii "hold"
id_of do_live = ascii "live"
id_of do_vers = ascii "vers"
id_of do_rst = ascii "_rst"
id_of do_usb = ascii "_usb"
id_of do_fac = ascii "_fac"

pub length-id_of : (h : Handler) → length (id_of h) ≡ 4
length-id_of do_put = refl
length-id_of do_get = refl
length-id_of do_del = refl
length-id_of do_keys = refl
length-id_of do_data = refl
length-id_of do_zdat = refl
length-id_of do_test = refl
length-id_of do_flip = refl
length-id_of do_hold = refl
length-id_of do_live = refl
length-id_of do_vers = refl
length-id_of do_rst = refl
length-id_of do_usb = refl
length-id_of do_fac = refl

abbrev IsNamed : List ℕ × Handler → Type 0
IsNamed entry = entry.0 ≡ id_of entry.1

-- The registrations of the k/v commands and of the built-in ones are all accepted.
abbrev all_handlers : List Handler
all_handlers =
    do_put ∷ do_get ∷ do_del ∷ do_keys ∷ do_data ∷ do_zdat ∷ do_test ∷ do_flip ∷ do_hold ∷ do_live
    ∷ do_vers ∷ do_rst ∷ do_usb ∷ do_fac ∷ []

abbrev entries_of : List Handler → List (List ℕ × Handler)
entries_of [] = []
entries_of (h ∷ hs) = (id_of h, h) ∷ entries_of hs

table-eq : table ≡ entries_of all_handlers
unfolding register_command lookup bytes_eq
table-eq = refl

lookup-IsNamed :
    (id : List ℕ) (h : Handler) (entries : List (List ℕ × Handler))
    → All IsNamed entries
    → lookup id entries ≡ some h
    → id ≡ id_of h
unfolding lookup
lookup-IsNamed id h [] n e = cc
lookup-IsNamed id h ((name, fn) ∷ entries) n e = elim (Bool-cases (bytes_eq name id)) [
  | inl same ↦
      let hit : fn ≡ h = ground (arith, same, e) in
      sym (bytes_eq→eq name id same) ∙ (n.0 ∙ ap id_of hit)
  | inr other ↦ lookup-IsNamed id h entries n.1 (ground (arith, other, e))
]

entries_of-IsNamed : (hs : List Handler) → All IsNamed (entries_of hs)
entries_of-IsNamed [] = tt
entries_of-IsNamed (h ∷ hs) = (refl, entries_of-IsNamed hs)

lookup-entries_of : (h : Handler) → lookup (id_of h) (entries_of all_handlers) ≡ some h
unfolding lookup bytes_eq
lookup-entries_of do_put = refl
lookup-entries_of do_get = refl
lookup-entries_of do_del = refl
lookup-entries_of do_keys = refl
lookup-entries_of do_data = refl
lookup-entries_of do_zdat = refl
lookup-entries_of do_test = refl
lookup-entries_of do_flip = refl
lookup-entries_of do_hold = refl
lookup-entries_of do_live = refl
lookup-entries_of do_vers = refl
lookup-entries_of do_rst = refl
lookup-entries_of do_usb = refl
lookup-entries_of do_fac = refl

-- The table that the loop runs with has the fourteen handlers, each under its own id of four bytes
-- and under no other: an id finds a handler exactly when it is the handler's.
pub lookup-table : (id : List ℕ) (h : Handler) → (lookup id table ≡ some h) ↔ (id ≡ id_of h)
lookup-table id h = (
  λ found.
      lookup-IsNamed id h (entries_of all_handlers) (entries_of-IsNamed all_handlers)
        (ap (lookup id) (sym table-eq) ∙ found),
  λ same. ap (λ i. lookup i table) same ∙ (ap (lookup (id_of h)) table-eq ∙ lookup-entries_of h),
)
