-- ===== src/Config/Commands/Secrets.antt =====
-- The WiFi password in what the k/v commands answer.
use pixel_multiverse_firmwar.Prelude.{
  ℕ, zero, suc, ◌%◌, ◌≡◌, ◌≢◌, ◌⊎◌, refl, ap, ◌∙◌, true, false, some, List, [], ◌∷◌, ◌==◌,
  if◌then◌else◌, length, take, map, replicate, arith, ascii, Bool-cases, Option-cases, inl, inr,
  ◌>>=◌, fun_ext,
}
use pixel_multiverse_firmwar.Config.Format.{Record}
use pixel_multiverse_firmwar.Config.Store.{Store, get}
use pixel_multiverse_firmwar.Config.Store.Laws.{norm}
use pixel_multiverse_firmwar.Config.Device.{Device}
use pixel_multiverse_firmwar.Config.Commands.{
  is_secret_key, shown_value, append_text, dump_record, dump, handle_keys, get_reply, read_key,
  handle_get,
}

-- The store with other bytes in place of every value under the secret key.
unfoldable pub redact : Record → Record
redact r = record r { value = if is_secret_key r.key r.key_len then replicate 64 0 else r.value }

abbrev pub redacted : Store → Store
redacted s = record s { records = map redact s.records }

shown_value-redact : (r : Record) → shown_value (redact r) ≡ shown_value r
unfolding redact shown_value
shown_value-redact r = elim (Bool-cases (is_secret_key r.key r.key_len)) [
  | inl secret ↦ rw secret refl
  | inr open_key ↦ rw open_key refl
]

dump_record-redact : (buf : List ℕ) (r : Record) → dump_record buf (redact r) ≡ dump_record buf r
unfolding redact dump_record
dump_record-redact buf r =
    ap
      (λ t. append_text buf (take r.key_len r.key) >>= λ keyed.
        append_text keyed (b'=' ∷ []) >>= λ named.
        append_text named t >>= λ valued. append_text valued (10 ∷ []))
      (shown_value-redact r)

dump-redact : (rs : List Record) (buf : List ℕ) → dump buf (map redact rs) ≡ dump buf rs
unfolding dump
dump-redact [] buf = refl
dump-redact (r ∷ rs) buf =
    ap (λ t. t >>= λ b. dump b (map redact rs)) (dump_record-redact buf r)
    ∙ ap (λ f. dump_record buf r >>= f) (fun_ext (dump-redact rs))

take-map : (n : ℕ) (rs : List Record) → take n (map redact rs) ≡ map redact (take n rs)
take-map zero rs = refl
take-map (suc n) [] = refl
take-map (suc n) (r ∷ rs) = ap (λ t. redact r ∷ t) (take-map n rs)

-- The dump of `keys` does not depend on the bytes of a value whose record has the four-byte key
-- "pass": with other bytes in its place every answer is the same.
pub handle_keys-redacted : (s : Store) → handle_keys (redacted s) ≡ handle_keys s
unfolding handle_keys
handle_keys-redacted s =
    let same : dump [] (take s.count (map redact s.records)) ≡ dump [] (take s.count s.records) =
      ap (dump []) (take-map s.count s.records) ∙ dump-redact (take s.count s.records) [] in
    rw same refl

module _ {T : Type 0} (read : ℕ → T → List ℕ × T) where
  -- A request for the key "pass" itself is answered with 0 where it is not set, and with the text
  -- <hidden> where it is.
  pub handle_get-hidden :
      (d : Device) (t t' : T) (key : List ℕ)
      → read_key read t ≡ some (key, t')
      → is_secret_key key (length key) ≡ true
      → (handle_get read d t ≡ some (0 ∷ [], t'))
        ⊎ (handle_get read d t ≡ some (1 ∷ 8 ∷ ascii "<hidden>", t'))
  unfolding handle_get get_reply
  handle_get-hidden d t t' key asked h = elim (Bool-cases (length key == 0)) [
    | inl empty_key ↦ rw (asked, empty_key) (inl refl)
    | inr some_key ↦ elim (Option-cases (get d.store key)) [
      | inl absent ↦ rw (asked, some_key, absent) (inl refl)
      | inr (v, there) ↦ rw (asked, some_key, there, h) (inr refl)
    ]
  ]

  get-norm : (s : Store) (k j : List ℕ) → norm k ≡ norm j → get s k ≡ get s j
  unfolding get
  get-norm s k j e = rw e refl

  not_secret : (k : List ℕ) → length k ≢ 4 → is_secret_key k (length k) ≡ false
  unfolding is_secret_key
  not_secret k h = ground (arith, h)

  -- A request for a key that is "pass" with spaces behind it, of another length but padded to the same
  -- eight bytes: where a password is set, it is answered with the password.
  pub handle_get-leak :
      (d : Device) (t t' : T) (key value : List ℕ) (n : ℕ)
      → read_key read t ≡ some (key, t')
      → norm key ≡ norm (ascii "pass")
      → length key ≢ 4
      → length key ≢ 0
      → get d.store (ascii "pass") ≡ some (value, n)
      → handle_get read d t ≡ some (1 ∷ n % 256 ∷ take n value, t')
  unfolding handle_get get_reply
  handle_get-leak d t t' key value n asked same four zero_length stored =
      let some_key : (length key == 0) ≡ false = ground (arith, zero_length) in
      let found : get d.store key ≡ some (value, n) =
        get-norm d.store key (ascii "pass") same ∙ stored in
      rw (asked, some_key, found, not_secret key four) refl
