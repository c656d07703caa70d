-- ===== src/Config/Commands/Wire.antt =====
-- The commands over a stream of bytes: what `put` was sent, `get` answers.
-- `stream` is bytes that are still to be read from the transport, and a `read` of at most as many
-- takes its beginning; more may come meanwhile. The UDP transport is one such (`Net.Udp.Stream.read-stream`).
use pixel_multiverse_firmwar.Prelude.{
  ℕ, ◌-◌, ◌%◌, ◌≤◌, ◌≡◌, refl, sym, ap, ◌∙◌, true, false, some, List, [], ◌∷◌, ◌++◌, ◌==◌, ltb,
  ◌||◌, length, take, drop, replicate, arith, Bool-cases, inl, inr, take-append, drop-append,
  take_all, append_assoc, ==_iff, empty_of_length, bytes_eq_refl, none, length-append, leb,
}
use pixel_multiverse_firmwar.Config.Flash.{FlashOps}
use pixel_multiverse_firmwar.Config.Store
use pixel_multiverse_firmwar.Config.Store.{Store, get}
use pixel_multiverse_firmwar.Config.Store.Laws.{IsWellFormed, norm, get-put}
use pixel_multiverse_firmwar.Config.Log
use pixel_multiverse_firmwar.Config.Device.{Device, config_put}
use pixel_multiverse_firmwar.Config.Commands.{
  status, is_secret_key, get_reply, put_value, read_u8, key_after, read_key, value_after,
  read_value, handle_get, put_under, handle_put,
}

-- klen(1) key[klen], and klen(1) key[klen] vlen(1) value[vlen]
abbrev pub get_frame : List ℕ → List ℕ
get_frame key = length key ∷ key

abbrev pub put_frame : List ℕ → List ℕ → List ℕ
put_frame key value = (length key ∷ key) ++ (length value ∷ value)

-- The value as the store holds it.
abbrev pub padded : List ℕ → List ℕ
padded value = take (length value) value ++ replicate (64 - length value) 0

module _ {T : Type 0} (read : ℕ → T → List ℕ × T) (stream : T → List ℕ)
    (takes : (n : ℕ) (t : T) → n ≤ length (stream t) → (read n t).0 ≡ take n (stream t))
    (drops : (n : ℕ) (t : T)
      → n ≤ length (stream t)
      → (more : List ℕ) × (stream (read n t).1 ≡ drop n (stream t) ++ more)) where
  abbrev pub Leaves : T → List ℕ → Type 0
  Leaves t rest = (more : List ℕ) × (stream t ≡ rest ++ more)

  -- A read of the bytes that come next.
  read-stream :
      (t : T) (front rest : List ℕ)
      → stream t ≡ front ++ rest
      → ((read (length front) t).0 ≡ front) × Leaves (read (length front) t).1 rest
  read-stream t front rest e =
      let n = length front in
      let there : n ≤ length (stream t) = omega (arith, ap length e, length-append front rest) in
      let left = drops n t there in
      (
        takes n t there ∙ (ap (take n) e ∙ take-append n front rest refl),
        (left.0, left.1 ∙ ap (λ l. l ++ left.0) (ap (drop n) e ∙ drop-append n front rest refl)),
      )

  -- Bytes that come in two parts.
  both_parts : (t : T) (rest more : List ℕ) → Leaves t (rest ++ more) → Leaves t rest
  both_parts t rest more l = (more ++ l.0, l.1 ∙ append_assoc rest more l.0)

  read_u8-stream :
      (t : T) (b : ℕ) (rest : List ℕ)
      → stream t ≡ b ∷ rest
      → ((read_u8 read t).0 ≡ some b) × Leaves (read_u8 read t).1 rest
  unfolding read_u8
  read_u8-stream t b rest e = let got = read-stream t (b ∷ []) rest e in (rw (got.0) refl, got.1)

  -- A byte with the length of what follows.
  read-framed :
      (t : T) (bytes rest : List ℕ)
      → stream t ≡ (length bytes ∷ bytes) ++ rest
      → let u = read_u8 read t in
        (u.0 ≡ some (length bytes))
        × ((read (length bytes) u.1).0 ≡ bytes)
        × Leaves u.1 (bytes ++ rest)
        × Leaves (read (length bytes) u.1).1 rest
  read-framed t bytes rest e =
      let u = read_u8-stream t (length bytes) (bytes ++ rest) e in
      let got =
        read-stream (read_u8 read t).1 bytes (rest ++ u.1.0)
          (u.1.1 ∙ append_assoc bytes rest u.1.0) in
      (u.0, got.0, u.1, both_parts (read (length bytes) (read_u8 read t).1).1 rest u.1.0 got.1)

  read_key-stream :
      (t : T) (key rest : List ℕ)
      → 1 ≤ length key
      → length key ≤ 8
      → stream t ≡ get_frame key ++ rest
      → (t' : T) × (read_key read t ≡ some (key, t')) × Leaves t' rest
  unfolding read_key key_after
  read_key-stream t key rest low high e =
      let n = length key in
      let got = read-framed t key rest e in
      let in_range : (ltb n 1 || ltb 8 n) ≡ false = ground (arith, low, high) in
      let room : leb n 8 ≡ true = ground (arith, high) in
      let same : (n == n) ≡ true = ground arith in
      ((read n (read_u8 read t).1).1, rw (got.0, in_range, room, got.1, same) refl, got.3)

  read_value-stream :
      (t : T) (value rest : List ℕ)
      → length value ≤ 64
      → stream t ≡ (length value ∷ value) ++ rest
      → (t' : T) × (read_value read t ≡ some (some value, t')) × Leaves t' rest
  unfolding read_value value_after
  read_value-stream t value rest high e =
      let n = length value in
      let got = read-framed t value rest e in
      let t' = (read_u8 read t).1 in
      let in_range : ltb 64 n ≡ false = ground (arith, high) in
      let room : leb n 64 ≡ true = ground (arith, high) in
      let same : (n == n) ≡ true = ground arith in
      elim (Bool-cases (n == 0)) [
        | inl no_bytes ↦
            let nothing : value ≡ [] = empty_of_length value ((==_iff n 0).0 no_bytes) in
            (
              t',
              rw (got.0, in_range, no_bytes) (ap (λ v. some (some v, t')) (sym nothing)),
              (got.2.0, got.2.1 ∙ ap (λ l. (l ++ rest) ++ got.2.0) nothing),
            )
        | inr bytes ↦ ((read n t').1, rw (got.0, in_range, bytes, room, got.1, same) refl, got.3)
      ]

  -- A `get` of a key that has this value and is not secret.
  pub handle_get-stream :
      (d : Device) (t : T) (key value rest : List ℕ)
      → (1 ≤ length key) × (length key ≤ 8)
      → length value ≤ 64
      → is_secret_key key (length key) ≡ false
      → get d.store key ≡ some (padded value, length value)
      → stream t ≡ get_frame key ++ rest
      → (t' : T) × (handle_get read d t ≡ some (1 ∷ length value ∷ value, t')) × Leaves t' rest
  unfolding handle_get get_reply
  handle_get-stream d t key value rest k fits open_key found e =
      let n = length value in
      let asked = read_key-stream t key rest k.0 k.1 e in
      let some_key : (length key == 0) ≡ false = ground (arith, k.0) in
      let small : n % 256 ≡ n = omega arith in
      let whole : take n value ≡ value = take_all n value refl in
      let cut : take n (padded value) ≡ value =
        take-append n (take n value) (replicate (64 - n) 0) (ap length whole) ∙ whole in
      (asked.0, rw (asked.1, some_key, found, open_key, small, cut) refl, asked.2)

  -- A `get` of a key that is not there.
  pub handle_get-absent :
      (d : Device) (t : T) (key rest : List ℕ)
      → (1 ≤ length key) × (length key ≤ 8)
      → get d.store key ≡ none
      → stream t ≡ get_frame key ++ rest
      → (t' : T) × (handle_get read d t ≡ some (0 ∷ [], t')) × Leaves t' rest
  unfolding handle_get get_reply
  handle_get-absent d t key rest k absent e =
      let asked = read_key-stream t key rest k.0 k.1 e in
      let some_key : (length key == 0) ≡ false = ground (arith, k.0) in
      (asked.0, rw (asked.1, some_key, absent) refl, asked.2)

  module _ (ops : FlashOps) (crc : List ℕ → ℕ) where
    pub handle_put-stream :
        (d : Device) (t : T) (key value rest : List ℕ)
        → 1 ≤ length key
        → length key ≤ 8
        → length value ≤ 64
        → stream t ≡ put_frame key value ++ rest
        → let p = config_put ops crc d key value (length value) in
          (t' : T) × (handle_put read ops crc d t ≡ some (status p.0, p.1, t')) × Leaves t' rest
    unfolding handle_put put_under put_value
    handle_put-stream d t key value rest low high fits e =
        let value_frame = length value ∷ value in
        let k =
          read_key-stream t key (value_frame ++ rest) low high
            (e ∙ append_assoc (get_frame key) value_frame rest) in
        let v =
          read_value-stream k.0 value (rest ++ k.2.0) fits
            (k.2.1 ∙ append_assoc value_frame rest k.2.0) in
        let some_key : (length key == 0) ≡ false = ground (arith, low) in
        (v.0, rw (k.1, some_key, v.1) refl, both_parts v.0 rest k.2.0 v.2)

    pub config_put-store :
        (d : Device) (key value : List ℕ) (n : ℕ)
        → ((config_put ops crc d key value n).0 ≡ (Store.put d.store key value n).0)
          × ((config_put ops crc d key value n).1.store ≡ (Store.put d.store key value n).1)
    unfolding config_put Log.put
    config_put-store d key value n = elim (Bool-cases (Store.put d.store key value n).0) [
      | inl accepted ↦ rw accepted (refl, refl)
      | inr refused ↦ rw refused (refl, refl)
    ]

    -- What `get` finds where a `put` of the value was accepted.
    pub get-config_put :
        (d : Device) (key value : List ℕ)
        → IsWellFormed d.store
        → (Store.put d.store key value (length value)).0 ≡ true
        → get (config_put ops crc d key value (length value)).1.store key
          ≡ some (padded value, length value)
    get-config_put d key value w accepted =
        ap (λ t. get t key) (config_put-store d key value (length value)).1
        ∙ (get-put d.store key w value (length value) key accepted
            ∙ rw (bytes_eq_refl (norm key)) refl)

    -- A host that sends a `put` and then a `get` of the same key over one stream, the key of one to
    -- eight bytes and not secret, the value of at most 64: where the store takes the value, the answers
    -- are 1, and 1 with the value behind its length, and the stream goes on behind the two commands.
    pub handle_get-handle_put :
        (d : Device) (t : T) (key value rest : List ℕ)
        → IsWellFormed d.store
        → (1 ≤ length key) × (length key ≤ 8)
        → length value ≤ 64
        → is_secret_key key (length key) ≡ false
        → (Store.put d.store key value (length value)).0 ≡ true
        → stream t ≡ put_frame key value ++ (get_frame key ++ rest)
        → (d' : Device) × (t' : T) × (handle_put read ops crc d t ≡ some (1 ∷ [], d', t'))
          × (t'' : T) × (handle_get read d' t' ≡ some (1 ∷ length value ∷ value, t''))
          × Leaves t'' rest
    handle_get-handle_put d t key value rest w k fits open_key accepted e =
        let p = config_put ops crc d key value (length value) in
        let sent = handle_put-stream d t key value (get_frame key ++ rest) k.0 k.1 fits e in
        let found = get-config_put d key value w accepted in
        let answer =
          handle_get-stream p.1 sent.0 key value (rest ++ sent.2.0) k fits open_key found
            (sent.2.1 ∙ append_assoc (get_frame key) rest sent.2.0) in
        let told = (config_put-store d key value (length value)).0 ∙ accepted in
        (
          p.1,
          sent.0,
          sent.1 ∙ ap (λ ok. some (status ok, p.1, sent.0)) told,
          answer.0,
          answer.1,
          both_parts answer.0 rest sent.2.0 answer.2,
        )
