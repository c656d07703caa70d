-- ===== src/Config/Commands.antt =====
-- The k/v commands of src/config/kv_commands.cpp. A handler gives the bytes that it writes, the
-- configuration after it, and the transport behind what it has read. `read` is the transport's, with
-- the poll before it: the bytes that came before the timeout, at most as many as asked for.
-- None is a write behind the end of one of the code's buffers: key[8], value[64], buf[2560].
pub mod Frames
pub mod Wire
pub mod OverUdp
pub mod Persistent
pub mod Secrets
pub mod Kept
use pixel_multiverse_firmwar.Prelude.{
  ℕ, ◌+◌, ◌/◌, ◌%◌, Bool, true, false, ◌&&◌, ◌||◌, Option, none, some, List, [], ◌∷◌, ◌++◌, ltb,
  leb, ◌==◌, if◌then◌else◌, length, take, get_or, bytes_eq, ascii, map, ◌>>=◌, read_into,
  write_at_end,
}
use pixel_multiverse_firmwar.Config.Format.{Record, key_width, value_width}
use pixel_multiverse_firmwar.Config.Store.{Store, get}
use pixel_multiverse_firmwar.Config.Flash.{FlashOps}
use pixel_multiverse_firmwar.Config.Device.{Device, config_put, config_del}

-- `key` is the bytes at the pointer, `klen` the significant ones.
unfoldable pub is_secret_key : List ℕ → ℕ → Bool
is_secret_key key klen = klen == 4 && bytes_eq (take 4 key) (ascii "pass")

abbrev pub status : Bool → List ℕ
status ok = (if ok then 1 else 0) ∷ []

-- What `handle_get` answers for a key and what the store has under it.
unfoldable pub get_reply : List ℕ → Option (List ℕ × ℕ) → List ℕ
unfolding is_secret_key
get_reply key none = 0 ∷ []
get_reply key (some (value, vlen)) =
    if is_secret_key key (length key)
    then 1 ∷ 8 ∷ ascii "<hidden>"
    else 1 ∷ vlen % 256 ∷ take vlen value

-- buf[pos++] = c, if it has room
abbrev pub dump_bytes : ℕ
dump_bytes = 2560

abbrev pub append_byte : List ℕ → ℕ → Option (List ℕ)
append_byte buf c = if ltb (length buf) dump_bytes then write_at_end dump_bytes buf c else some buf

unfoldable pub append_text : List ℕ → List ℕ → Option (List ℕ)
append_text buf [] = some buf
append_text buf (c ∷ cs) = append_byte buf c >>= λ b. append_text b cs

abbrev pub printable : ℕ → ℕ
printable c = if leb 0x20 c && ltb c 0x7f then c else b'.'

unfoldable pub shown_value : Record → List ℕ
unfolding is_secret_key
shown_value r =
    if is_secret_key r.key r.key_len
    then (if ltb 0 r.value_len then ascii "<hidden>" else [])
    else map printable (take r.value_len r.value)

-- One round of the loop of `handle_keys`; its tests of `pos` are those of `append_byte`.
unfoldable pub dump_record : List ℕ → Record → Option (List ℕ)
unfolding append_text shown_value
dump_record buf r = do
  keyed ← append_text buf (take r.key_len r.key)
  named ← append_text keyed (b'=' ∷ [])
  valued ← append_text named (shown_value r)
  append_text valued (10 ∷ [])

unfoldable pub dump : List ℕ → List Record → Option (List ℕ)
unfolding dump_record
dump buf [] = some buf
dump buf (r ∷ rs) = dump_record buf r >>= λ b. dump b rs

unfoldable pub handle_keys : Store → Option (List ℕ)
unfolding dump
handle_keys s = do
  buf ← dump [] (take s.count s.records)
  some (length buf % 256 ∷ length buf / 256 % 256 ∷ buf)

-- The end of `handle_put`.
unfoldable pub put_value :
    FlashOps → (List ℕ → ℕ) → Device → List ℕ → Option (List ℕ) → List ℕ × Device
put_value ops crc d key none = (status false, d)
put_value ops crc d key (some value) =
    let p = config_put ops crc d key value (length value) in (status p.0, p.1)

module _ {T : Type 0} (read : ℕ → T → List ℕ × T) where
  unfoldable pub read_u8 : T → Option ℕ × T
  read_u8 t = let r = read 1 t in (if length r.0 == 1 then some (get_or r.0 0 0) else none, r.1)

  -- `read_key` after its length byte, into key[KEY_LEN]. No bytes stand for the length 0.
  unfoldable pub key_after : Option ℕ → T → Option (List ℕ × T)
  key_after none t = some ([], t)
  key_after (some klen) t =
      if ltb klen 1 || ltb key_width klen
      then some ([], t)
      else (read_into read key_width klen t >>= λ r.
          some (if length r.0 == klen then r.0 else [], r.1))

  unfoldable pub read_key : T → Option (List ℕ × T)
  unfolding read_u8 key_after
  read_key t = let u = read_u8 t in key_after u.0 u.1

  -- The value of `put` after its length byte, into value[VALUE_LEN]; an inner none is a frame that is
  -- cut short or too long.
  unfoldable pub value_after : Option ℕ → T → Option (Option (List ℕ) × T)
  value_after none t = some (none, t)
  value_after (some vlen) t =
      if ltb value_width vlen
      then some (none, t)
      else if vlen == 0
      then some (some [], t)
      else (read_into read value_width vlen t >>= λ r.
          some (if length r.0 == vlen then some r.0 else none, r.1))

  unfoldable pub read_value : T → Option (Option (List ℕ) × T)
  unfolding read_u8 value_after
  read_value t = let u = read_u8 t in value_after u.0 u.1

  unfoldable pub handle_get : Device → T → Option (List ℕ × T)
  unfolding read_key get_reply
  handle_get d t = do
    k ← read_key t
    some (if length k.0 == 0 then 0 ∷ [] else get_reply k.0 (get d.store k.0), k.1)

  module _ (ops : FlashOps) (crc : List ℕ → ℕ) where
    -- `handle_put` behind the key; no value is read behind a key that is not one.
    unfoldable pub put_under : Device → List ℕ × T → Option (List ℕ × Device × T)
    unfolding read_value put_value
    put_under d k =
        if length k.0 == 0
        then some (status false, d, k.1)
        else (read_value k.1 >>= λ v.
            some ((put_value ops crc d k.0 v.0).0, (put_value ops crc d k.0 v.0).1, v.1))

    unfoldable pub handle_put : Device → T → Option (List ℕ × Device × T)
    unfolding read_key put_under
    handle_put d t = do k ← read_key t; put_under d k

    unfoldable pub handle_del : Device → T → Option (List ℕ × Device × T)
    unfolding read_key
    handle_del d t = do
      k ← read_key t
      let p = config_del ops crc d k.0
      some (if length k.0 == 0 then (status false, d, k.1) else (status p.0, p.1, k.1))
