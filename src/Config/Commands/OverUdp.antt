-- ===== src/Config/Commands/OverUdp.antt =====
-- The k/v commands of a host that sends them in UDP datagrams.
use pixel_multiverse_firmwar.Prelude.{
  ℕ, ◌≤◌, ◌≡◌, true, false, some, List, [], ◌∷◌, ◌++◌, length, ◌∙◌, sym, append-nil,
}
use pixel_multiverse_firmwar.Config.Flash.{FlashOps}
use pixel_multiverse_firmwar.Config.Store
use pixel_multiverse_firmwar.Config.Store.Laws.{IsWellFormed}
use pixel_multiverse_firmwar.Config.Device.{Device}
use pixel_multiverse_firmwar.Config.Commands.{is_secret_key, handle_get, handle_put}
use pixel_multiverse_firmwar.Config.Commands.Wire.{get_frame, put_frame, handle_get-handle_put}
use pixel_multiverse_firmwar.Net.Udp.Channel.{
  Channel, coming, channel_read, channel_read-takes, channel_read-drops,
}

-- With no burst above the ring's size: a `put` and then a `get` of the same key, the key of one to
-- eight bytes and not secret and the value of at most 64, are answered with 1, and with 1 and the
-- value behind its length, where the store takes the value, however the datagrams cut the commands
-- and whenever they come before the deadline.
pub handle_get-channel_read :
    (rb : ℕ) (ops : FlashOps) (crc : List ℕ → ℕ) (d : Device) (c : Channel rb)
    (key value rest : List ℕ)
    → IsWellFormed d.store
    → (1 ≤ length key) × (length key ≤ 8)
    → length value ≤ 64
    → is_secret_key key (length key) ≡ false
    → (Store.put d.store key value (length value)).0 ≡ true
    → coming rb c ≡ put_frame key value ++ (get_frame key ++ rest)
    → (d' : Device) × (c' : Channel rb) × (handle_put (channel_read rb) ops crc d c
        ≡ some (1 ∷ [], d', c'))
      × (c'' : Channel rb) × (handle_get (channel_read rb) d' c'
          ≡ some (1 ∷ length value ∷ value, c''))
      × ((more : List ℕ) × (coming rb c'' ≡ rest ++ more))
handle_get-channel_read rb ops crc d c key value rest w k fits open_key accepted e =
    handle_get-handle_put (channel_read rb) (coming rb) (λ n c. λ there. channel_read-takes rb n c)
      (λ n c there. ([], channel_read-drops rb n c ∙ sym (append-nil _))) ops crc d c key value rest
      w k fits open_key accepted e
