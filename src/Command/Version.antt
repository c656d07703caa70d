-- ===== src/Command/Version.antt =====
-- The `vers` command of src/command/command_core.cpp. A text is what snprintf has put into `buf` up to
-- its NUL, and `n` the length that the calls of snprintf add up to.
pub mod Whole
use pixel_multiverse_firmwar.Prelude.{
  ℕ, zero, suc, ◌+◌, ◌-◌, ◌/◌, ◌%◌, ◌≤◌, ◌<◌, ◌≡◌, refl, sym, ap, ◌∙◌, Bool, true, false, ◌&&◌,
  Option, none, some, List, [], ◌∷◌, ◌++◌, ltb, if◌then◌else◌, length, take, replicate, ascii,
  arith, Bool-cases, inl, inr, length-append, length-take, take_whole, append-nil, append_assoc,
  to_le16,
}
use pixel_multiverse_firmwar.Display.Canvas.{decimal, to_string}

abbrev pub text_size : ℕ
text_size = 320

pub record Text : Type 0 where
  pub buf : List ℕ
  pub n : ℕ

abbrev pub no_text : Text
no_text = record { buf = []; n = 0 }

-- snprintf(buf + n, sizeof(buf) - n, ...): none where n is past the end, so that the size wraps.
unfoldable pub print : Text → List ℕ → Option Text
print t letters =
    if ltb text_size t.n
    then none
    else some
        (record { buf = t.buf ++ take (text_size - t.n - 1) letters; n = t.n + length letters })

-- What the handler is told of the board and of the network.
pub record Facts : Type 0 where
  pub board_id : List ℕ
  pub version : List ℕ
  pub width : ℕ
  pub height : ℕ
  pub size : ℕ
  pub enabled : Bool
  pub connected : Bool
  pub ip : List ℕ
  pub frames : ℕ
  pub dropped : ℕ
  pub dmax_us : ℕ
  pub flip_ok : ℕ
  pub flip_gate : ℕ

abbrev pub field : List ℕ → List ℕ → List ℕ
field name value = name ++ (value ++ (10 ∷ []))

abbrev pub board_text : Facts → List ℕ
board_text f =
    field (ascii "board=") f.board_id
    ++ (field (ascii "version=") f.version
        ++ (field (ascii "display=") (to_string f.width ++ (b'x' ∷ to_string f.height))
            ++ field (ascii "bufsize=") (to_string f.size)))

abbrev pub wifi_text : Facts → List ℕ
wifi_text f =
    field (ascii "wifi=") (if f.connected then ascii "connected" else ascii "connecting")
    ++ field (ascii "ip=") f.ip

abbrev pub stats_text : Facts → List ℕ
stats_text f =
    field (ascii "mframes=") (to_string f.frames)
    ++ (field (ascii "mdrop=") (to_string f.dropped)
        ++ (field (ascii "mdmax_us=") (to_string f.dmax_us)
            ++ (field (ascii "mflip_ok=") (to_string f.flip_ok)
                ++ field (ascii "mflip_gate=") (to_string f.flip_gate))))

abbrev pub then_print : Option Text → List ℕ → Option Text
then_print none letters = none
then_print (some t) letters = print t letters

-- The bytes that go out: `n` is cut to the size of the buffer, and a text that was cut off ends in
-- its NUL.
abbrev pub answer : Text → List ℕ
answer t =
    let n = if ltb text_size t.n then text_size else t.n in
    to_le16 n ++ (take n t.buf ++ replicate (n - length t.buf) 0)

abbrev pub answered : Option Text → Option (List ℕ)
answered none = none
answered (some t) = some (answer t)

-- With WiFi, the text of the network and that of the counters follow.
abbrev pub with_wifi : Bool → List ℕ → List ℕ → Option Text → Option Text
with_wifi enabled wifi stats none = none
with_wifi enabled wifi stats (some t) =
    if enabled && ltb t.n text_size then then_print (print t wifi) stats else some t

unfoldable pub handle_vers : Facts → Option (List ℕ)
unfolding print
handle_vers f =
    answered (with_wifi f.enabled (wifi_text f) (stats_text f) (print no_text (board_text f)))

-- The whole of what is to be said.
abbrev pub full_text : Facts → List ℕ
full_text f = board_text f ++ (if f.enabled then wifi_text f ++ stats_text f else [])
