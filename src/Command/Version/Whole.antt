-- ===== src/Command/Version/Whole.antt =====
-- When the answer of `vers` fits its buffer.
use pixel_multiverse_firmwar.Prelude.{
  ℕ, zero, suc, ◌+◌, ◌-◌, ◌/◌, ◌%◌, ◌≤◌, ◌<◌, ◌≡◌, refl, ap, ◌∙◌, Bool, true, false, some, List, [],
  ◌∷◌, ◌++◌, ltb, if◌then◌else◌, length, ascii, arith, length-append, take_whole, append-nil,
  append_assoc, to_le16,
}
use pixel_multiverse_firmwar.Display.Canvas.{decimal, to_string}
use pixel_multiverse_firmwar.Command.Version.{
  Text, no_text, print, Facts, field, board_text, wifi_text, stats_text, answer, answered,
  with_wifi, handle_vers, full_text,
}

length-decimal-le : (fuel n : ℕ) → length (decimal fuel n) ≤ fuel
length-decimal-le zero n = omega arith
length-decimal-le (suc fuel) n =
    let shorter = length-decimal-le fuel (n / 10) in
    let longer = length-append (decimal fuel (n / 10)) ((48 + n % 10) ∷ []) in
    ground (arith, shorter, longer)

length-field : (name value : List ℕ) → length (field name value) ≡ length name + length value + 1
length-field name value =
    omega (arith, length-append name (value ++ (10 ∷ [])), length-append value (10 ∷ []))

print-fits :
    (t : Text) (letters : List ℕ)
    → length t.buf ≡ t.n
    → t.n + length letters < 320
    → print t letters ≡ some (record { buf = t.buf ++ letters; n = t.n + length letters })
unfolding print
print-fits t letters whole fits =
    let room : ltb 320 t.n ≡ false = ground (arith, fits) in
    let uncut = (take_whole (320 - t.n - 1) letters (omega (arith, fits))).0 in
    rw (room, uncut) refl

-- No text is longer than its fixed words, ten characters for a number, and what the build and the
-- network give.
board_text_le : (f : Facts) → length (board_text f) ≤ 65 + length f.board_id + length f.version
board_text_le f =
    let w = length-decimal-le 10 f.width in
    let h = length-decimal-le 10 f.height in
    let s = length-decimal-le 10 f.size in
    let size = field (ascii "bufsize=") (to_string f.size) in
    let dims = field (ascii "display=") (to_string f.width ++ (b'x' ∷ to_string f.height)) in
    let version = field (ascii "version=") f.version in
    omega (
      arith,
      w,
      h,
      s,
      length-append (field (ascii "board=") f.board_id) (version ++ (dims ++ size)),
      length-append version (dims ++ size),
      length-append dims size,
      length-field (ascii "board=") f.board_id,
      length-field (ascii "version=") f.version,
      length-field (ascii "display=") (to_string f.width ++ (b'x' ∷ to_string f.height)),
      length-append (to_string f.width) (b'x' ∷ to_string f.height),
      length-field (ascii "bufsize=") (to_string f.size),
    )

wifi_text_le : (f : Facts) → length (wifi_text f) ≤ 20 + length f.ip
wifi_text_le f =
    let said : length (if f.connected then ascii "connected" else ascii "connecting") ≤ 10 =
      ground arith in
    omega (
      arith,
      said,
      length-append
          (field (ascii "wifi=") (if f.connected then ascii "connected" else ascii "connecting"))
          (field (ascii "ip=") f.ip),
      length-field (ascii "wifi=") (if f.connected then ascii "connected" else ascii "connecting"),
      length-field (ascii "ip=") f.ip,
    )

stats_text_le : (f : Facts) → length (stats_text f) ≤ 98
stats_text_le f =
    let a = field (ascii "mframes=") (to_string f.frames) in
    let b = field (ascii "mdrop=") (to_string f.dropped) in
    let c = field (ascii "mdmax_us=") (to_string f.dmax_us) in
    let d = field (ascii "mflip_ok=") (to_string f.flip_ok) in
    let e = field (ascii "mflip_gate=") (to_string f.flip_gate) in
    omega (
      arith,
      length-append a (b ++ (c ++ (d ++ e))),
      length-append b (c ++ (d ++ e)),
      length-append c (d ++ e),
      length-append d e,
      length-field (ascii "mframes=") (to_string f.frames),
      length-field (ascii "mdrop=") (to_string f.dropped),
      length-field (ascii "mdmax_us=") (to_string f.dmax_us),
      length-field (ascii "mflip_ok=") (to_string f.flip_ok),
      length-field (ascii "mflip_gate=") (to_string f.flip_gate),
      length-decimal-le 10 f.frames,
      length-decimal-le 10 f.dropped,
      length-decimal-le 10 f.dmax_us,
      length-decimal-le 10 f.flip_ok,
      length-decimal-le 10 f.flip_gate,
    )

answer-whole :
    (letters : List ℕ)
    → length letters < 320
    → answer (record { buf = letters; n = length letters }) ≡ to_le16 (length letters) ++ letters
answer-whole letters fits =
    let room : ltb 320 (length letters) ≡ false = ground (arith, fits) in
    let all = (take_whole (length letters) letters (omega arith)).0 in
    let rest : length letters - length letters ≡ 0 = omega arith in
    rw (room, all, rest, append-nil letters) refl

print-first :
    (b : List ℕ) → length b < 320 → print no_text b ≡ some (record { buf = b; n = length b })
print-first b fits =
    let counted : 0 + length b ≡ length b = omega arith in
    print-fits no_text b refl (omega (arith, fits))
    ∙ ap (λ k. some (record { buf = b; n = k })) counted

whole-text :
    (enabled : Bool) (b w s : List ℕ)
    → length b + length w + length s < 320
    → let all = b ++ (if enabled then w ++ s else []) in
      answered (with_wifi enabled w s (print no_text b)) ≡ some (to_le16 (length all) ++ all)
whole-text false b w s fits =
    rw (print-first b (omega (arith, fits)), append-nil b)
      (ap some (answer-whole b (omega (arith, fits))))
whole-text true b w s fits =
    let first = print-first b (omega (arith, fits)) in
    let second = print-fits (record { buf = b; n = length b }) w refl (omega (arith, fits)) in
    let third =
      print-fits (record { buf = b ++ w; n = length b + length w }) s (length-append b w)
        (omega (arith, fits)) in
    let room : ltb (length b) 320 ≡ true = ground (arith, fits) in
    let size : length b + length w + length s ≡ length (b ++ (w ++ s)) =
      omega (arith, length-append b (w ++ s), length-append w s) in
    let whole = answer-whole (b ++ (w ++ s)) (omega (arith, size, fits)) in
    rw (first, room, second, third, append_assoc b w s, size) (ap some whole)

-- With an address of at most 15 characters and at most 120 in the board's id and the version
-- together: the answer is the whole text behind its length in two bytes, and nothing is written
-- outside the buffer.
pub handle_vers-whole :
    (f : Facts)
    → length f.ip ≤ 15
    → length f.board_id + length f.version ≤ 120
    → handle_vers f ≡ some (to_le16 (length (full_text f)) ++ full_text f)
unfolding handle_vers
handle_vers-whole f ip names =
    whole-text f.enabled (board_text f) (wifi_text f) (stats_text f)
      (omega (arith, board_text_le f, wifi_text_le f, stats_text_le f, ip, names))
