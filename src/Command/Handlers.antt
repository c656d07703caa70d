-- ===== src/Command/Handlers.antt =====
-- The handlers of src/command/command_core.cpp that load and present frames. The transport is its
-- `read`: the bytes that came before the timeout, at most as many as asked for, and what is left.
-- The display is its buffer size, what info() and selftest() draw, and `paint`, which is what
-- pico_graphics makes of drawing calls; zlib's uncompress and malloc are parameters.
pub mod Presents
pub mod Sizes
use pixel_multiverse_firmwar.Prelude.{
  ℕ, ◌+◌, ◌-◌, ◌*◌, ◌%◌, Bool, true, false, ◌&&◌, ◌||◌, not, List, [], ◌∷◌, ◌++◌, ltb, ◌==◌,
  if◌then◌else◌, get_or, length, replicate, le32, ascii, ◌>>=◌, read_into, Option, some,
}
use pixel_multiverse_firmwar.Display.Canvas.{Draw}
use pixel_multiverse_firmwar.Display.Frames.{Frames, back, write_back, present}
use pixel_multiverse_firmwar.Net.Multicast.{Inflated}

pub record Display : Type 0 where
  pub size : ℕ
  pub info_calls : List ℕ → List Draw
  pub test_calls : ℕ → List Draw
  pub paint : List Draw → List ℕ → List ℕ

-- `deferred`, and the display's buffers
pub record Board : Type 0 where
  pub deferred : Bool
  pub frames : Frames

-- A short read leaves zeros behind the bytes that came.
abbrev pub filled : ℕ → List ℕ → List ℕ
filled size got = got ++ replicate (size - length got) 0

abbrev pub load_back : Board → List ℕ → Board
load_back b m = record b { frames = write_back b.frames m }

-- display::update()
abbrev pub update : Board → Board
update b = record b { frames = present b.frames }

abbrev pub present_unless_held : Board → Board
present_unless_held b = if b.deferred then b else update b

module _ {T : Type 0} (d : Display) (read : ℕ → T → List ℕ × T) where
  abbrev pub draw : List Draw → Board → Board
  draw calls b = update (load_back b (d.paint calls (back b.frames)))

  unfoldable pub handle_data : Board → T → Board × T
  handle_data b t =
      let r = read d.size t in
      let loaded = load_back b (filled d.size r.0) in
      (if length r.0 == d.size then present_unless_held loaded else loaded, r.1)

  abbrev pub is_digit : ℕ → Bool
  is_digit c = not (ltb c 48 || ltb 57 c)

  abbrev pub run_test : List ℕ → Board → Board
  run_test digits b =
      let tens = get_or digits 0 0 in
      let units = get_or digits 1 0 in
      if not (is_digit tens) || not (is_digit units)
      then draw (d.info_calls (ascii "test?")) b
      else draw (d.test_calls (((tens - 48) * 10 + (units - 48)) % 256)) b

  unfoldable pub handle_test : Board → T → Board × T
  handle_test b t = let r = read 2 t in (if not (length r.0 == 2) then b else run_test r.0 b, r.1)

  module _ (uncompress : List ℕ → List ℕ → Inflated) (malloc : ℕ → Bool) where
    -- From the decompression on.
    unfoldable pub inflate_back : Board → List ℕ → Board
    inflate_back b compressed =
        let out = uncompress (back b.frames) compressed in
        let loaded = load_back b out.dest in
        if not out.z_ok
        then loaded
        else if not (out.dlen == d.size)
        then loaded
        else present_unless_held loaded

    -- The read of `compressed_size` bytes into the buffer of `allocated` bytes, and the rest.
    unfoldable pub inflate_read : Board → ℕ → ℕ → T → Option (Board × T)
    unfolding inflate_back
    inflate_read b allocated compressed_size t = do
      r ← read_into read allocated compressed_size t
      some (if length r.0 == compressed_size then inflate_back b r.0 else b, r.1)

    -- None is a write behind the end of `compressed_size` or of the allocated buffer.
    unfoldable pub handle_zdat : Board → T → Option (Board × T)
    unfolding inflate_read
    handle_zdat b t = do
      s ← read_into read 4 4 t
      let compressed_size = le32 s.0
      if not (length s.0 == 4)
          then some (draw (d.info_calls (ascii "nosize")) b, s.1)
          else if ltb d.size compressed_size
          then some (b, s.1)
          else if not (malloc compressed_size)
          then some (b, s.1)
          else inflate_read b compressed_size compressed_size s.1

abbrev pub handle_flip : Board → Board
handle_flip b = update b

abbrev pub handle_hold : Board → Board
handle_hold b = record b { deferred = true }

abbrev pub handle_live : Board → Board
handle_live b = record b { deferred = false }
