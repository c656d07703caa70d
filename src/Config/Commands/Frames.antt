-- ===== src/Config/Commands/Frames.antt =====
-- The dump of `keys` against the whole listing that it cuts off.
use pixel_multiverse_firmwar.Prelude.{
  ℕ, ◌≤◌, ◌≡◌, refl, sym, ap, ◌∙◌, List, [], ◌∷◌, ◌++◌, ltb, length, take, arith, Bool-cases, inl,
  inr, append-nil, append_assoc, length-append, le16, to_le16, take_whole, take_long,
  length-take-le, fun_ext, some, ◌>>=◌, if◌then◌else◌,
}
use pixel_multiverse_firmwar.Config.Format.{Record}
use pixel_multiverse_firmwar.Config.Store.{Store}
use pixel_multiverse_firmwar.Config.Commands.{
  dump_bytes, append_byte, append_text, shown_value, dump_record, dump, handle_keys,
}

-- A record's line, and the lines of all, of any length.
abbrev pub line : Record → List ℕ
line r = take r.key_len r.key ++ (b'=' ∷ (shown_value r ++ (10 ∷ [])))

abbrev pub listing : List Record → List ℕ
listing [] = []
listing (r ∷ rs) = line r ++ listing rs

-- What a byte that is appended leaves; no write is behind the end.
byte_end : List ℕ → ℕ → List ℕ
byte_end buf c = if ltb (length buf) dump_bytes then buf ++ (c ∷ []) else buf

append_byte-byte_end : (buf : List ℕ) (c : ℕ) → append_byte buf c ≡ some (byte_end buf c)
unfolding byte_end
append_byte-byte_end buf c = elim (Bool-cases (ltb (length buf) dump_bytes)) [
  | inl room ↦ rw room refl
  | inr full ↦ rw full refl
]

append_text-append :
    (xs ys buf : List ℕ)
    → (append_text buf xs >>= λ b. append_text b ys) ≡ append_text buf (xs ++ ys)
unfolding append_text
append_text-append [] ys buf = refl
append_text-append (x ∷ xs) ys buf =
    rw (append_byte-byte_end buf x) (append_text-append xs ys (byte_end buf x))

dump_record-eq : (buf : List ℕ) (r : Record) → dump_record buf r ≡ append_text buf (line r)
unfolding dump_record
dump_record-eq buf r =
    let k = take r.key_len r.key in
    let v = shown_value r in
    let tail = append_text-append v (10 ∷ []) in
    let named = λ (b : List ℕ).
      ap (λ f. append_text b (b'=' ∷ []) >>= f) (fun_ext tail)
      ∙ append_text-append (b'=' ∷ []) (v ++ (10 ∷ [])) b in
    ap (λ f. append_text buf k >>= f) (fun_ext named)
    ∙ append_text-append k (b'=' ∷ (v ++ (10 ∷ []))) buf

dump-eq : (rs : List Record) (buf : List ℕ) → dump buf rs ≡ append_text buf (listing rs)
unfolding dump
dump-eq [] buf = unfold append_text in refl
dump-eq (r ∷ rs) buf =
    ap (λ t. t >>= λ b. dump b rs) (dump_record-eq buf r)
    ∙ (ap (λ f. append_text buf (line r) >>= f) (fun_ext (dump-eq rs))
        ∙ append_text-append (line r) (listing rs) buf)

append_text-take :
    (cs buf : List ℕ)
    → length buf ≤ dump_bytes
    → append_text buf cs ≡ some (take dump_bytes (buf ++ cs))
unfolding append_text
append_text-take [] buf h =
    ap some (sym (take_whole dump_bytes buf h).0 ∙ ap (take dump_bytes) (sym (append-nil buf)))
append_text-take (c ∷ cs) buf h = elim (Bool-cases (ltb (length buf) dump_bytes)) [
  | inl room ↦
      let longer = length-append buf (c ∷ []) in
      rw room (
        append_text-take cs (buf ++ (c ∷ [])) (ground (arith, longer, room))
        ∙ ap (λ t. some (take dump_bytes t)) (append_assoc buf (c ∷ []) cs))
  | inr full ↦
      let enough : dump_bytes ≤ length buf = ground (arith, full) in
      rw full (
        append_text-take cs buf h
        ∙ ap some (
            (take_long dump_bytes buf cs enough).0
            ∙ sym (take_long dump_bytes buf (c ∷ cs) enough).0))
]

-- `keys` writes nothing behind the end of its buffer, and answers with the first 2560 bytes of the
-- listing of the live records, behind their number in two bytes, the low one first.
pub handle_keys-listing :
    (s : Store)
    → let cut = take dump_bytes (listing (take s.count s.records)) in
      (handle_keys s ≡ some (to_le16 (length cut) ++ cut))
      × (le16 (to_le16 (length cut) ++ cut) ≡ length cut)
unfolding handle_keys
handle_keys-listing s =
    let rs = take s.count s.records in
    let same : dump [] rs ≡ some (take dump_bytes (listing rs)) =
      dump-eq rs [] ∙ append_text-take (listing rs) [] (omega arith) in
    let short = length-take-le dump_bytes (listing rs) in rw same (refl, omega (arith, short))
