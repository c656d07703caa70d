-- ===== src/Prelude.antt =====
-- The names that the other modules share: the libraries', passed on, and those of the children.
mod Tests
mod Lists
mod Bytes
mod Ascii
pub use Tests.*
pub use Lists.*
unfoldable pub use Bytes.*
pub use Ascii.*
pub use Prim.Native.Nat.{
  ℕ, zero, suc, ◌+◌, ◌-◌, ◌*◌, ◌/◌, ◌%◌, ◌^◌, ◌≤◌, ◌<◌, min, bit_and, bit_xor,
}
pub use mathlib.Core.Path.{◌≡◌, refl, sym, ap, ◌∙◌, subst, fun_ext, ◌≡⟨◌⟩◌, ◌∎, ap₂}
pub use mathlib.Core.Logic.{◌≢◌, ◌↔◌, ◌⊎◌, inl, inr}
pub use mathlib.Core.Bool.{Bool, true, false, not, ◌&&◌, ◌||◌}
pub use mathlib.Core.Option.{Option, none, some}
pub use mathlib.Core.List.{List, [], ◌∷◌, ◌++◌, map, append-nil, append_assoc}
pub use native.Mathlib.Omega.{arith}

infixl 5 ◌>>=◌
abbrev pub ◌>>=◌ {ℓ κ} : {A : Type ℓ} {B : Type κ} → Option A → (A → Option B) → Option B
none >>= f = none
some a >>= f = f a

-- A read of `n` bytes into a buffer of `room` bytes; none is a write behind the end of the buffer.
abbrev pub read_into {ℓ} : {T : Type ℓ} → (ℕ → T → List ℕ × T) → ℕ → ℕ → T → Option (List ℕ × T)
read_into read room n t = if leb n room then some (read n t) else none

-- buf[pos] = c where `pos` is the number of bytes written before; none is a write behind the end.
abbrev pub write_at_end : ℕ → List ℕ → ℕ → Option (List ℕ)
write_at_end room buf c = if ltb (length buf) room then some (buf ++ (c ∷ [])) else none

pub some_inj {ℓ} : {A : Type ℓ} {a b : A} → some a ≡ some b → a ≡ b
some_inj {a = a} e = ap (λ o. elim o [ none ↦ a | some x ↦ x ]) e

-- What time brings to a transport: a list for each call of it, of the polls before that call's
-- deadline. The polls that a call leaves come with the next call's.
abbrev pub due {ℓ} : {A : Type ℓ} → List (List A) → List A
due [] = []
due (now ∷ later) = now

abbrev pub put_off {ℓ} : {A : Type ℓ} → List A → List (List A) → List (List A)
put_off left [] = left ∷ []
put_off left (now ∷ []) = left ∷ []
put_off left (now ∷ next ∷ later) = (left ++ next) ∷ later
