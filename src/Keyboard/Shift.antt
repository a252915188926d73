-- ===== src/Keyboard/Shift.antt =====
-- The modifier flags over a series of scancodes.
use Prim.Native.Nat.{bit_and, bit_or}
use leeos.Base.{
  ℕ, ◌<◌, ◌≡◌, refl, false, ◌&&◌, ◌||◌, ◌==◌, if◌then◌else◌, List, [], ◌∷◌, arith, get_or, inl, inr,
  Bool-cases, u8, ltb,
}
use leeos.Base.Distinct.{All}
use leeos.Keyboard.{
  Keys, Action, done, unknown, emit, decode, press, release, key_char, is_shifted, keymap,
  alt_r_make, ctrl_l_make,
}

-- No modifier is down.
pub record NoModifier (s : Keys) : Type 0 where
  pub ctrl : s.ctrl_status ≡ false
  pub shift : s.shift_status ≡ false
  pub alt : s.alt_status ≡ false

decode-NoModifier : (byte : ℕ) (s : Keys) → NoModifier s → NoModifier (decode byte s).1
unfolding decode release
decode-NoModifier byte s m = ground arith

-- A character that stands in the first column of the keymap.
abbrev pub IsPlain : Action → Type 0
IsPlain done = Unit
IsPlain unknown = Unit
IsPlain (emit ch) = (i : ℕ) × (i < 256) × ((get_or keymap i (0, 0)).0 ≡ ch)

unshifted : (scancode : ℕ) → is_shifted scancode false false ≡ false
unfolding is_shifted
unshifted scancode = ground arith

emit-IsPlain :
    (index : ℕ)
    → index < 256
    → IsPlain (if key_char index false == 0 then done else emit (key_char index false))
unfolding key_char
emit-IsPlain index small = elim (Bool-cases (key_char index false == 0)) [
  | inl e ↦ rw (e, key_char) tt
  | inr e ↦ rw (e, key_char) (index, small, refl)
]

press-IsPlain : (scancode : ℕ) (s : Keys) → NoModifier s → IsPlain (press scancode s)
unfolding press
press-IsPlain scancode s m =
    elim (Bool-cases (
      (ltb 0x00 scancode && ltb scancode 0x3b)
      || (scancode == alt_r_make && scancode == ctrl_l_make))) [
        | inl e ↦
            rw (e, m.shift, m.alt, unshifted scancode)
              (emit-IsPlain (u8 (bit_and scancode 0x00ff)) (omega arith))
        | inr e ↦ rw e tt
      ]

abbrev scancode_of : ℕ → Keys → ℕ
scancode_of byte s = if s.ext_scancode then bit_or byte 0xe000 else byte

decode-IsPlain : (byte : ℕ) (s : Keys) → NoModifier s → IsPlain (decode byte s).0
unfolding decode
decode-IsPlain byte s m = elim (Bool-cases (byte == 0xe0)) [
  | inl e ↦ rw e tt
  | inr e ↦ rw e (elim (Bool-cases (bit_and (scancode_of byte s) 0x0080 == 0)) [
    | inl z ↦ rw z (
        press-IsPlain (scancode_of byte s) (record s { ext_scancode = false })
          (record { ctrl = m.ctrl; shift = m.shift; alt = m.alt }))
    | inr z ↦ rw z tt
  ])
]

-- The actions for a series of bytes from the port.
unfoldable pub decode_all : List ℕ → Keys → List Action
decode_all [] s = []
decode_all (byte ∷ bytes) s = let r = decode byte s in r.0 ∷ decode_all bytes r.1

-- From flags that are clear, no series of bytes from the port shifts a key: every character
-- that the handler makes of them stands in the first column of the keymap.
pub decode_all-IsPlain :
    (bytes : List ℕ) (s : Keys) → NoModifier s → All IsPlain (decode_all bytes s)
unfolding decode_all
decode_all-IsPlain [] s m = tt
decode_all-IsPlain (byte ∷ bytes) s m = (
  decode-IsPlain byte s m,
  decode_all-IsPlain bytes (decode byte s).1 (decode-NoModifier byte s m),
)
