-- ===== src/Keyboard.antt =====
-- device/keyboard.c: from scancodes to characters in the keyboard's queue.
pub mod Shift
use Prim.Native.Nat.{bit_and, bit_or}
use leeos.Base.{
  ℕ, zero, suc, ◌+◌, ◌%◌, ◌^◌, Bool, true, false, not, ◌&&◌, ◌||◌, u8, ltb, ◌==◌, if◌then◌else◌,
  List, [], ◌∷◌, Run, ok, halted, stuck, ◌>>=◌, ◌>>◌, assert, get_or,
}
use leeos.Kernel.{Kernel, Globals}
use leeos.Ioqueue.{ioqueue_init, ioqueue_is_full, ioq_putchar}

-- `keymap`: each key's character without and with shift. 0 is a key with no character.
unfoldable pub keymap : List (ℕ × ℕ)
keymap =
    (0, 0)
    ∷ (27, 27)
    ∷ (b'1', b'!')
    ∷ (b'2', b'@')
    ∷ (b'3', b'#')
    ∷ (b'4', b'$')
    ∷ (b'5', b'%')
    ∷ (b'6', b'^')
    ∷ (b'7', b'&')
    ∷ (b'8', b'*')
    ∷ (b'9', b'(')
    ∷ (b'0', b')')
    ∷ (b'-', b'_')
    ∷ (b'=', b'+')
    ∷ (8, 8)
    ∷ (9, 9)
    ∷ (b'q', b'Q')
    ∷ (b'w', b'W')
    ∷ (b'e', b'E')
    ∷ (b'r', b'R')
    ∷ (b't', b'T')
    ∷ (b'y', b'Y')
    ∷ (b'u', b'U')
    ∷ (b'i', b'I')
    ∷ (b'o', b'O')
    ∷ (b'p', b'P')
    ∷ (b'[', b'{')
    ∷ (b']', b'}')
    ∷ (13, 13)
    ∷ (0, 0)
    ∷ (b'a', b'A')
    ∷ (b's', b'S')
    ∷ (b'd', b'D')
    ∷ (b'f', b'F')
    ∷ (b'g', b'G')
    ∷ (b'h', b'H')
    ∷ (b'j', b'J')
    ∷ (b'k', b'K')
    ∷ (b'l', b'L')
    ∷ (b';', b':')
    ∷ (39, 34)
    ∷ (96, b'~')
    ∷ (0, 0)
    ∷ (92, b'|')
    ∷ (b'z', b'Z')
    ∷ (b'x', b'X')
    ∷ (b'c', b'C')
    ∷ (b'v', b'V')
    ∷ (b'b', b'B')
    ∷ (b'n', b'N')
    ∷ (b'm', b'M')
    ∷ (b',', b'<')
    ∷ (b'.', b'>')
    ∷ (b'/', b'?')
    ∷ (0, 0)
    ∷ (b'*', b'*')
    ∷ (0, 0)
    ∷ (b' ', b' ')
    ∷ (0, 0)
    ∷ []

-- The static flags, each 0 or 1 in the source.
pub record Keys : Type 0 where
  pub ctrl_status : Bool
  pub shift_status : Bool
  pub alt_status : Bool
  pub caps_lock_status : Bool
  pub ext_scancode : Bool

-- What the handler does with a scancode: nothing more, the message "unknow char", or a character.
pub data Action : Type 0 where
  done unknown : Action
  emit : ℕ → Action

abbrev pub shift_l_make : ℕ
shift_l_make = 0x2a

abbrev pub shift_r_make : ℕ
shift_r_make = 0x36

abbrev pub alt_l_make : ℕ
alt_l_make = 0x38

abbrev pub alt_r_make : ℕ
alt_r_make = 0xe038

abbrev pub ctrl_l_make : ℕ
ctrl_l_make = 0x1d

abbrev pub ctrl_r_make : ℕ
ctrl_r_make = 0xe01d

-- A break code clears the flag of its key.
unfoldable pub release : ℕ → Keys → Keys
release scancode s =
    let make_code = bit_and scancode 0xff7f in
    if make_code == ctrl_l_make || make_code == ctrl_r_make
    then record s { ctrl_status = false }
    else if make_code == shift_l_make || make_code == shift_r_make
    then record s { shift_status = false }
    else if make_code == alt_l_make || make_code == alt_r_make
    then record s { alt_status = false }
    else s

-- The keys whose second character only shift selects.
unfoldable pub needs_shift : ℕ → Bool
needs_shift scancode =
    ltb scancode 0x0e
    || scancode == 0x29
    || scancode == 0x1a
    || scancode == 0x1b
    || scancode == 0x2b
    || scancode == 0x27
    || scancode == 0x28
    || scancode == 0x33
    || scancode == 0x34
    || scancode == 0x35

unfoldable pub is_shifted : ℕ → Bool → Bool → Bool
is_shifted scancode shift_down_last alt_down_last =
    if needs_shift scancode
    then shift_down_last
    else if shift_down_last && alt_down_last
    then false
    else shift_down_last || alt_down_last

unfoldable pub key_char : ℕ → Bool → ℕ
key_char index shift = let key = get_or keymap index (0, 0) in if shift then key.1 else key.0

unfoldable pub press : ℕ → Keys → Action
press scancode s =
    if (ltb 0x00 scancode && ltb scancode 0x3b)
      || (scancode == alt_r_make && scancode == ctrl_l_make)
    then (let index = u8 (bit_and scancode 0x00ff) in
        let ch = key_char index (is_shifted scancode s.shift_status s.alt_status) in
        if ch == 0 then done else emit ch)
    else unknown

-- The handler up to the queue, for the byte that it reads from the port.
unfoldable pub decode : ℕ → Keys → Action × Keys
decode byte s =
    if byte == 0xe0
    then (done, record s { ext_scancode = true })
    else (let scancode = if s.ext_scancode then bit_or byte 0xe000 else byte in
        let s' = record s { ext_scancode = false } in
        if bit_and scancode 0x0080 == 0
        then (press scancode s', s')
        else (done, release scancode s'))

-- The codes of "unknow char\n".
abbrev pub unknown_message : List ℕ
unknown_message =
    b'u' ∷ b'n' ∷ b'k' ∷ b'n' ∷ b'o' ∷ b'w' ∷ b' ' ∷ b'c' ∷ b'h' ∷ b'a' ∷ b'r' ∷ 10 ∷ []

-- The handler: the new flags, what it prints, and the kernel's new state.
module _ (fuel : ℕ) (g : Globals) (others : Kernel → Run Kernel) (rounds kdb_buf : ℕ) where
  deliver : ℕ → Kernel → Run (List ℕ × Kernel)
  deliver ch k = do
    full ← ioqueue_is_full kdb_buf k
    if full
        then ok ([], k)
        else (do k1 ← ioq_putchar fuel g others rounds kdb_buf rounds ch k; ok (ch ∷ [], k1))

  act : Action → Kernel → Run (List ℕ × Kernel)
  act done k = ok ([], k)
  act unknown k = ok (unknown_message, k)
  act (emit ch) k = deliver ch k

  unfoldable pub intr_keyboard_handler : ℕ → Keys → Kernel → Run (Keys × List ℕ × Kernel)
  unfolding act deliver
  intr_keyboard_handler byte s k = do
    let decoded = decode byte s
    printed ← act decoded.0 k
    ok (decoded.1, printed.0, printed.1)

unfoldable pub keyboard_init : ℕ → Kernel → Kernel
keyboard_init kdb_buf k = ioqueue_init kdb_buf k
