-- ===== src/Tests/Bytes.antt =====
-- Strings, numbers, paths and keys at concrete bytes.
use leeos.Stdio.{format_loop}
use leeos.Stdio.Pieces.{Piece, plain, as_hex, as_string}
use leeos.Stdio.Rendered.{Rendered, format_loop-Rendered}
use leeos.Base.{
  ℕ, ◌==◌, if◌then◌else◌, ◌≡◌, inl, inr, refl, List, [], ◌∷◌, arith, Returns, ok, false,
}
use leeos.Base.Memory.{update}
use leeos.Strings.{strlen}
use leeos.Strings.Text.{strlen_lem}
use leeos.Files.{path_deepth_cnt}
use leeos.Files.Depth.{Part, counted, path_deepth_cnt-counted}
use leeos.Keyboard.{Keys}
use leeos.Keyboard.Shift.{IsPlain, decode_all, decode_all-IsPlain}
use leeos.Base.Distinct.{All}

-- "ab" at 100, "c" at 200, "a0" at 300, "//ab/" at 400, and zeros.
abbrev texts : ℕ → ℕ
texts =
    update
      (update
        (update
          (update
            (update
              (update
                (update (update (update (update (λ a. 0) 100 b'a') 101 b'b') 200 b'c') 300 b'a') 301
                b'0')
              400 b'/')
            401 b'/')
          402 b'a')
        403 b'b')
      404 b'/'

abbrev one_part : List Part
one_part = (2, b'a' ∷ b'b' ∷ []) ∷ []

strlen_lem_example : strlen 3 texts 100 ≡ ok 2
strlen_lem_example =
    strlen_lem 3 texts 100 (b'a' ∷ b'b' ∷ []) (omega arith)
      (refl, omega arith, (refl, omega arith, refl)) (omega arith)

-- "0x%x %s" at 100, "hi" at 200.
abbrev two_texts : ℕ → ℕ
two_texts a =
    if a == 100
    then b'0'
    else if a == 101
    then b'x'
    else if a == 102
    then b'%'
    else if a == 103
    then b'x'
    else if a == 104
    then b' '
    else if a == 105
    then b'%'
    else if a == 106
    then b's'
    else if a == 200
    then b'h'
    else if a == 201
    then b'i'
    else 0

abbrev two_pieces : List Piece
two_pieces =
    plain b'0' ∷ plain b'x' ∷ as_hex 2748 ∷ plain b' ' ∷ as_string 200 (b'h' ∷ b'i' ∷ []) ∷ []

format_loop-Rendered_example :
    Returns (format_loop 20 300 100 (2748 ∷ 200 ∷ []) two_texts) (Rendered two_texts 300 two_pieces)
format_loop-Rendered_example =
    format_loop-Rendered 20 300 100 300 two_pieces two_texts (ground arith) (omega arith)
      (omega arith) (ground arith) (ground arith)

path_deepth_cnt-counted_example :
    Returns (path_deepth_cnt 7 700 400 texts) (λ depth. depth ≡ counted (texts 700) one_part)
path_deepth_cnt-counted_example =
    path_deepth_cnt-counted 7 700 400 texts one_part 1 (omega arith) (omega arith)
      (
        (refl, (refl, omega arith)),
        (refl, omega arith, omega arith, (refl, omega arith, omega arith, inl refl)),
        omega arith,
        ((refl, omega arith), refl),
      )
      (omega arith, tt) (inr (omega arith)) (omega arith) (omega arith)

-- The left shift key, and the key of the letter a.
abbrev no_keys : Keys
no_keys = record {
  ctrl_status = false;
  shift_status = false;
  alt_status = false;
  caps_lock_status = false;
  ext_scancode = false;
}

decode_all-IsPlain_example : All IsPlain (decode_all (0x2a ∷ 0x1e ∷ []) no_keys)
decode_all-IsPlain_example =
    decode_all-IsPlain (0x2a ∷ 0x1e ∷ []) no_keys (record { ctrl = refl; shift = refl; alt = refl })
