-- ===== src/Stdio/Rendered.antt =====
-- What vsprintf of lib/stdio.c writes for a format.
use leeos.Base.{
  ℕ, zero, suc, ◌+◌, ◌≤◌, ◌<◌, ◌≡◌, refl, ◌∙◌, List, [], ◌∷◌, length, ok, Run, ◌>>=◌, ==_of_ne,
  arith, Returns, Returns-bind, Returns-mono,
}
use leeos.Base.Memory.{update, update_self}
use leeos.Strings.Text.{IsString, IsString-frame}
use leeos.Stdio.{Cursor, convert, format_loop}
use leeos.Stdio.Pieces.{
  Piece, plain, as_hex, as_decimal, as_char, as_string, spelled, arguments, ShowsAll, AllGood, Fits,
  Shows-frame, AllGood-frame,
}
use leeos.Stdio.Conversions.{
  Stepped, Converted, Stepped-byte, convert_hex, convert_decimal, convert_char, convert_string,
}

-- The pieces' texts stand behind each other from `str` on; the bytes before are as they were, and
-- behind the texts no byte that was zero is another.
pub record Rendered (m : ℕ → ℕ) (str : ℕ) (ps : List Piece) (m' : ℕ → ℕ) : Type 0 where
  pub end : ℕ
  pub shows : ShowsAll m' str ps end
  pub forward : str ≤ end
  pub before : (a : ℕ) → a < str → m' a ≡ m a
  pub zeros : (a : ℕ) → end ≤ a → m a ≡ 0 → m' a ≡ 0

Rendered-cons :
    (m : ℕ → ℕ) (str : ℕ) (x : Piece) (ps : List Piece) (m1 : ℕ → ℕ) (str1 : ℕ) (m' : ℕ → ℕ)
    → Stepped m str x m1 str1
    → Rendered m1 str1 ps m'
    → Rendered m str (x ∷ ps) m'
Rendered-cons m str x ps m1 str1 m' s r = record {
  end = r.end;
  shows = (str1, Shows-frame m1 m' str str1 x r.before s.shows, r.shows);
  forward = omega (arith, s.forward, r.forward);
  before = λ a lt. r.before a (omega (arith, s.forward)) ∙ s.before a lt;
  zeros = λ a le z. r.zeros a le (s.zeros a (omega (arith, r.forward)) z);
}

-- What is left of the format and of the pieces after a step.
abbrev Ready : (fuel str format low : ℕ) → List Piece → (ℕ → ℕ) → Type 0
Ready fuel str format low ps m =
    IsString m format (spelled ps)
    × (format + length (spelled ps) < low)
    × (low ≤ str)
    × AllGood m low ps
    × Fits fuel ps

Ready-Stepped :
    (fuel str format low : ℕ) (x : Piece) (ps : List Piece) (m m1 : ℕ → ℕ) (str1 : ℕ)
    → Stepped m str x m1 str1
    → Ready fuel str format low ps m
    → Ready fuel str1 format low ps m1
Ready-Stepped fuel str format low x ps m m1 str1 s (text, under, le, good, fits) = (
  IsString-frame m m1 format (spelled ps) (λ a lo hi. s.before a (omega arith)) text,
  under,
  omega (arith, s.forward),
  AllGood-frame m m1 low ps (λ a lt. s.before a (omega arith)) good,
  fits,
)

-- What is true of the rest of the format, whatever the step left, is true of all of it.
Rendered-step :
    (fuel str format low : ℕ) (x : Piece) (ps : List Piece) (m : ℕ → ℕ) (step : Run Cursor)
    → Returns step (Converted m str format x (arguments ps))
    → Ready fuel str (suc format) low ps m
    → ((str1 : ℕ) (m1 : ℕ → ℕ)
        → Ready fuel str1 (suc format) low ps m1
        → Returns (format_loop fuel str1 (suc format) (arguments ps) m1) (Rendered m1 str1 ps))
    → Returns (step >>= λ c. format_loop fuel c.1 c.2 c.3 c.0) (Rendered m str (x ∷ ps))
Rendered-step fuel str format low x ps m step h ready next =
    Returns-bind step _ (Converted m str format x (arguments ps)) _ h (λ c (s, e, e').
      rw (e, e')
        (Returns-mono (format_loop fuel c.1 (suc format) (arguments ps) c.0) _ _
          (next c.1 c.0 (Ready-Stepped fuel str (suc format) low x ps m c.0 c.1 s ready))
          (λ m' r. Rendered-cons m str x ps c.0 c.1 m' s r)))

format_loop-Ready :
    (fuel str format low : ℕ) (ps : List Piece) (m : ℕ → ℕ)
    → Ready fuel str format low ps m
    → Returns (format_loop fuel str format (arguments ps) m) (Rendered m str ps)
unfolding format_loop
format_loop-Ready zero str format low ps m (text, under, le, good, fits) = elim fits [ ]
format_loop-Ready (suc fuel) str format low [] m (text, under, le, good, fits) = rw text (record {
  end = str;
  shows = refl;
  forward = omega arith;
  before = λ a lt. refl;
  zeros = λ a le' z. z;
})
format_loop-Ready (suc fuel) str format low (plain x ∷ ps) m (text, under, le, good, fits) =
    let m1 = update m str x in
    let s = Stepped-byte m str (plain x) x (refl, update_self m str x) in
    rw (text.0, ==_of_ne x 0 text.1, ==_of_ne x b'%' good.0)
      (Rendered-step fuel str format low (plain x) ps m (ok (m1, suc str, suc format, arguments ps))
        (s, refl, refl) (text.2, omega (arith, under), le, good.1, fits.1)
        (λ str1 m2 ready. format_loop-Ready fuel str1 (suc format) low ps m2 ready))
format_loop-Ready (suc fuel) str format low (as_hex n ∷ ps) m (text, under, le, good, fits) =
    rw text.0 (
      Rendered-step fuel str (suc format) low (as_hex n) ps m
        (convert fuel str (suc format) (n ∷ arguments ps) m)
        (convert_hex fuel str (suc format) low (arguments ps) m le n text.2.0 fits.0)
        (text.2.2, omega (arith, under), le, good.1, fits.1)
        (λ str1 m2 ready. format_loop-Ready fuel str1 (suc (suc format)) low ps m2 ready))
format_loop-Ready (suc fuel) str format low (as_decimal n ∷ ps) m (text, under, le, good, fits) =
    rw text.0 (
      Rendered-step fuel str (suc format) low (as_decimal n) ps m
        (convert fuel str (suc format) (n ∷ arguments ps) m)
        (convert_decimal fuel str (suc format) low (arguments ps) m le n text.2.0 fits.0)
        (text.2.2, omega (arith, under), le, good.1, fits.1)
        (λ str1 m2 ready. format_loop-Ready fuel str1 (suc (suc format)) low ps m2 ready))
format_loop-Ready (suc fuel) str format low (as_char n ∷ ps) m (text, under, le, good, fits) =
    rw text.0 (
      Rendered-step fuel str (suc format) low (as_char n) ps m
        (convert fuel str (suc format) (n ∷ arguments ps) m)
        (convert_char fuel str (suc format) low (arguments ps) m le n text.2.0)
        (text.2.2, omega (arith, under), le, good.1, fits.1)
        (λ str1 m2 ready. format_loop-Ready fuel str1 (suc (suc format)) low ps m2 ready))
format_loop-Ready (suc fuel) str format low (as_string a xs ∷ ps) m (text, under, le, good, fits) =
    rw text.0 (
      Rendered-step fuel str (suc format) low (as_string a xs) ps m
        (convert fuel str (suc format) (a ∷ arguments ps) m)
        (convert_string fuel str (suc format) low (arguments ps) m le a xs text.2.0 good.0 fits.0)
        (text.2.2, omega (arith, under), le, good.1, fits.1)
        (λ str1 m2 ready. format_loop-Ready fuel str1 (suc (suc format)) low ps m2 ready))

-- For a format of plain characters, `%x`, `%d`, `%c` and `%s`, which stands in the memory, as
-- the strings of its `%s` do, below the place that is written to, with an argument for each
-- conversion in order and enough fuel for each number and string, the loop of vsprintf returns
-- with the texts one behind the other from that place on: the character itself, digits, at
-- least one, that read as the number in base 16 or 10, the lowest byte of a word, and the bytes
-- of the string; the bytes before the place are as before, and no byte behind the texts that
-- was zero is another.
pub format_loop-Rendered :
    (fuel str format low : ℕ) (ps : List Piece) (m : ℕ → ℕ)
    → IsString m format (spelled ps)
    → format + length (spelled ps) < low
    → low ≤ str
    → AllGood m low ps
    → Fits fuel ps
    → Returns (format_loop fuel str format (arguments ps) m) (Rendered m str ps)
format_loop-Rendered fuel str format low ps m text under le good fits =
    format_loop-Ready fuel str format low ps m (text, under, le, good, fits)
