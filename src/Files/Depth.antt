-- ===== src/Files/Depth.antt =====
-- The number of parts of a path: path_deepth_cnt of fs/fs.c.
use mathlib.Core.Path.{subst}
use leeos.Base.{
  ℕ, zero, suc, ◌+◌, ◌^◌, ◌≤◌, ◌<◌, ◌≡◌, ◌≢◌, ◌⊎◌, inr, refl, sym, ap, ◌∙◌, ◌==◌, ==_of_ne,
  if◌then◌else◌, List, [], ◌∷◌, length, u32, arith, Returns, Returns-bind, Returns-mono, ok,
}
use leeos.Strings.{memset}
use leeos.Strings.Copies.{memset_fills}
use leeos.Files.{path_parse, parse_name, depth_loop, path_deepth_cnt, max_file_name_len}
use leeos.Files.Path.{NameAt, SlashesAt, BytesAt, NameAt-frame, path_parse-Parsed, parse_name_lem}

-- A part of a path: the slashes in front of it, and its name.
abbrev pub Part : Type 0
Part = ℕ × List ℕ

-- The array that a part is copied to has room for it.
abbrev pub NamesFit : List Part → Type 0
NamesFit [] = Unit
NamesFit (q ∷ parts) = (length q.1 ≤ max_file_name_len) × NamesFit parts

-- The bytes of a path with `t` slashes behind its last part.
abbrev pub path_length : List Part → ℕ → ℕ
path_length [] t = t
path_length (q ∷ parts) t = q.0 + length q.1 + path_length parts t

-- At `p` stand the parts, none of them empty, then `t` slashes and the end.
abbrev pub PathAt : (ℕ → ℕ) → ℕ → List Part → ℕ → Type 0
PathAt m p [] t = SlashesAt m p t × (m (p + t) ≡ 0)
PathAt m p (q ∷ parts) t =
    SlashesAt m p q.0
    × NameAt m (p + q.0) q.1
    × (0 < length q.1)
    × PathAt m (p + q.0 + length q.1) parts t

-- Where the name is copied to and cleared is apart from the path.
abbrev pub Apart : (name p total : ℕ) → Type 0
Apart name p total = ((name + total ≤ p) × (name + 16 ≤ p)) ⊎ (p + total < name)

-- A byte that is not zero ends the first round.
SlashesAt-frame :
    (m m' : ℕ → ℕ) (p n : ℕ)
    → ((a : ℕ) → p ≤ a → a ≤ p + n → m' a ≡ m a)
    → SlashesAt m p n
    → SlashesAt m' p n
SlashesAt-frame m m' p zero same s = λ e. s (sym (same p (omega arith) (omega arith)) ∙ e)
SlashesAt-frame m m' p (suc n) same s = (
  same p (omega arith) (omega arith) ∙ s.0,
  SlashesAt-frame m m' (suc p) n (λ a lo hi. same a (omega arith) (omega arith)) s.1,
)

PathAt-frame :
    (m m' : ℕ → ℕ) (p : ℕ) (parts : List Part) (t : ℕ)
    → ((a : ℕ) → p ≤ a → a ≤ p + path_length parts t → m' a ≡ m a)
    → PathAt m p parts t
    → PathAt m' p parts t
PathAt-frame m m' p [] t same s =
    (SlashesAt-frame m m' p t same s.0, same (p + t) (omega arith) (omega arith) ∙ s.1)
PathAt-frame m m' p (q ∷ parts) t same s = (
  SlashesAt-frame m m' p q.0 (λ a lo hi. same a (omega arith) (omega arith)) s.0,
  NameAt-frame m m' (p + q.0) q.1 (λ a lo hi. same a (omega arith) (omega arith)) s.1,
  s.2,
  PathAt-frame m m' (p + q.0 + length q.1) parts t (λ a lo hi. same a (omega arith) (omega arith))
      s.3,
)

NameAt-first : (m : ℕ → ℕ) (p : ℕ) (xs : List ℕ) → NameAt m p xs → 0 < length xs → m p ≢ 0
NameAt-first m p [] s h = absurd (omega arith)
NameAt-first m p (x ∷ xs) s h = λ e. s.2 (sym s.0 ∙ e)

BytesAt-first :
    (m m' : ℕ → ℕ) (p store : ℕ) (xs : List ℕ)
    → NameAt m p xs
    → BytesAt m' store xs
    → 0 < length xs
    → m' store ≢ 0
BytesAt-first m m' p store [] s b h = absurd (omega arith)
BytesAt-first m m' p store (x ∷ xs) s b h = λ e. s.2 (sym b.0 ∙ e)

-- There is no part at the end of a path.
PathAt-begins :
    (m : ℕ → ℕ) (p : ℕ) (q : Part) (parts : List Part) (t : ℕ) → PathAt m p (q ∷ parts) t → m p ≢ 0
PathAt-begins m p (zero, xs) parts t s =
    subst (λ a. m a ≢ 0) (omega arith) (NameAt-first m (p + 0) xs s.1 s.2)
PathAt-begins m p (suc n, xs) parts t s = λ e. absurd (omega (arith, s.0.0, e))

-- After the first part: where the rest begins, and the name in its place.
record Stepped (end name : ℕ) (parts : List Part) (t : ℕ) (r : ℕ × (ℕ → ℕ)) : Type 0 where
  place : r.0 ≡ (if r.1 end == 0 then 0 else end)
  path : PathAt r.1 end parts t
  named : r.1 name ≢ 0

parse_name-Stepped :
    (fuel p name : ℕ) (m : ℕ → ℕ) (q : Part) (parts : List Part) (t : ℕ)
    → PathAt m p (q ∷ parts) t
    → Apart name p (path_length (q ∷ parts) t)
    → path_length (q ∷ parts) t < fuel
    → length q.1 ≤ max_file_name_len
    → Returns (parse_name fuel p name m) (Stepped (p + q.0 + length q.1) name parts t)
parse_name-Stepped fuel p name m q parts t s o f fit =
    let end = p + q.0 + length q.1 in
    rw (parse_name_lem fuel p q.0 name m q.1 s.0 s.1 (omega arith) fit) (
      Returns-mono (path_parse fuel p name m) _ _
        (path_parse-Parsed fuel p q.0 name m q.1 s.0 s.1 (omega arith) (omega (arith, o)))
        (λ r c.
          let kept : (a : ℕ) → end ≤ a → a ≤ end + path_length parts t → r.1 a ≡ m a =
            λ a lo hi. c.frame a (omega (arith, o)) in
          record {
            place =
                c.place
                ∙ ap (λ b. if b == 0 then 0 else end) (sym (kept end (omega arith) (omega arith)));
            path = PathAt-frame m r.1 end parts t kept s.3;
            named = BytesAt-first m r.1 (p + q.0) name q.1 s.1 c.name s.2;
          }))

depth_loop_stops :
    (rounds fuel name p depth : ℕ) (m : ℕ → ℕ)
    → m name ≡ 0
    → depth_loop (suc rounds) fuel name p depth m ≡ ok depth
unfolding depth_loop
depth_loop_stops rounds fuel name p depth m e = rw (depth_loop, e) refl

-- Behind the last part, nothing is copied.
parse_nothing :
    (fuel p name : ℕ) (m m1 : ℕ → ℕ) (t : ℕ)
    → m1 name ≡ 0
    → m1 p ≡ m p
    → 0 < p
    → PathAt m1 p [] t
    → Apart name p t
    → t < fuel
    → Returns
        (if (if m p == 0 then 0 else p) == 0
          then ok (0, m1)
          else parse_name fuel (if m p == 0 then 0 else p) name m1)
        (λ r. r.1 name ≡ 0)
parse_nothing fuel p name m m1 zero e same pos s o f =
    let at_end : m p ≡ 0 = sym same ∙ ap m1 (omega arith) ∙ s.1 in rw at_end e
parse_nothing fuel p name m m1 (suc n) e same pos s o f =
    let slash : m p ≡ b'/' = sym same ∙ s.0.0 in
    rw
      (
        slash,
        ==_of_ne p 0 (omega arith),
        parse_name_lem fuel p (suc n) name m1 [] s.0 (inr s.1) (omega arith) (omega arith),
      )
      (Returns-mono (path_parse fuel p name m1) _ _
        (path_parse-Parsed fuel p (suc n) name m1 [] s.0 (inr s.1) (omega arith) (omega (arith, o)))
        (λ r c. c.frame name (inr (omega arith)) ∙ e))

depth_loop_counts :
    (parts : List Part) (rounds fuel name p depth : ℕ) (m : ℕ → ℕ) (t : ℕ)
    → name ≢ 0
    → m name ≢ 0
    → 0 < p
    → PathAt m p parts t
    → Apart name p (path_length parts t)
    → path_length parts t < fuel
    → suc (length parts) < rounds
    → suc depth + length parts < 2 ^ 32
    → NamesFit parts
    → Returns
        (depth_loop rounds fuel name (if m p == 0 then 0 else p) depth m)
        (λ d. d ≡ suc depth + length parts)
unfolding depth_loop
depth_loop_counts parts zero fuel name p depth m t nn nz pos s o f r small fit =
    absurd (omega arith)
depth_loop_counts [] (suc zero) fuel name p depth m t nn nz pos s o f r small fit =
    absurd (omega arith)
depth_loop_counts [] (suc (suc rounds)) fuel name p depth m t nn nz pos s o f r small fit =
    rw (depth_loop, ==_of_ne (m name) 0 nz)
      (Returns-bind (memset name 0 max_file_name_len m) _ _ _ (memset_fills name 0 16 m nn) (λ m1 c.
        let kept : (a : ℕ) → p ≤ a → a ≤ p + t → m1 a ≡ m a =
          λ a lo hi. c.outside a (omega (arith, o)) in
        let clear : m1 name ≡ 0 = ap m1 (omega arith) ∙ c.inside 0 (omega arith) in
        Returns-bind _ _ (λ r1. r1.1 name ≡ 0) _
          (parse_nothing fuel p name m m1 t clear (kept p (omega arith) (omega arith)) pos
            (PathAt-frame m m1 p [] t kept s) o f)
          (λ r1 e.
            rw (depth_loop_stops rounds fuel name r1.0 (u32 (suc depth)) r1.1 e) (omega arith))))
depth_loop_counts (q ∷ parts) (suc rounds) fuel name p depth m t nn nz pos s o f r small fit =
    rw
      (
        depth_loop,
        ==_of_ne (m name) 0 nz,
        ==_of_ne (m p) 0 (PathAt-begins m p q parts t s),
        ==_of_ne p 0 (omega arith),
      )
      (Returns-bind (memset name 0 max_file_name_len m) _ _ _ (memset_fills name 0 16 m nn) (λ m1 c.
        let total = path_length (q ∷ parts) t in
        let kept : (a : ℕ) → p ≤ a → a ≤ p + total → m1 a ≡ m a =
          λ a lo hi. c.outside a (omega (arith, o)) in
        let next : u32 (suc depth) ≡ suc depth = omega arith in
        let end = p + q.0 + length q.1 in
        Returns-bind _ _ (Stepped end name parts t) _
          (parse_name-Stepped fuel p name m1 q parts t (PathAt-frame m m1 p (q ∷ parts) t kept s) o
            f fit.0)
          (λ r1 c1.
            rw (c1.place, next)
              (Returns-mono _ (λ d. d ≡ suc (suc depth) + length parts) _
                (depth_loop_counts parts rounds fuel name end (suc depth) r1.1 t nn c1.named
                  (omega arith) c1.path (omega (arith, o)) (omega arith) (omega arith) (omega arith)
                  fit.1)
                (λ d e. omega (arith, e))))))

-- What path_deepth_cnt says of a path without a part: it tests a byte that nothing wrote.
abbrev pub counted : (garbage : ℕ) → List Part → ℕ
counted garbage [] = if garbage == 0 then 0 else 1
counted garbage (q ∷ parts) = suc (length parts)

parts_fit :
    (m : ℕ → ℕ) (p : ℕ) (parts : List Part) (t : ℕ)
    → PathAt m p parts t
    → length parts ≤ path_length parts t
parts_fit m p [] t s = omega arith
parts_fit m p (q ∷ parts) t s = omega (arith, s.2, parts_fit m (p + q.0 + length q.1) parts t s.3)

-- One round, at the place 0.
depth_loop_once :
    (rounds fuel name : ℕ) (m : ℕ → ℕ)
    → name ≢ 0
    → m name ≢ 0
    → Returns (depth_loop (suc (suc rounds)) fuel name 0 0 m) (λ d. d ≡ 1)
unfolding depth_loop
depth_loop_once rounds fuel name m nn nz =
    rw (depth_loop, ==_of_ne (m name) 0 nz)
      (Returns-bind (memset name 0 max_file_name_len m) _ _ _ (memset_fills name 0 16 m nn) (λ m1 c.
        let clear : m1 name ≡ 0 = ap m1 (omega arith) ∙ c.inside 0 (omega arith) in
        rw (depth_loop_stops rounds fuel name 0 1 m1 clear) refl))

depth_loop_garbage :
    (rounds fuel name garbage : ℕ) (m : ℕ → ℕ)
    → name ≢ 0
    → m name ≡ garbage
    → Returns (depth_loop (suc (suc rounds)) fuel name 0 0 m) (λ d. d ≡ counted garbage [])
depth_loop_garbage rounds fuel name zero m nn e =
    rw (depth_loop_stops (suc rounds) fuel name 0 0 m e) refl
depth_loop_garbage rounds fuel name (suc g) m nn e =
    rw (==_of_ne (suc g) 0 (omega arith)) (depth_loop_once rounds fuel name m nn (omega (arith, e)))

parse_no_part :
    (fuel p name t : ℕ) (m : ℕ → ℕ)
    → PathAt m p [] t
    → Apart name p t
    → t < fuel
    → Returns (parse_name fuel p name m) (λ r. (r.0 ≡ 0) × (r.1 name ≡ m name))
parse_no_part fuel p name t m s o f =
    let at_end : m (p + t + 0) ≡ 0 = ap m (omega arith) ∙ s.1 in
    rw (parse_name_lem fuel p t name m [] s.0 (inr s.1) (omega arith) (omega arith)) (
      Returns-mono (path_parse fuel p name m) _ _
        (path_parse-Parsed fuel p t name m [] s.0 (inr s.1) (omega arith) (omega (arith, o)))
        (λ r c. (
          c.place ∙ ap (λ b. if b == 0 then 0 else p + t + 0) at_end,
          c.frame name (inr (omega arith)),
        )))

-- path_deepth_cnt, for a path whose parts have at most 16 bytes each, the size of the local
-- array `name`, and are fewer than 2^32, at an address that is not 0, apart from `name`, which
-- is not at 0 either, and with more fuel than the path has bytes, counting its end, returns the
-- number of the path's parts, whatever slashes stand between and behind them; for a path
-- without a part it returns 0 if the first byte of `name` was 0 before the call, and otherwise
-- 1.
pub path_deepth_cnt-counted :
    (fuel name pathname : ℕ) (m : ℕ → ℕ) (parts : List Part) (t : ℕ)
    → name ≢ 0
    → 0 < pathname
    → PathAt m pathname parts t
    → NamesFit parts
    → Apart name pathname (path_length parts t)
    → suc (path_length parts t) < fuel
    → length parts < 2 ^ 32
    → Returns (path_deepth_cnt fuel name pathname m) (λ depth. depth ≡ counted (m name) parts)
unfolding path_deepth_cnt
path_deepth_cnt-counted zero name pathname m parts t nn pos s fit o f small = absurd (omega arith)
path_deepth_cnt-counted (suc zero) name pathname m parts t nn pos s fit o f small =
    absurd (omega arith)
path_deepth_cnt-counted (suc (suc left)) name pathname m [] t nn pos s fit o f small =
    let fuel = suc (suc left) in
    rw (==_of_ne pathname 0 (omega arith)) (
      Returns-bind (parse_name fuel pathname name m) _ (λ r. (r.0 ≡ 0) × (r.1 name ≡ m name)) _
        (parse_no_part fuel pathname name t m s o (omega arith))
        (λ r c. rw (c.0) (depth_loop_garbage left fuel name (m name) r.1 nn c.1)))
path_deepth_cnt-counted fuel name pathname m (q ∷ parts) t nn pos s fit o f small =
    let end = pathname + q.0 + length q.1 in
    rw (==_of_ne pathname 0 (omega arith)) (
      Returns-bind (parse_name fuel pathname name m) _ (Stepped end name parts t) _
        (parse_name-Stepped fuel pathname name m q parts t s o (omega arith) fit.0)
        (λ r c. rw (c.place) (
          Returns-mono _ (λ d. d ≡ suc 0 + length parts) _
            (depth_loop_counts parts fuel fuel name end 0 r.1 t nn c.named (omega arith) c.path
              (omega (arith, o)) (omega arith)
              (omega (arith, s.2, parts_fit r.1 end parts t c.path)) (omega arith) fit.1)
            (λ d e. omega (arith, e)))))
