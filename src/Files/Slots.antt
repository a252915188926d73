-- ===== src/Files/Slots.antt =====
-- The tables of open files in fs/file.c.
use mathlib.Core.Path.{subst}
use leeos.Base.{
  ℕ, zero, suc, ◌+◌, ◌≤◌, ◌<◌, ◌≡◌, ◌≢◌, refl, Bool, true, false, ◌==◌, ==_iff, Option, none, some,
  Option-cases, Bool-cases, inl, inr, arith, ap, ◌∙◌,
}
use leeos.Base.Memory.{update_self, update_ne}
use leeos.Files.{find_slot, pcb_fd_install, no_file}

-- The first accepted index of a range, or none if there is none.
abbrev pub FirstSlot : (ℕ → Bool) → ℕ → ℕ → Option ℕ → Type 0
FirstSlot is_free lo hi none = (j : ℕ) → lo ≤ j → j < hi → is_free j ≡ false
FirstSlot is_free lo hi (some i) =
    (lo ≤ i) × (i < hi) × (is_free i ≡ true) × ((j : ℕ) → lo ≤ j → j < i → is_free j ≡ false)

FirstSlot-step :
    (is_free : ℕ → Bool) (lo hi : ℕ) (o : Option ℕ)
    → is_free lo ≡ false
    → FirstSlot is_free (suc lo) hi o
    → FirstSlot is_free lo hi o
FirstSlot-step is_free lo hi none e f = λ j a b. elim (Bool-cases (lo == j)) [
  | inl same ↦ ap is_free (omega (arith, (==_iff lo j).0 same)) ∙ e
  | inr other ↦ f j (ground arith) b
]
FirstSlot-step is_free lo hi (some i) e f = (
  omega (arith, f.0),
  f.1,
  f.2,
  λ j a b. elim (Bool-cases (lo == j)) [
    | inl same ↦ ap is_free (omega (arith, (==_iff lo j).0 same)) ∙ e
    | inr other ↦ f.3 j (ground arith) b
  ],
)

pub find_slot-FirstSlot :
    (is_free : ℕ → Bool) (left idx : ℕ)
    → FirstSlot is_free idx (idx + left) (find_slot is_free left idx)
unfolding find_slot
find_slot-FirstSlot is_free zero idx = λ j a b. absurd (omega arith)
find_slot-FirstSlot is_free (suc left) idx = elim (Bool-cases (is_free idx)) [
  | inl e ↦ rw e (omega arith, omega arith, e, λ j a b. absurd (omega arith))
  | inr e ↦ rw e (
      FirstSlot-step is_free idx (idx + suc left) (find_slot is_free left (suc idx)) e (
        subst (λ h. FirstSlot is_free (suc idx) h (find_slot is_free left (suc idx))) (omega arith)
          (find_slot-FirstSlot is_free left (suc idx))))
]

-- What pcb_fd_install leaves.
abbrev pub Installed : (ℕ → ℕ) → ℕ → Option ℕ × (ℕ → ℕ) → Type 0
Installed fd_table g (none, t) = ((j : ℕ) → 3 ≤ j → j < 8 → fd_table j ≢ no_file) × (t ≡ fd_table)
Installed fd_table g (some i, t) =
    (3 ≤ i)
    × (i < 8)
    × (fd_table i ≡ no_file)
    × ((j : ℕ) → 3 ≤ j → j < i → fd_table j ≢ no_file)
    × (t i ≡ g)
    × ((j : ℕ) → i ≢ j → t j ≡ fd_table j)

in_use : (fd : ℕ) → (fd == no_file) ≡ false → fd ≢ no_file
in_use fd h e = ground arith

-- pcb_fd_install puts the index of the open file in the lowest slot, from 3 to 7, that has
-- none, changes no other slot, and returns the slot; if there is no such slot, it fails and
-- changes nothing.
pub pcb_fd_install-Installed :
    (fd_table : ℕ → ℕ) (global_fd_idx : ℕ)
    → Installed fd_table global_fd_idx (pcb_fd_install fd_table global_fd_idx)
unfolding pcb_fd_install
pcb_fd_install-Installed fd_table g =
    let is_free : ℕ → Bool = λ idx. fd_table idx == no_file in
    let f = find_slot-FirstSlot is_free 5 3 in
    elim (Option-cases (find_slot is_free 5 3)) [
      | inl e ↦
          let f' : FirstSlot is_free 3 8 none = rw e at f in
          rw (e, pcb_fd_install) (λ j a b. in_use (fd_table j) (f' j a b), refl)
      | inr (i, e) ↦
          let f' : FirstSlot is_free 3 8 (some i) = rw e at f in
          rw (e, pcb_fd_install)
            (
              f'.0,
              f'.1,
              (==_iff (fd_table i) no_file).0 f'.2,
              λ j a b. in_use (fd_table j) (f'.3 j a b),
              update_self fd_table i g,
              λ j ne. update_ne fd_table i j g ne,
            )
    ]
