-- ===== src/Interrupt.antt =====
-- kernel/interrupt.c: the interrupt flag as a value. EFLAGS.IF is the state; `sti` sets it and
-- `cli` clears it.
use mathlib.Core.Path.{◌≡◌, refl}

-- `enum intr_status`
pub data IntrStatus : Type 0 where
  intr_off intr_on : IntrStatus

-- Each function takes the flag and returns the new flag beside its result, the status before.
unfoldable pub intr_enable : IntrStatus → IntrStatus × IntrStatus
intr_enable intr_on = (intr_on, intr_on)
intr_enable intr_off = (intr_on, intr_off)

unfoldable pub intr_disable : IntrStatus → IntrStatus × IntrStatus
intr_disable intr_on = (intr_off, intr_on)
intr_disable intr_off = (intr_off, intr_off)

unfoldable pub intr_set_status : IntrStatus → IntrStatus → IntrStatus × IntrStatus
unfolding intr_enable intr_disable
intr_set_status intr_on flag = intr_enable flag
intr_set_status intr_off flag = intr_disable flag

-- The first set of functions of the file, which return no status.
unfoldable pub intr_open : IntrStatus → IntrStatus
intr_open intr_on = intr_on
intr_open intr_off = intr_on

unfoldable pub intr_close : IntrStatus → IntrStatus
intr_close intr_on = intr_off
intr_close intr_off = intr_off

unfoldable pub set_intr_status : IntrStatus → IntrStatus → IntrStatus
unfolding intr_open intr_close
set_intr_status intr_on flag = intr_open flag
set_intr_status intr_off flag = intr_close flag

-- The two sets of functions agree on the flag.
pub set_intr_status-intr_set_status :
    (status flag : IntrStatus) → set_intr_status status flag ≡ (intr_set_status status flag).0
unfolding set_intr_status intr_set_status
set_intr_status-intr_set_status intr_on intr_on = refl
set_intr_status-intr_set_status intr_on intr_off = refl
set_intr_status-intr_set_status intr_off intr_on = refl
set_intr_status-intr_set_status intr_off intr_off = refl

-- Turning interrupts off and then restoring the status leaves the flag as it was, and it is off in
-- between.
pub intr_restored :
    (flag : IntrStatus)
    → ((intr_set_status (intr_disable flag).1 (intr_disable flag).0).0 ≡ flag)
      × ((intr_disable flag).0 ≡ intr_off)
unfolding intr_disable intr_set_status
intr_restored intr_on = (refl, refl)
intr_restored intr_off = (refl, refl)
