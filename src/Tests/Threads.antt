-- ===== src/Tests/Threads.antt =====
-- Creating, scheduling and waking threads from one concrete state.
use leeos.Base.{◌≡◌, refl, [], ◌∷◌, arith, Returns}
use leeos.Thread.{schedule}
use leeos.Thread.Schedule.{Switched, schedule-Switched}
use leeos.Thread.Sound.{IsSound, schedule-IsSound}
use leeos.Thread.Turn.{IsSettled, schedule_times, schedule_times-turn}
use leeos.Sync.{sem_up}
use leeos.Sync.Wakeup.{Upped, sem_up-Upped}
use leeos.Tests.State.{globals, kernel, pcbs, is_pcb, ready-IsList, kernel-IsQueued}

schedule-IsSound_example :
    Returns
      (schedule 5 globals kernel)
      (λ k'. IsSound 5 globals k' (16384 ∷ 8192 ∷ []) × (k'.current ≡ 12288))
schedule-IsSound_example =
    schedule-IsSound 5 globals kernel pcbs kernel-IsQueued 12288 (16384 ∷ 8192 ∷ []) refl refl

schedule-Switched_example :
    Returns (schedule 5 globals kernel) (Switched 5 globals kernel 12288 (16384 ∷ 8192 ∷ []))
schedule-Switched_example =
    schedule-Switched 5 globals kernel pcbs 12288 (16384 ∷ 8192 ∷ []) kernel-IsQueued refl refl

sem_up-Upped_example : Returns (sem_up 5 globals 2000 kernel) (Upped globals kernel 2000 20480 pcbs)
sem_up-Upped_example =
    sem_up-Upped 5 globals kernel 2000 20480 [] pcbs refl
      (record { chain = ground arith; distinct = ground arith }) ready-IsList (ground arith)
      (omega arith) (is_pcb 20480 (omega arith) (omega arith)) (omega arith, (omega arith, tt)) refl

schedule_times-turn_example :
    Returns
      (schedule_times 5 globals 2 kernel)
      (λ k'. IsSettled 5 globals k' (8192 ∷ 12288 ∷ []) × (k'.current ≡ 16384))
schedule_times-turn_example =
    schedule_times-turn 5 globals kernel (12288 ∷ []) 16384 []
      (record { sound = record { queued = kernel-IsQueued; running = refl }; off = refl })
