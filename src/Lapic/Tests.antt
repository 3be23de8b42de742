-- ===== src/Lapic/Tests.antt =====
-- Runs of kernel/lapic.c on small controllers.
use rt.Prelude.{ℕ, refl, List, [], ◌∷◌, ◌==◌, if◌then◌else◌, arith}
use rt.Prelude.Run.{Returns}
use rt.Lapic.{Event, Local, Device, lapicinit, lapicstartap, ver}
use rt.Lapic.Init.{IsReady, IsDelivered, lapicinit-IsReady}
use rt.Lapic.Start.{IsStarted, lapicstartap-IsStarted}

-- Busy after a write of the command word, until it has been read once.
abbrev pending : List Event → ℕ
pending (Event.get_reg i ∷ Event.get_reg j ∷ es) = 0x1000
pending es = 0

-- A controller of version 5 that delivers at once.
abbrev quick : Device
quick es r = if r == ver then 0x50014 else 0

quick-IsDelivered : IsDelivered quick 1
quick-IsDelivered es = (0, (omega arith, refl))

abbrev fresh : Local
fresh = record { mem = λ _. 7; trace = []; eflags = 2 }

lapicinit-IsReady_example : Returns (λ _ s'. IsReady quick fresh s') (lapicinit quick 1 fresh)
lapicinit-IsReady_example = lapicinit-IsReady quick 1 fresh quick-IsDelivered refl

lapicstartap-IsStarted_example :
    Returns (λ _ s'. IsStarted 2 0x7000 fresh s') (lapicstartap 2 0x7000 fresh)
lapicstartap-IsStarted_example =
    lapicstartap-IsStarted 2 0x7000 (omega arith) (omega arith) fresh refl
