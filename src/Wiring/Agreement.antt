-- ===== src/Wiring/Agreement.antt =====
-- rc/control/bookkeeping.py: the sources and the destinations tables name the same connections.
use artdaq_daqinterface.Prelude.{◌⊎◌, ◌↔◌, true, false, Memᴰ}
use artdaq_daqinterface.Procinfo.{Procinfo}
use artdaq_daqinterface.Wiring.{Wiring}
use artdaq_daqinterface.Wiring.Receivers.{IsNamed, receivers, senders, receivers-Connected}
use artdaq_daqinterface.Wiring.Senders.{senders-Connected}

-- Where every process is in a subsystem with a name of its own, a process stands in a destinations
-- table of another, be it for its own subsystem or for the next, exactly where the other one stands
-- in its sources table.
pub receivers_mirror_senders :
    (w : Wiring) (p q : Procinfo)
    → IsNamed w
    → Memᴰ p w.procinfos
    → Memᴰ q w.procinfos
    → (Memᴰ q (receivers w false p) ⊎ Memᴰ q (receivers w true p)) ↔ Memᴰ p (senders w q)
receivers_mirror_senders w p q named sender receiver =
    let to = receivers-Connected {q = q} w p named in
    let from = senders-Connected {p = p} w q named receiver in
    (λ o. from.1 (sender, (to.0 o).1), λ m. to.1 (receiver, (from.0 m).1))
