-- ===== src/Tests/Polls.antt =====
-- Events with the numbers of Linux and macOS.
use redi_go.Prelude.{[], ◌∷◌, List, ◌≡◌, arith, length}
use redi_go.Go.Result.{ok}
use redi_go.Core.Iomux.{Event, converted}
use redi_go.Core.Iomux.Epoll
use redi_go.Core.Iomux.Epoll.{EpollEvent}
use redi_go.Core.Iomux.Waiting.{converted-map}

abbrev natives : List EpollEvent
natives =
    record { fd = 7; events = 1 }
    ∷ record { fd = 8; events = 4 }
    ∷ record { fd = 0; events = 0 }
    ∷ []

abbrev buffer : List Event
buffer = record { fd = 0; op = 0 } ∷ record { fd = 0; op = 0 } ∷ []

two_events :
    (events : List Event) × (converted (Epoll.create_event 1 4) natives buffer 2
      ≡ ok (events, record { fd = 7; op = 0 } ∷ record { fd = 8; op = 1 } ∷ []))
    × (length events ≡ 2)
unfolding Epoll.create_event
two_events = converted-map (Epoll.create_event 1 4) natives buffer 2 (omega arith) (omega arith)
