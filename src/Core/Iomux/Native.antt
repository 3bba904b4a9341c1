-- ===== src/Core/Iomux/Native.antt =====
-- Events as the systems of internal/core/iomux/type_linux.go and internal/core/iomux/type_macos.go see them.
use redi_go.Prelude.{ℕ, ◌^◌, ◌<◌, ◌≤◌, ◌≡◌, arith}
use redi_go.Core.Iomux.{Event}
use redi_go.Core.Iomux.Epoll
use redi_go.Core.Iomux.Kqueue

-- An event to read or to write comes back as it was from epoll and from kqueue, whatever the flags are; its descriptor is
-- below 2 ^ 31, and the numbers of the two operations differ in each system.
pub create_event-to_native :
    (epollin epollout evfilt_read evfilt_write ev_add ev_delete flags : ℕ) (e : Event)
    → ¬ (epollin ≡ epollout)
    → ¬ (evfilt_write ≡ evfilt_read)
    → e.fd < 2 ^ 31
    → e.op ≤ 1
    → (Epoll.create_event epollin epollout (Epoll.to_native epollin epollout e) ≡ e)
      × (Kqueue.create_event evfilt_read evfilt_write ev_add ev_delete
            (Kqueue.to_native evfilt_read evfilt_write ev_add ev_delete e flags)
          ≡ e)
unfolding Epoll.create_event Epoll.to_native Kqueue.create_event Kqueue.to_native
create_event-to_native epollin epollout evfilt_read evfilt_write ev_add ev_delete flags e apart
      apart' small op =
    (grind (arith), grind (arith))
