-- ===== src/Udp/EmptyDatagram.antt =====
-- A datagram without bytes.
use mathlib.Core.List.{append-nil, append_assoc}
use lssvc.Connection.{wrote}
use lssvc.Udp.{Datagram, UdpSocket, asking, send_at_once, send_loop, send_one, took, udp_on_write}
use lssvc.Common.{List, [], false, refl, replicate, suc, sym, zero, ℕ, ◌++◌, ◌∙◌, ◌∷◌, ◌≡◌}

-- A datagram without bytes, taken so many times more.
unfoldable pub taken_again : ℕ → ℕ → UdpSocket → UdpSocket
taken_again zero peer u = u
taken_again (suc n) peer u = taken_again n peer (took u 0 (peer, []))

zeros-ask :
    (n peer : ℕ) (ds : List Datagram) (u : UdpSocket)
    → send_loop (replicate n (wrote 0)) ((peer, []) ∷ ds) u ≡ asking (taken_again n peer u)
unfolding send_loop taken_again
zeros-ask zero peer ds u = refl
zeros-ask (suc n) peer ds u = zeros-ask n peer ds (took u 0 (peer, []))

sent_again :
    (n peer : ℕ) (u : UdpSocket)
    → ((taken_again n peer u).sent ≡ u.sent ++ replicate n (peer, []))
      × ((taken_again n peer u).buffers ≡ u.buffers)
unfolding taken_again took
sent_again zero peer u = (sym (append-nil u.sent), refl)
sent_again (suc n) peer u =
    let (sent, same) = sent_again n peer (took u 0 (peer, [])) in
    (sent ∙ append_assoc u.sent ((peer, []) ∷ []) (replicate n (peer, [])), same)

queued :
    (u : UdpSocket) (peer : ℕ)
    → u.closed ≡ false
    → u.buffers ≡ []
    → (let u' = send_one (wrote 0) u (peer, []) in
        (u'.buffers ≡ (peer, []) ∷ [])
        × (u'.sent ≡ u.sent ++ ((peer, []) ∷ []))
        × (u'.closed ≡ false))
unfolding send_one send_at_once took
queued u peer alive empty = (rw empty refl, rw empty refl, rw empty alive)

-- An empty datagram is handed to an open socket with nothing that waits. sendto returns 0 for it: it
-- is queued although the kernel took it, and when the socket can be written, onWrite asks the kernel
-- again after any number of such answers, with the datagram still in the list: it never comes back,
-- and the kernel takes the datagram once more with every answer.
pub empty_datagram-hangs :
    (u : UdpSocket) (peer n : ℕ)
    → u.closed ≡ false
    → u.buffers ≡ []
    → (let u' = send_one (wrote 0) u (peer, []) in
        (u'.buffers ≡ (peer, []) ∷ [])
        × (u'.sent ≡ u.sent ++ ((peer, []) ∷ []))
        × ((u'' : UdpSocket) × (udp_on_write (replicate n (wrote 0)) u' ≡ asking u'')
            × (u''.buffers ≡ (peer, []) ∷ [])
            × (u''.sent ≡ u'.sent ++ replicate n (peer, []))))
unfolding udp_on_write send_one
empty_datagram-hangs u peer n alive empty =
    let u' : UdpSocket = send_one (wrote 0) u (peer, []) in
    let (waits, took_it, open_still) = queued u peer alive empty in
    let (sent, same) = sent_again n peer u' in
    (
      waits,
      took_it,
      (taken_again n peer u', rw (open_still, waits) (zeros-ask n peer [] u'), same ∙ waits, sent),
    )
