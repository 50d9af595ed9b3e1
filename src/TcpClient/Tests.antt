-- ===== src/TcpClient/Tests.antt =====
-- The client at concrete inputs.
use lssvc.TcpClient.{
  Event, base_on_close, base_on_read, base_send, begin_connect, by_status, client_on_close,
  client_on_read, client_on_write, client_send, closes, connect_in_loop, connected, connects,
  deregister, happens, in_progress, init_client, readable, run, send_connected, sends, shut_socket,
  update_connection_status, writable,
}
use lssvc.TcpClient.Reconnect.{IsDeaf, reconnect-IsDeaf, success, when_writable}
use lssvc.Common.{List, [], false, refl, some, true, ◌+◌, ◌∷◌, ◌≡◌}

-- A client that connects, sends a buffer, and reads twice.
abbrev busy : List Event
busy =
    connects (in_progress 7)
    ∷ writable false
    ∷ sends (5 ∷ [])
    ∷ readable false
    ∷ readable false
    ∷ []

-- The first time it is heard; what it sends before it is connected is dropped.
first_time :
    ((run init_client busy).reads ≡ 2)
    × ((run init_client busy).sent ≡ (5 ∷ []) ∷ [])
    × ((run init_client (sends (4 ∷ []) ∷ busy)).sent ≡ (5 ∷ []) ∷ [])
unfolding run happens connect_in_loop client_on_read client_on_write client_send send_connected
    by_status base_on_read base_send update_connection_status begin_connect
first_time = (refl, refl, refl)

-- An error while it connects closes it, and the callback is called once.
refused_once :
    let c = run init_client (connects (in_progress 7) ∷ readable true ∷ closes ∷ []) in
    (c.closings ≡ 1) × (c.announced ≡ 0) × (c.registered ≡ false) × (c.shut ≡ 7 ∷ [])
unfolding run happens connect_in_loop client_on_read by_status client_on_close deregister
    base_on_close shut_socket begin_connect
refused_once = (refl, refl, refl, refl)

reconnect-IsDeaf_example :
    (let c' = run (client_on_close (run init_client busy)) (success 8 when_writable) in
      (c'.status ≡ connected)
      × (c'.fd ≡ some 8)
      × (c'.announced ≡ (client_on_close (run init_client busy)).announced + 1)
      × IsDeaf c' (run c' (sends (6 ∷ []) ∷ readable false ∷ closes ∷ [])))
reconnect-IsDeaf_example =
    reconnect-IsDeaf (run init_client busy) 8 when_writable
      (sends (6 ∷ []) ∷ readable false ∷ closes ∷ [])
