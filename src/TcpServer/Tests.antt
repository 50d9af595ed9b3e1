-- ===== src/TcpServer/Tests.antt =====
-- The server at concrete inputs.
use lssvc.Common.{[], inl, inr, none, refl, some, true, ◌∷◌, ◌≡◌}
use lssvc.EventLoop.{
  add_event, add_found, close, del_event, del_found, enable, enable_found, enable_writing, init,
  init_pipe, new_event, pipe_found,
}
use lssvc.EventLoop.Tests.{Watched, kernel, kernel-laws}
use lssvc.TcpServer.{
  Server, close_connection, erase, init_server, on_accept, on_connection_close, open_acceptor,
  open_pipe,
}
use lssvc.TcpServer.Serves.{Becomes-Serves, Serves}
use lssvc.TcpServer.Serving.{
  Becomes, accepts, changed, closes_one, listens, pipes, unchanged, writes_one,
}

abbrev fresh : Server Watched
fresh = init_server (init (λ fd. none))

-- A server with an acceptor and the pipe of its loop.
abbrev listening : Server Watched
listening = open_pipe kernel (open_acceptor kernel fresh 5) 6

-- Two connections; the first waits to write and is closed, twice, and its descriptor used again.
abbrev two : Server Watched
two = on_accept kernel (on_accept kernel listening 7) 8

abbrev waiting : Server Watched
waiting = record two { loop = (enable_writing kernel two.loop 2 true).0 }

abbrev reused : Server Watched
reused = on_accept kernel (close_connection kernel (close_connection kernel waiting 2) 2) 7

reused_state :
    (reused.connections ≡ 4 ∷ 3 ∷ [])
    × (reused.others ≡ 1 ∷ 0 ∷ [])
    × (reused.destroyed ≡ 2 ∷ [])
    × (reused.loop.events 7 ≡ some 4)
unfolding close_connection on_connection_close on_accept erase close del_event del_found add_event
    add_found new_event init open_acceptor open_pipe init_pipe pipe_found enable_writing enable
    enable_found
reused_state = (refl, refl, refl, refl)

waiting-Becomes : Becomes kernel fresh waiting
unfolding open_acceptor open_pipe init_pipe pipe_found on_accept add_event add_found new_event init
waiting-Becomes =
    changed
      (changed
        (changed
          (changed (changed unchanged (listens _ 5 refl refl))
            (pipes _ 6 (λ dry. refl) (λ dry. refl)))
          (accepts _ 7 refl refl))
        (accepts _ 8 refl refl))
      (writes_one _ 2 true (inl (inr (inl refl))))

reused-Becomes : Becomes kernel fresh reused
unfolding close_connection on_connection_close on_accept erase close del_event del_found add_event
    add_found new_event init open_acceptor open_pipe init_pipe pipe_found enable_writing enable
    enable_found
reused-Becomes =
    changed
      (changed (changed waiting-Becomes (closes_one _ 2 (inl (inr (inl refl)))))
        (closes_one _ 2 (inr refl)))
      (accepts _ 7 refl refl)

Becomes-Serves_example : Serves kernel reused
Becomes-Serves_example =
    Becomes-Serves kernel (λ fd. none) reused kernel-laws (λ fd. refl) reused-Becomes
