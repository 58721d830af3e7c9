-- ===== src/Tests/Serves.antt =====
-- The theorems on the service's loop at concrete inputs.
use spacetest.Base.{bit_or, refl, pos, [], ◌∷◌, ◌≡◌}
use spacetest.Base.Post.{Post}
use spacetest.Spaces.{clone_newnet, clone_newuts, clone_newuser}
use spacetest.Api.{rooms_request, subspace_request, unhandlebar_request}
use spacetest.Spacer.Gobmsg.{encode}
use spacetest.Base.{ok}
use spacetest.Base.Decimal.{codes}
use spacetest.Kernel.Laws.{without_fd}
use spacetest.Service.Command.{main, no_fields}
use spacetest.Service.Command.Serves.{Ended, Served, main-Ended}
use spacetest.Tests.Witnesses.{with_fd-without_fd}
use spacetest.Service.Serve.{serve, cancelled, deadline_exceeded, disconnected, got_request}
use spacetest.Service.Serve.Children.{Grown}
use spacetest.Service.Serve.Leaks.{serve-Grown}
use spacetest.Service.Serve.Stops.{serve-Stops}
use spacetest.Tests.Toy.{toy, toy-IsLinux}
use spacetest.Tests.ToyLink.{link}
use spacetest.Tests.Links.{same_gob}
use spacetest.Tests.Witnesses.{world, state}

serve-Grown_example :
    Post
      (λ _. Grown toy no_fields (toy.fds world))
      (Grown toy no_fields (toy.fds world))
      (serve toy
        (link [] [])
        same_gob
        no_fields
        (pos 3)
        (deadline_exceeded
          ∷ got_request (rooms_request (bit_or clone_newnet clone_newuts))
          ∷ got_request (subspace_request clone_newuser)
          ∷ disconnected
          ∷ [])
        state)
unfolding encode
serve-Grown_example =
    serve-Grown toy-IsLinux (link [] []) same_gob no_fields (pos 3) (λ resp enc. (_, _, refl))
      (λ b oob w. refl) (toy.fds world) refl
      (deadline_exceeded
        ∷ got_request (rooms_request (bit_or clone_newnet clone_newuts))
        ∷ got_request (subspace_request clone_newuser)
        ∷ disconnected
        ∷ [])
      state refl

serve-Stops_example :
    serve toy
      (link [] [])
      same_gob
      no_fields
      (pos 3)
      (deadline_exceeded
        ∷ got_request (rooms_request clone_newnet)
        ∷ got_request unhandlebar_request
        ∷ cancelled
        ∷ [])
      state
    ≡ serve toy
        (link [] [])
        same_gob
        no_fields
        (pos 3)
        (deadline_exceeded
          ∷ got_request (rooms_request clone_newnet)
          ∷ got_request unhandlebar_request
          ∷ [])
        state
serve-Stops_example =
    serve-Stops toy (link [] []) same_gob no_fields (pos 3)
      (deadline_exceeded ∷ got_request (rooms_request clone_newnet) ∷ [])
      (got_request unhandlebar_request) (cancelled ∷ []) state tt

main-Ended_example :
    Post
      (Ended toy
        (link [] [])
        same_gob
        (got_request (rooms_request clone_newnet) ∷ disconnected ∷ [])
        (without_fd (pos 3) (toy.fds world)))
      (Served toy
        (link [] [])
        same_gob
        (got_request (rooms_request clone_newnet) ∷ disconnected ∷ [])
        (without_fd (pos 3) (toy.fds world)))
      (main toy 1
        (codes "spacer-service")
        (λ w path. ok (codes "init"))
        (link [] [])
        same_gob
        (got_request (rooms_request clone_newnet) ∷ disconnected ∷ [])
        state)
unfolding encode
main-Ended_example =
    main-Ended toy-IsLinux 1 (codes "spacer-service") (λ w path. ok (codes "init")) (link [] [])
      same_gob (got_request (rooms_request clone_newnet) ∷ disconnected ∷ [])
      (without_fd (pos 3) (toy.fds world)) state refl refl
      (with_fd-without_fd (pos 3) (toy.fds world) refl) (λ resp enc. (_, _, refl))
      (λ conn b oob w. refl)
