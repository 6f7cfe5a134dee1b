-- ===== src/ClientProxy/Quiet.antt =====
-- The handler of the client proxy, as the UDP server sees it.
use tcp_udp.Base.{ℕ, ◌≡◌, refl, inl, inr, Option, none}
use tcp_udp.Common.Endpoint.{any}
use tcp_udp.Sys.Exec.{ok, continue, Result-cases}
use tcp_udp.Sys.World.{Os}
use tcp_udp.Udp.Lifetime.{IsQuiet, release}
use tcp_udp.ClientProxy.SessionHandler.{read_udp_message}
use tcp_udp.ClientProxy.Handler.{ClientProxy, handle_client, session_handler}
use tcp_udp.ClientProxy.Input.{handle_client_delivers, handle_client_throws}
use tcp_udp.ClientProxy.Silence.{IsDeaf, handle_client-observe}
use tcp_udp.ClientProxy.Assembly.{client_handler}

release-IsDeaf : IsDeaf release
release-IsDeaf = record {
  connects = λ a b r. refl;
  lingers = λ s r. refl;
  registers = λ s r. refl;
  receives = λ s n d r. refl;
  writes = λ s bytes n d r. refl;
}

module _ (os : Os) where
  -- No path of the handler throws.
  pub handle_client-returns :
      (socket : Option ℕ) (p : ClientProxy) → (handle_client os socket p).0 ≡ ok tt
  handle_client-returns socket p =
      elim (Result-cases (read_udp_message os socket any (session_handler p)).0) [
        | inl ((received, sender), e) ↦ (handle_client_delivers os socket p received sender e).2
        | inr (m, e) ↦ (handle_client_throws os socket p m e).1
      ]

  -- The handler never throws, and leaves the server's registrations and its socket alone.
  pub client_handler-IsQuiet : IsQuiet (client_handler os)
  client_handler-IsQuiet = record {
    handles = λ s h. (none, rw (handle_client-returns s h, continue) refl);
    stops = λ task h. refl;
    world_set = λ w h. refl;
    handles_release = λ s h.
        rw (handle_client-returns s h, continue)
          (handle_client-observe os release release-IsDeaf s h);
    stops_release = λ task h. refl;
  }
