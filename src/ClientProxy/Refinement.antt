-- ===== src/ClientProxy/Refinement.antt =====
-- The client proxy does what the abstract relay does, in every step and in every run.
use tcp_udp.Base.{
  ℕ, ◌≡◌, refl, sym, ap, subst, ◌∙◌, inl, inr, Option, none, some, List, [], ◌∷◌, Bool-cases,
  Option-cases, bytes_eq, bytes_eq_sound, bytes_eq_refl,
}
use tcp_udp.Std.Text.{Bytes}
use tcp_udp.Std.Dict.{lookup, lookup-All_entries, lookup-insert_self, lookup-insert_ne}
use tcp_udp.Common.Endpoint.{Endpoint, any}
use tcp_udp.Sys.Exec.{ok}
use tcp_udp.Sys.World.{World, Os, IsPosix}
use tcp_udp.Sys.Trace.{datagram_out, datagrams_out, writes_out}
use tcp_udp.Io.{IoResultCode, success, error}
use tcp_udp.Io.Classify.{IoResultCode-cases}
use tcp_udp.ClientProxy.Binding.{Binding, handle_input}
use tcp_udp.ClientProxy.SessionHandler.{read_udp_message}
use tcp_udp.ClientProxy.Handler.{ClientProxy, create, handle_client, session_handler, binding_input}
use tcp_udp.ClientProxy.Input.{
  after_read, after_read-writes, handle_client_delivers, handle_client_throws,
  handle_client_throws_calls, read_message, read_nothing, read_failure,
}
use tcp_udp.ClientProxy.Tunnel.{incoming, read_outcome}
use tcp_udp.ClientProxy.Responses.{
  got, outcome, binding_input_end, binding_input_data, input_found, handle_input_shape,
}
use tcp_udp.ClientProxy.Invariant.{IsSound, IsKeyed}
use tcp_udp.ClientProxy.Silence.{
  after_read-observe, deliver-observe, datagram_out-IsDeaf, handle_input_timeout,
  handle_input-writes_out,
}
use tcp_udp.ClientProxy.Runs.{
  Event, datagram_ready, connection_ready, step, run, step-IsSound, create-IsSound,
}
use tcp_udp.ClientProxy.Spec.{Input, arrival, answer, idle, pass_down, empty, react, react_all}
use tcp_udp.ClientProxy.View.{view, offer_of, route_of, Relay-ext, deliver-view}

module _ (os : Os) (socket : Option ℕ) where
  seen_datagram : IoResultCode → ClientProxy → Input
  unfolding offer_of
  seen_datagram success p =
      arrival (incoming os socket p).bytes (incoming os socket p).address
        (offer_of os p.manager.factory (after_read os socket p).manager.world)
  seen_datagram error p = idle
  seen_datagram _ p =
      arrival [] any (offer_of os p.manager.factory (after_read os socket p).manager.world)

  seen_bytes : Bytes → Bytes → IoResultCode → Input
  seen_bytes key bytes success = answer key bytes
  seen_bytes key bytes _ = idle

  seen_binding : Bytes → Option Binding → World → Input
  unfolding seen_bytes
  seen_binding key none w = idle
  seen_binding key (some b) w =
      seen_bytes key (got os socket b w).bytes (outcome os socket b w).code

  -- What an event brings, which the system decides.
  unfoldable pub seen : Event → ClientProxy → Input
  unfolding seen_datagram seen_binding
  seen datagram_ready p = seen_datagram (read_outcome os socket p).code p
  seen (connection_ready key) p = seen_binding key (lookup key p.manager.bindings) p.manager.world

  -- What the events of a run bring.
  unfoldable pub seen_all : List Event → ClientProxy → List Input
  unfolding seen step
  seen_all [] p = []
  seen_all (e ∷ es) p = seen e p ∷ seen_all es (step os socket e p)

  module _ (p : ClientProxy) where
    abbrev after : ClientProxy
    after = after_read os socket p

    abbrev offered : Option (Option ℕ)
    offered = offer_of os p.manager.factory after.manager.world

    after_read-view : view after.manager ≡ view p.manager
    after_read-view =
        Relay-ext (λ key. refl) (after_read-writes os socket p)
          (after_read-observe os datagram_out datagram_out-IsDeaf socket p)

    delivered-view :
        (received : Bytes) (sender : Endpoint)
        → (read_udp_message os socket any (session_handler p)).0 ≡ ok (received, sender)
        → view (handle_client os socket p).1.manager
          ≡ react (arrival received sender offered) (view p.manager)
    delivered-view received sender e =
        let (kept, made, _) = handle_client_delivers os socket p received sender e in
        Relay-ext (λ key. rw kept refl) (ap writes_out made) (ap datagrams_out made)
        ∙ deliver-view os socket received sender after
            (deliver-observe os datagram_out datagram_out-IsDeaf socket received sender after)
        ∙ ap (react (arrival received sender offered)) after_read-view

    handle_client-view :
        IsPosix os
        → view (handle_client os socket p).1.manager
          ≡ react (seen datagram_ready p) (view p.manager)
    unfolding seen react
    handle_client-view posix = elim (IoResultCode-cases (read_outcome os socket p).code) [
      | inl (inl good) ↦ rw good (
          delivered-view (incoming os socket p).bytes (incoming os socket p).address
            (read_message os socket (session_handler p) posix good))
      | inl (inr slow) ↦
          rw slow (delivered-view [] any (read_nothing os socket (session_handler p) (inl slow)))
      | inr (inl closed) ↦
          rw closed
            (delivered-view [] any (read_nothing os socket (session_handler p) (inr closed)))
      | inr (inr bad) ↦
          let (m, failed) = read_failure os socket (session_handler p) bad in
          let (kept, _) = handle_client_throws os socket p m failed in
          let made = handle_client_throws_calls os socket p m failed in
          rw bad (
            Relay-ext (λ key. rw kept refl) (ap writes_out made) (ap datagrams_out made)
            ∙ after_read-view)
    ]

  module _ (key : Bytes) (p : ClientProxy) (b : Binding) where
    abbrev w : World
    w = p.manager.world

    module _ (found : lookup key p.manager.bindings ≡ some b) (entry : IsKeyed (key, b)) where
      binding_left :
          (binding_input os socket key p).1.manager.world ≡ (handle_input os socket b w).1
      binding_left =
          let (result, b', gave, _, _, _) = handle_input_shape os socket b w entry.has_reactor in
          (input_found os socket p key b result b' found gave).2

      binding_routes :
          (k : Bytes)
          → route_of (lookup k (binding_input os socket key p).1.manager.bindings)
            ≡ route_of (lookup k p.manager.bindings)
      binding_routes k =
          let (result, b', gave, sender, _, session) =
            handle_input_shape os socket b w entry.has_reactor in
          let (_, kept, _) = input_found os socket p key b result b' found gave in
          elim (Bool-cases (bytes_eq key k)) [
            | inl same ↦
                subst
                  (λ k.
                    route_of (lookup k (binding_input os socket key p).1.manager.bindings)
                    ≡ route_of (lookup k p.manager.bindings))
                  (bytes_eq_sound key k same)
                  (rw kept (
                    ap route_of (lookup-insert_self key b' p.manager.bindings)
                    ∙ ap some (λ i. record { sender = sender i; socket = (session i).socket })
                    ∙ ap route_of (sym found)))
            | inr other ↦ rw kept (
                ap route_of (
                  lookup-insert_ne key k b' p.manager.bindings
                    (λ h. cc (h, other, bytes_eq_refl key))))
          ]

      binding_found-view :
          IsPosix os
          → view (binding_input os socket key p).1.manager
            ≡ react (seen_binding key (some b) w) (view p.manager)
      unfolding seen_binding react
      binding_found-view posix =
          let quiet =
            ap (λ w. writes_out w.calls) binding_left
            ∙ handle_input-writes_out os socket b w posix entry.has_reactor in
          elim (IoResultCode-cases (outcome os socket b w).code) [
            | inl (inl good) ↦
                let (_, sent, _) = binding_input_data os socket p key b posix good found in
                rw good (
                  Relay-ext binding_routes quiet sent
                  ∙ ap (λ x. pass_down (got os socket b w).bytes (route_of x) (view p.manager))
                      (sym found))
            | inl (inr slow) ↦ rw slow (
                Relay-ext binding_routes quiet (
                  ap (λ w. datagrams_out w.calls) binding_left
                  ∙ handle_input_timeout os socket b w slow))
            | inr (inl closed) ↦
                let (_, sent, _, _) =
                  binding_input_end os socket p key b (inl closed) entry.has_reactor found in
                rw closed (Relay-ext binding_routes quiet sent)
            | inr (inr bad) ↦
                let (_, sent, _, _) =
                  binding_input_end os socket p key b (inr bad) entry.has_reactor found in
                rw bad (Relay-ext binding_routes quiet sent)
          ]

  binding_input-view :
      (key : Bytes) (p : ClientProxy)
      → IsPosix os
      → IsSound p.manager
      → view (binding_input os socket key p).1.manager
        ≡ react (seen (connection_ready key) p) (view p.manager)
  unfolding seen seen_binding binding_input react
  binding_input-view key p posix sound = elim (Option-cases (lookup key p.manager.bindings)) [
    | inl absent ↦ rw (absent, binding_input) refl
    | inr (b, found) ↦
        binding_found-view key p b found
          (lookup-All_entries IsKeyed key p.manager.bindings found sound.is_keyed) posix
        ∙ ap (λ x. react (seen_binding key x p.manager.world) (view p.manager)) (sym found)
  ]

  -- Where `recv` answers as documented, an event changes what a client proxy with sound bindings
  -- shows exactly as the relay reacts to what the event brings.
  pub step-view :
      (e : Event) (p : ClientProxy)
      → IsPosix os
      → IsSound p.manager
      → view (step os socket e p).manager ≡ react (seen e p) (view p.manager)
  unfolding step
  step-view datagram_ready p posix sound = handle_client-view p posix
  step-view (connection_ready key) p posix sound = binding_input-view key p posix sound

  run-view :
      (es : List Event) (p : ClientProxy)
      → IsPosix os
      → IsSound p.manager
      → view (run os socket es p).manager ≡ react_all (seen_all es p) (view p.manager)
  unfolding run seen_all react_all
  run-view [] p posix sound = refl
  run-view (e ∷ es) p posix sound =
      run-view es (step os socket e p) posix (step-IsSound os socket e p sound)
      ∙ ap (react_all (seen_all es (step os socket e p))) (step-view e p posix sound)

  -- A run of a new client proxy, over any events, shows exactly what the abstract relay does that
  -- starts without routes and reacts to what the events bring.
  pub run-create-view :
      (tcp_server : Endpoint) (w : World) (es : List Event)
      → IsPosix os
      → view (run os socket es (create tcp_server w)).manager
        ≡ react_all
            (seen_all es (create tcp_server w))
            (empty (writes_out w.calls) (datagrams_out w.calls))
  unfolding create lookup
  run-create-view tcp_server w es posix =
      run-view es (create tcp_server w) posix (create-IsSound os socket tcp_server w)
