-- ===== src/Tunnel/Carried.antt =====
-- The bytes that TCP clients of the server proxy write, as the TCP server behind the client proxy
-- gets them.
use tcp_udp.Base.{
  ℕ, ◌≡◌, refl, sym, ap, ◌∙◌, inl, inr, Option, none, some, List, [], ◌∷◌, ◌++◌, map, append-nil,
  append_assoc, if◌then◌else◌, Bool-cases, bytes_eq, All,
}
use tcp_udp.Std.Text.{Bytes}
use tcp_udp.Std.Dict.{lookup}
use tcp_udp.Common.Endpoint.{Endpoint, print}
use tcp_udp.Sys.World.{World, Os, IsPosix}
use tcp_udp.Sys.Trace.{chunks, datagrams_out, accepted, IsWhole}
use tcp_udp.Tcp.Session.{Session}
use tcp_udp.ServerProxy.Forwarder.{Forwarder, Route, forward_tcp_to_udp}
use tcp_udp.ServerProxy.Forwarding.{Forwarded, forward_tcp_to_udp-Forwarded}
use tcp_udp.ClientProxy.Binding.{Binding}
use tcp_udp.ClientProxy.Handler.{create}
use tcp_udp.ClientProxy.Runs.{Event, run}
use tcp_udp.ClientProxy.Spec as Spec
use tcp_udp.ClientProxy.Spec.{Relay, Input, arrival, answer, idle, react}
use tcp_udp.ClientProxy.Streams.{written_on, kept, spoken, spoken_now, AreFresh}
use tcp_udp.ClientProxy.Streamed.{start_relay, inputs, run_streams}

abbrev pub flatten : List Bytes → Bytes
flatten [] = []
flatten (b ∷ l) = b ++ flatten l

-- The datagrams of the sender with a key, in the order of their arrival.
abbrev pub arrived_now : Bytes → Input → List Bytes
arrived_now key (arrival bytes sender offer) =
    if bytes_eq (print sender) key then bytes ∷ [] else []
arrived_now key (answer k bytes) = []
arrived_now key idle = []

abbrev pub arrived : Bytes → List Input → List Bytes
arrived key [] = []
arrived key (i ∷ is) = arrived_now key i ++ arrived key is

-- The TCP server accepts every connection.
abbrev pub IsOffered : Input → Type 0
IsOffered (arrival bytes sender offer) = (s : Option ℕ) × (offer ≡ some s)
IsOffered _ = Unit

flatten-append : (l m : List Bytes) → flatten (l ++ m) ≡ flatten l ++ flatten m
flatten-append [] m = refl
flatten-append (b ∷ l) m = simp (flatten-append l m, append_assoc)

kept-offered :
    (bytes : Bytes) (r : Option Spec.Route) (s : Option ℕ) → kept bytes r (some s) ≡ bytes
kept-offered bytes none s = refl
kept-offered bytes (some r) s = refl

spoken_now-arrived :
    (key : Bytes) (i : Input) (t : Relay)
    → IsOffered i
    → spoken_now key i t ≡ flatten (arrived_now key i)
unfolding spoken_now
spoken_now-arrived key (arrival bytes sender offer) t (s, e) =
    elim (Bool-cases (bytes_eq (print sender) key)) [
      | inl same ↦ rw (same, e) (kept-offered bytes (t.routes key) s ∙ sym (append-nil bytes))
      | inr other ↦ rw other refl
    ]
spoken_now-arrived key (answer k bytes) t o = refl
spoken_now-arrived key idle t o = refl

spoken-arrived :
    (key : Bytes) (is : List Input) (t : Relay)
    → All IsOffered is
    → spoken key is t ≡ flatten (arrived key is)
unfolding spoken
spoken-arrived key [] t o = refl
spoken-arrived key (i ∷ is) t (o, os) =
    rw (spoken_now-arrived key i t o, spoken-arrived key is (react i t) os)
      (sym (flatten-append (arrived_now key i) (arrived key is)))

datagrams_of :
    (dest : Endpoint) (l : List Bytes)
    → map (λ (d : Bytes × Endpoint). d.0) (map (λ b. (b, dest)) l) ≡ l
datagrams_of dest [] = refl
datagrams_of dest (b ∷ l) = ap (λ m. b ∷ m) (datagrams_of dest l)

-- What the front end sent, without the destinations.
abbrev pub sent : Forwarder → List Bytes
sent f = map (λ (d : Bytes × Endpoint). d.0) (datagrams_out f.world.calls)

sent-chunks : (route : Route) (f : Forwarder) → Forwarded route f → sent f ≡ chunks f.world.calls
sent-chunks route f h =
    ap (map (λ (d : Bytes × Endpoint). d.0)) h ∙ datagrams_of route.udp_proxy (chunks f.world.calls)

-- The back end: a client proxy for one TCP server, over any events.
module _ (os : Os) (socket : Option ℕ) (tcp_server : Endpoint) (w : World) (es : List Event)
    (posix : IsPosix os)
    (fresh : AreFresh (inputs os socket tcp_server w es) (start_relay os socket tcp_server w es))
    (offered : All IsOffered (inputs os socket tcp_server w es)) where
  carried :
      (key : Bytes) (b : Binding)
      → let p = run os socket es (create tcp_server w) in
        All IsWhole p.manager.world.calls
        → lookup key p.manager.bindings ≡ some b
        → written_on b.tcp_session.socket (accepted p.manager.world.calls)
          ≡ flatten (arrived key (inputs os socket tcp_server w es))
  carried key b whole found =
      run_streams os socket tcp_server w es key b posix fresh whole found
      ∙ spoken-arrived key (inputs os socket tcp_server w es)
          (start_relay os socket tcp_server w es) offered

  -- From end to end, for one TCP client of the server proxy: if the network brings the datagrams of
  -- the server proxy to the client proxy, all, once and in order, and every write to a TCP connection
  -- takes all that it is given, the bytes that the TCP connection of that sender took are exactly the
  -- bytes that were read from the TCP client, in order; how they were cut into reads is lost (every
  -- connection that the client proxy asks for is accepted and unused, the server proxy has forwarded
  -- before what it had read, and the sender is bound).
  pub tunnel_carries :
      (front : Os) (route : Route) (s : Session) (client_key : Bytes) (rounds : ℕ) (f : Forwarder)
      (sender : Endpoint) (b : Binding)
      → IsPosix front
      → Forwarded route f
      → let g = (forward_tcp_to_udp front route rounds s client_key f).1 in
        let p = run os socket es (create tcp_server w) in
        arrived (print sender) (inputs os socket tcp_server w es) ≡ sent g
        → All IsWhole p.manager.world.calls
        → lookup (print sender) p.manager.bindings ≡ some b
        → written_on b.tcp_session.socket (accepted p.manager.world.calls)
          ≡ flatten (chunks g.world.calls)
  tunnel_carries front route s client_key rounds f sender b posix_front before network whole found =
      let g = (forward_tcp_to_udp front route rounds s client_key f).1 in
      let forwarded =
        forward_tcp_to_udp-Forwarded front route s client_key rounds f posix_front before in
      carried (print sender) b whole found ∙ ap flatten (network ∙ sent-chunks route g forwarded)
