-- ===== src/ClientProxy/Manager.antt =====
-- BindingFactory.h, BindingFactory.cpp, BindingManager.h and BindingManager.cpp.
use tcp_udp.Base.{Option, none, some, List, [], Bool, true, false}
use tcp_udp.Std.Text.{Bytes}
use tcp_udp.Std.Dict.{lookup, insert, erase}
use tcp_udp.Common.Endpoint.{Endpoint, any_loop_back}
use tcp_udp.Sys.Exec.{Exec, ok, pure, throw, zoom, ◌>>=◌}
use tcp_udp.Sys.World.{World, Os}
use tcp_udp.Tcp.Session.{Session}
use tcp_udp.Tcp.Client
use tcp_udp.Tcp.Client.{TcpClient}
use tcp_udp.ClientProxy.Binding
use tcp_udp.ClientProxy.Binding.{Binding, register_with_reactor, destroy}

-- `reactor` says whether the pointer to the reactor is set.
pub record Factory : Type 0 where
  pub tcp_server : Endpoint
  pub reactor : Bool

pub record Manager : Type 0 where
  pub world : World
  pub bindings : List (Bytes × Binding)
  pub factory : Option Factory

unfoldable pub create : World → Manager
create w = record { world = w; bindings = []; factory = none }

unfoldable pub set_binding_factory : Factory → Manager → Manager
set_binding_factory factory m = record m { factory = some factory }

abbrev on_world : {A : Type 0} → Exec World A → Exec Manager A
on_world = zoom (λ m. m.world) (λ w m. record m { world = w })

abbrev store : Bytes → Binding → Exec Manager Binding
store source_key binding m =
    (ok binding, record m { bindings = insert source_key binding m.bindings })

module _ (os : Os) where
  bind : Factory → TcpClient → Endpoint → Option Session → Exec World Binding
  unfolding register_with_reactor Binding.create
  bind factory client udp_sender none =
      throw (record { format = "Failed to connect to TCP server"; args = [] })
  bind factory client udp_sender (some session) =
      register_with_reactor os (Binding.create client session udp_sender) factory.reactor

  unfoldable pub create_binding : Factory → Endpoint → Exec World Binding
  unfolding bind Client.connect
  create_binding factory udp_sender = do
    (session, client) ← Client.connect os Client.create any_loop_back factory.tcp_server
    bind factory client udp_sender session

  unfoldable pub create_tcp_connection : Factory → Exec World (Option Session)
  unfolding Client.connect
  create_tcp_connection factory = do
    (session, client) ← Client.connect os Client.create any_loop_back factory.tcp_server
    pure session

  create_missing : Bytes → Endpoint → Option Factory → Exec Manager Binding
  unfolding create_binding
  create_missing source_key udp_sender none =
      throw (record { format = "Binding factory not available"; args = [] })
  create_missing source_key udp_sender (some factory) = do
    binding ← on_world (create_binding factory udp_sender)
    store source_key binding

  get_or_create : Bytes → Endpoint → Option Binding → Exec Manager Binding
  unfolding create_missing
  get_or_create source_key udp_sender (some binding) m = pure binding m
  get_or_create source_key udp_sender none m = create_missing source_key udp_sender m.factory m

  -- The key has no entry where one is emplaced, so emplacing succeeds.
  unfoldable pub get_or_create_binding : Bytes → Endpoint → Exec Manager Binding
  unfolding get_or_create
  get_or_create_binding source_key udp_sender m =
      get_or_create source_key udp_sender (lookup source_key m.bindings) m

  erase_found : Bytes → Option Binding → Exec Manager (Unit {0})
  unfolding destroy
  erase_found source_key none m = (ok tt, m)
  erase_found source_key (some binding) m =
      on_world (destroy os binding) (record m { bindings = erase source_key m.bindings })

  -- Erasing a binding destroys it.
  unfoldable pub remove_binding : Bytes → Exec Manager (Unit {0})
  unfolding erase_found
  remove_binding source_key m = erase_found source_key (lookup source_key m.bindings) m

abbrev is_some : Option Binding → Bool
is_some none = false
is_some (some b) = true

unfoldable pub has_binding : Bytes → Manager → Bool
has_binding source_key m = is_some (lookup source_key m.bindings)
