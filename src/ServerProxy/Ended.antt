-- ===== src/ServerProxy/Ended.antt =====
-- What is left of the tasks of the server proxy when they are stopped.
use tcp_udp.Base.{
  ◌≡◌, refl, ap, ◌∙◌, inl, inr, Option, none, List, [], ◌∷◌, Bool-cases, All, bytes_eq,
  bytes_eq_sound, bytes_eq_iff, subst,
}
use tcp_udp.Std.Text.{Bytes}
use tcp_udp.Std.Dict.{lookup, erase, IsMap, erase-IsMap, lookup-erase_self, lookup-erase_ne}
use tcp_udp.Sys.Exec.{ok, continue}
use tcp_udp.Sys.Loop.{while_not_cancelled}
use tcp_udp.Sys.World.{Os}
use tcp_udp.Tcp.Session.{Session}
use tcp_udp.Tcp.Acceptor.{stop_each}
use tcp_udp.Tcp.Accepting.{IsQuiet}
use tcp_udp.ServerProxy.Forwarder.{Route, forward_tcp_to_udp}
use tcp_udp.ServerProxy.ClientHandler.{Proxy, Task, handle_client, run_task}
use tcp_udp.ServerProxy.Assembly.{client_handler, stop_task}

-- The registered clients without those of some tasks.
abbrev pub without : List Task → List (Bytes × Option Session) → List (Bytes × Option Session)
without [] m = m
without (task ∷ rest) m = without rest (erase task.client_key m)

lookup-erase-none :
    (j k : Bytes) (m : List (Bytes × Option Session))
    → IsMap m
    → lookup j m ≡ none
    → lookup j (erase k m) ≡ none
lookup-erase-none j k m map h = elim (Bool-cases (bytes_eq k j)) [
  | inl e ↦
      subst (λ i. lookup i (erase k m) ≡ none) (bytes_eq_sound k j e) (lookup-erase_self k m map)
  | inr e ↦ lookup-erase_ne k j m (λ same. absurd (cc (e, (bytes_eq_iff k j).1 same))) ∙ h
]

lookup-without-none :
    (j : Bytes) (tasks : List Task) (m : List (Bytes × Option Session))
    → IsMap m
    → lookup j m ≡ none
    → lookup j (without tasks m) ≡ none
lookup-without-none j [] m map h = h
lookup-without-none j (task ∷ rest) m map h =
    lookup-without-none j rest (erase task.client_key m) (erase-IsMap task.client_key m map)
      (lookup-erase-none j task.client_key m map h)

-- No client of one of the tasks is registered.
abbrev pub IsGone : List (Bytes × Option Session) → Task → Type 0
IsGone m task = lookup task.client_key m ≡ none

pub without-IsGone :
    (tasks : List Task) (m : List (Bytes × Option Session))
    → IsMap m
    → All (IsGone (without tasks m)) tasks
without-IsGone [] m map = tt
without-IsGone (task ∷ rest) m map =
    let map' = erase-IsMap task.client_key m map in
    (
      lookup-without-none task.client_key rest (erase task.client_key m) map'
          (lookup-erase_self task.client_key m map),
      without-IsGone rest (erase task.client_key m) map',
    )

module _ (os : Os) where
  module _ (r : Route) where
    -- The join of a task returns; by then its client is not registered, and no call was made.
    record IsEnded (task : Task) (p : Proxy) : Type 0 where
      returns : (stop_task os r task p).0 ≡ ok tt
      leaves :
          (stop_task os r task p).1.udp_handler.tcp_sessions
          ≡ erase task.client_key p.udp_handler.tcp_sessions
      is_silent : (stop_task os r task p).1.udp_handler.world.calls ≡ p.udp_handler.world.calls

    stop_task-IsEnded : (task : Task) (p : Proxy) → IsEnded task p
    unfolding stop_task run_task forward_tcp_to_udp while_not_cancelled
    stop_task-IsEnded task p = record { returns = refl; leaves = refl; is_silent = refl }

    -- And so with all tasks.
    pub record AreEnded (tasks : List Task) (p : Proxy) : Type 0 where
      pub returns : (stop_each os (client_handler os r) tasks p).0 ≡ ok tt
      pub leaves :
          (stop_each os (client_handler os r) tasks p).1.udp_handler.tcp_sessions
          ≡ without tasks p.udp_handler.tcp_sessions
      pub is_silent :
          (stop_each os (client_handler os r) tasks p).1.udp_handler.world.calls
          ≡ p.udp_handler.world.calls

    pub stop_each-AreEnded : (tasks : List Task) (p : Proxy) → AreEnded tasks p
    unfolding stop_each
    stop_each-AreEnded [] p = record { returns = refl; leaves = refl; is_silent = refl }
    stop_each-AreEnded (task ∷ rest) p =
        let ended = stop_task-IsEnded task p in
        let others = stop_each-AreEnded rest (stop_task os r task p).1 in
        record {
          returns = rw (ended.returns, continue) others.returns;
          leaves = rw (ended.returns, continue) (others.leaves ∙ ap (without rest) ended.leaves);
          is_silent = rw (ended.returns, continue) (others.is_silent ∙ ended.is_silent);
        }

    pub client_handler-IsQuiet : IsQuiet (client_handler os r)
    unfolding handle_client
    client_handler-IsQuiet = record {
      handles = λ s h. (_, refl);
      stops = λ task h. (stop_task-IsEnded task h).returns;
    }
