-- ===== src/ClientProxy/Invariant.antt =====
-- What holds of the bindings at all times.
use tcp_udp.Base.{ℕ, ◌≡◌, refl, sym, ap, ◌∙◌, inl, inr, true, Option, Bool-cases, Option-cases, All}
use tcp_udp.Base.Int.{negsuc, eqb_ℤ}
use tcp_udp.Std.Text.{Bytes}
use tcp_udp.Std.Dict.{
  lookup, insert, erase, IsMap, insert-IsMap, erase-IsMap, insert-All_entries, erase-All_entries,
  lookup-All_entries,
}
use tcp_udp.Common.Endpoint.{Endpoint, print, any}
use tcp_udp.Sys.Exec.{continue, Result-cases}
use tcp_udp.Sys.World.{Os}
use tcp_udp.ClientProxy.Binding.{Binding}
use tcp_udp.ClientProxy.SessionHandler.{read_udp_message}
use tcp_udp.ClientProxy.Manager.{Manager, get_or_create_binding, remove_binding}
use tcp_udp.ClientProxy.Handler.{
  ClientProxy, session_handler, deliver, handle_client, binding_input,
}
use tcp_udp.ClientProxy.Input.{after_read, handle_client_delivers, handle_client_throws}
use tcp_udp.ClientProxy.Responses.{handle_input_shape, input_found}
use tcp_udp.ClientProxy.Create.{
  connect_reply, get_or_create_binding_known, get_or_create_binding_new,
  get_or_create_binding_refused, get_or_create_binding_unset,
}

-- An entry stands under the printed address of its sender, and is registered only with a reactor.
pub record IsKeyed (entry : Bytes × Binding) : Type 0 where
  pub keyed : entry.0 ≡ print entry.1.udp_sender
  pub has_reactor : entry.1.registered ≡ true → entry.1.reactor ≡ true

-- No sender has two bindings, and each stands under its sender.
pub record IsSound (m : Manager) : Type 0 where
  pub is_map : IsMap m.bindings
  pub is_keyed : All IsKeyed m.bindings

same_bindings-IsSound : {m n : Manager} → n.bindings ≡ m.bindings → IsSound m → IsSound n
same_bindings-IsSound {m} {n} e h = record { is_map = rw e h.is_map; is_keyed = rw e h.is_keyed }

insert-IsSound :
    {m n : Manager} (key : Bytes) (b : Binding)
    → n.bindings ≡ insert key b m.bindings
    → IsKeyed (key, b)
    → IsSound m
    → IsSound n
insert-IsSound {m} {n} key b e k h = record {
  is_map = rw e (insert-IsMap key b m.bindings h.is_map);
  is_keyed = rw e (insert-All_entries IsKeyed key b m.bindings k h.is_keyed);
}

module _ (os : Os) where
  get_or_create_binding-IsSound :
      (sender : Endpoint) (m : Manager)
      → IsSound m
      → IsSound (get_or_create_binding os (print sender) sender m).1
  get_or_create_binding-IsSound sender m h =
      elim (Option-cases (lookup (print sender) m.bindings)) [
        | inr (b, e) ↦ rw (get_or_create_binding_known os (print sender) sender m b e) h
        | inl absent ↦ elim (Option-cases m.factory) [
          | inl unset ↦
              same_bindings-IsSound
                (get_or_create_binding_unset os (print sender) sender m absent unset) h
          | inr (f, has) ↦ elim (Bool-cases (eqb_ℤ (connect_reply os f m.world).value (negsuc 0))) [
            | inl refuses ↦
                let (_, same, _) =
                  get_or_create_binding_refused os (print sender) sender m f absent has refuses in
                same_bindings-IsSound same h
            | inr accepts ↦
                let (b, _, for, stored, _) =
                  get_or_create_binding_new os (print sender) sender m f absent has accepts in
                insert-IsSound (print sender) b stored
                  (record { keyed = ap print (sym for.for_sender); has_reactor = for.has_reactor })
                  h
          ]
        ]
      ]

  deliver-manager :
      (socket : Option ℕ) (received : Bytes) (sender : Endpoint) (p : ClientProxy)
      → (deliver os socket received sender p).1.manager.bindings
        ≡ (get_or_create_binding os (print sender) sender p.manager).1.bindings
  unfolding deliver
  deliver-manager socket received sender p =
      elim (Result-cases (get_or_create_binding os (print sender) sender p.manager).0) [
        | inl (b, e) ↦ rw (e, continue) refl
        | inr (m, e) ↦ rw (e, continue) refl
      ]

  -- The handler of a datagram keeps the bindings sound, whatever the system answers.
  pub handle_client-IsSound :
      (socket : Option ℕ) (p : ClientProxy)
      → IsSound p.manager
      → IsSound (handle_client os socket p).1.manager
  handle_client-IsSound socket p h =
      elim (Result-cases (read_udp_message os socket any (session_handler p)).0) [
        | inl ((received, sender), e) ↦
            let (kept, _, _) = handle_client_delivers os socket p received sender e in
            let after = after_read os socket p in
            same_bindings-IsSound
              {m = (get_or_create_binding os (print sender) sender after.manager).1}
              (kept ∙ deliver-manager socket received sender after)
              (get_or_create_binding-IsSound sender after.manager
                (same_bindings-IsSound {m = p.manager} refl h))
        | inr (m, e) ↦ same_bindings-IsSound (handle_client_throws os socket p m e).0 h
      ]

  -- So does the handler of a binding whose connection can be read.
  pub binding_input-IsSound :
      (socket : Option ℕ) (key : Bytes) (p : ClientProxy)
      → IsSound p.manager
      → IsSound (binding_input os socket key p).1.manager
  binding_input-IsSound socket key p h = elim (Option-cases (lookup key p.manager.bindings)) [
    | inl absent ↦
        same_bindings-IsSound {m = p.manager}
          (unfold binding_input in rw (absent, binding_input) refl) h
    | inr (b, found) ↦
        let entry = lookup-All_entries IsKeyed key p.manager.bindings found h.is_keyed in
        let (result, b', gave, sender, sound, _) =
          handle_input_shape os socket b p.manager.world entry.has_reactor in
        let (_, kept, _) = input_found os socket p key b result b' found gave in
        insert-IsSound key b' kept
          (record { keyed = entry.keyed ∙ ap print (sym sender); has_reactor = sound }) h
  ]

  -- And so does the removal of a binding.
  pub remove_binding-IsSound :
      (key : Bytes) (m : Manager) → IsSound m → IsSound (remove_binding os key m).1
  remove_binding-IsSound key m h = elim (Option-cases (lookup key m.bindings)) [
    | inl absent ↦
        same_bindings-IsSound {m = m} (unfold remove_binding in rw (absent, remove_binding) refl) h
    | inr (b, found) ↦
        let left : (remove_binding os key m).1.bindings ≡ erase key m.bindings =
          unfold remove_binding in rw (found, remove_binding) refl in
        record {
          is_map = rw left (erase-IsMap key m.bindings h.is_map);
          is_keyed = rw left (erase-All_entries IsKeyed key m.bindings h.is_keyed);
        }
  ]
