-- ===== src/ClientProxy/View.antt =====
-- What the abstract relay sees of a client proxy, and how a delivery changes that.
use tcp_udp.Base.{
  ℕ, ◌≡◌, refl, sym, ap, fun_ext, ◌∙◌, inl, inr, true, false, Option, none, some, if◌then◌else◌,
  Bool-cases, Option-cases, bytes_eq, bytes_eq_sound, bytes_eq_refl,
}
use tcp_udp.Base.Int.{negsuc, eqb_ℤ}
use tcp_udp.Std.Text.{Bytes}
use tcp_udp.Std.Dict.{lookup}
use tcp_udp.Common.Endpoint.{Endpoint, print}
use tcp_udp.Sys.World.{World, Os}
use tcp_udp.Sys.Trace.{datagrams_out, writes_out}
use tcp_udp.ClientProxy.Binding.{Binding}
use tcp_udp.ClientProxy.Manager.{Manager, Factory}
use tcp_udp.ClientProxy.Handler.{ClientProxy, deliver}
use tcp_udp.ClientProxy.Create.{connect_reply}
use tcp_udp.ClientProxy.Delivery.{deliver_known, deliver_new, deliver_refused, deliver_unset}
use tcp_udp.ClientProxy.Spec.{Route, Relay, arrival, bind, pass_up, react}

abbrev pub route : Binding → Route
route b = record { sender = b.udp_sender; socket = b.tcp_session.socket }

abbrev pub route_of : Option Binding → Option Route
route_of none = none
route_of (some b) = some (route b)

-- What the relay shows of a binding manager.
abbrev pub view : Manager → Relay
view m = record {
  routes = λ key. route_of (lookup key m.bindings);
  up = writes_out m.world.calls;
  down = datagrams_out m.world.calls;
}

pub Relay-ext :
    {s t : Relay}
    → ((key : Bytes) → s.routes key ≡ t.routes key)
    → s.up ≡ t.up
    → s.down ≡ t.down
    → s ≡ t
Relay-ext r u d i = record { routes = fun_ext r i; up = u i; down = d i }

module _ (os : Os) where
  -- The connection that the TCP server offers for a new sender, where it is asked for one.
  unfoldable pub offer_of : Option Factory → World → Option (Option ℕ)
  offer_of none w = none
  offer_of (some factory) w =
      let r = connect_reply os factory w in
      if eqb_ℤ r.value (negsuc 0) then none else some (some r.socket)

module _ (os : Os) (socket : Option ℕ) where
  abbrev shown : Bytes → Endpoint → ClientProxy → Option Binding → Option (Option ℕ) → Relay
  shown received sender p b offer = pass_up received sender offer (route_of b) (view p.manager)

  react-arrival :
      (received : Bytes) (sender : Endpoint) (p : ClientProxy) {b : Option Binding}
      {offer : Option (Option ℕ)}
      → lookup (print sender) p.manager.bindings ≡ b
      → offer_of os p.manager.factory p.manager.world ≡ offer
      → shown received sender p b offer
        ≡ react
            (arrival received sender (offer_of os p.manager.factory p.manager.world))
            (view p.manager)
  unfolding react
  react-arrival received sender p found offered i =
      shown received sender p (sym found i) (sym offered i)

  module _ (received : Bytes) (sender : Endpoint) (p : ClientProxy) where
    deliver-routes :
        (factory : Factory) (key : Bytes)
        → lookup (print sender) p.manager.bindings ≡ none
        → p.manager.factory ≡ some factory
        → eqb_ℤ (connect_reply os factory p.manager.world).value (negsuc 0) ≡ false
        → route_of (lookup key (deliver os socket received sender p).1.manager.bindings)
          ≡ bind
              (print sender)
              (record {
                sender = sender;
                socket = some (connect_reply os factory p.manager.world).socket;
              })
              (view p.manager).routes
              key
    unfolding bind
    deliver-routes factory key absent has accepts =
        let (_, (b, bound, for), others) =
          deliver_new os socket received sender p factory absent has accepts in
        elim (Bool-cases (bytes_eq (print sender) key)) [
          | inl same ↦ rw same (
              ap (λ k. route_of (lookup k (deliver os socket received sender p).1.manager.bindings))
                (sym (bytes_eq_sound (print sender) key same))
              ∙ ap route_of bound
              ∙ ap some
                  (λ i. record { sender = for.for_sender i; socket = (for.over_session i).socket }))
          | inr other ↦
              rw other (ap route_of (others key (λ h. cc (h, other, bytes_eq_refl (print sender)))))
        ]

    offer_made :
        (factory : Factory)
        → p.manager.factory ≡ some factory
        → eqb_ℤ (connect_reply os factory p.manager.world).value (negsuc 0) ≡ false
        → offer_of os p.manager.factory p.manager.world
          ≡ some (some (connect_reply os factory p.manager.world).socket)
    unfolding offer_of
    offer_made factory has accepts = ap (λ f. offer_of os f p.manager.world) has ∙ rw accepts refl

    offer_refused :
        (factory : Factory)
        → p.manager.factory ≡ some factory
        → eqb_ℤ (connect_reply os factory p.manager.world).value (negsuc 0) ≡ true
        → offer_of os p.manager.factory p.manager.world ≡ none
    unfolding offer_of
    offer_refused factory has refuses =
        ap (λ f. offer_of os f p.manager.world) has ∙ rw refuses refl

    offer_unset : p.manager.factory ≡ none → offer_of os p.manager.factory p.manager.world ≡ none
    unfolding offer_of
    offer_unset unset = ap (λ f. offer_of os f p.manager.world) unset

    pub deliver-view :
        datagrams_out (deliver os socket received sender p).1.manager.world.calls
          ≡ datagrams_out p.manager.world.calls
        → view (deliver os socket received sender p).1.manager
          ≡ react
              (arrival received sender (offer_of os p.manager.factory p.manager.world))
              (view p.manager)
    deliver-view silent = elim (Option-cases (lookup (print sender) p.manager.bindings)) [
      | inr (b, found) ↦
          let (wrote, kept) = deliver_known os socket received sender p b found in
          Relay-ext (λ key. rw kept refl) wrote silent ∙ react-arrival received sender p found refl
      | inl absent ↦ elim (Option-cases p.manager.factory) [
        | inl unset ↦
            let (wrote, kept) = deliver_unset os socket received sender p absent unset in
            Relay-ext (λ key. rw kept refl) wrote silent
            ∙ react-arrival received sender p absent (offer_unset unset)
        | inr (f, has) ↦
            elim (Bool-cases (eqb_ℤ (connect_reply os f p.manager.world).value (negsuc 0))) [
              | inl refuses ↦
                  let (wrote, kept) =
                    deliver_refused os socket received sender p f absent has refuses in
                  Relay-ext (λ key. rw kept refl) wrote silent
                  ∙ react-arrival received sender p absent (offer_refused f has refuses)
              | inr accepts ↦
                  let (wrote, _, _) =
                    deliver_new os socket received sender p f absent has accepts in
                  Relay-ext (λ key. deliver-routes f key absent has accepts) wrote silent
                  ∙ react-arrival received sender p absent (offer_made f has accepts)
            ]
      ]
    ]
