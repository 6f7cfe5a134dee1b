-- ===== src/ClientProxy/Isolation.antt =====
-- The streams of different senders stay apart in the relay.
use tcp_udp.Base.{
  ℕ, ◌≡◌, ◌≢◌, refl, sym, ap, subst, ◌∙◌, ◌⊎◌, inl, inr, false, Option, none, some, List, [], ◌∷◌,
  ◌++◌, append-nil, append_assoc, Bool-cases, Option-cases, bytes_eq, bytes_eq_sound, bytes_eq_refl,
}
use tcp_udp.Std.Text.{Bytes}
use tcp_udp.Common.Endpoint.{Endpoint, print}
use tcp_udp.ClientProxy.Spec.{
  Route, Relay, Input, arrival, answer, idle, bind, react, react_all, pass_up,
}
use tcp_udp.ClientProxy.Streams.{
  written_on_self, written_on_other, so_far, spoken_now, spoken, IsSeparate, IsUnused, IsFresh,
  AreFresh,
}

pub other_key : (key k : Bytes) → bytes_eq key k ≡ false → key ≢ k
other_key key k e h = cc (h, e, bytes_eq_refl key)

module _ (key : Bytes) (r : Route) (routes : Bytes → Option Route) where
  bind-cases :
      (k : Bytes) (s : Route)
      → bind key r routes k ≡ some s
      → ((key ≡ k) × (r.socket ≡ s.socket)) ⊎ (routes k ≡ some s)
  unfolding bind
  bind-cases k s at_k = elim (Bool-cases (bytes_eq key k)) [
    | inl same ↦ inl (bytes_eq_sound key k same, cc)
    | inr other ↦ inr cc
  ]

bind-IsSeparate :
    (sender : Endpoint) (socket : Option ℕ) (t : Relay)
    → IsSeparate t
    → IsUnused socket t
    → let r : Route = record { sender = sender; socket = socket } in
      IsSeparate (record t { routes = bind (print sender) r t.routes })
bind-IsSeparate sender socket t apart unused =
    let new : Route = record { sender = sender; socket = socket } in
    record {
      separate = λ j k r s at_j at_k e. elim (bind-cases (print sender) new t.routes j r at_j) [
        | inl (a, is_new) ↦ elim (bind-cases (print sender) new t.routes k s at_k) [
          | inl (b, _) ↦ sym a ∙ b
          | inr old ↦ absurd (unused.unrouted k s old (sym e ∙ sym is_new))
        ]
        | inr before ↦ elim (bind-cases (print sender) new t.routes k s at_k) [
          | inl (_, is_new) ↦ absurd (unused.unrouted j r before (e ∙ sym is_new))
          | inr old ↦ apart.separate j k r s before old e
        ]
      ];
    }

module _ (bytes : Bytes) (sender : Endpoint) (offer : Option (Option ℕ)) (t : Relay) where
  abbrev spoken_here : Bytes → Bytes
  spoken_here k = spoken_now k (arrival bytes sender offer) t

  abbrev after : Relay
  after = react (arrival bytes sender offer) t

  -- The claim of `react-so_far` for one key.
  abbrev Grows : Bytes → Type 0
  Grows k = so_far (after.routes k) after.up ≡ so_far (t.routes k) t.up ++ spoken_here k

  known-sender : (r : Route) → t.routes (print sender) ≡ some r → Grows (print sender)
  unfolding react spoken_now
  known-sender r found =
      rw (found, react)
        (rw (bytes_eq_refl (print sender)) (rw found (written_on_self r.socket bytes t.up)))

  known-other :
      (r : Route) (k : Bytes)
      → t.routes (print sender) ≡ some r
      → IsSeparate t
      → bytes_eq (print sender) k ≡ false
      → Grows k
  unfolding react spoken_now
  known-other r k found apart other = elim (Option-cases (t.routes k)) [
    | inl absent ↦ rw (found, react) (rw (other, absent) refl)
    | inr (s, has) ↦
        let differ : s.socket ≢ r.socket = λ e.
          other_key (print sender) k other
            (apart.separate (print sender) k r s found has (sym e)) in
        rw (found, react)
          (rw (other, has)
            (written_on_other s.socket r.socket bytes t.up differ ∙ sym (append-nil _)))
  ]

  by_key :
      (k : Bytes) → Grows (print sender) → (bytes_eq (print sender) k ≡ false → Grows k) → Grows k
  by_key k self others = elim (Bool-cases (bytes_eq (print sender) k)) [
    | inl same ↦ subst Grows (bytes_eq_sound (print sender) k same) self
    | inr other ↦ others other
  ]

  refused-sender : (k : Bytes) → t.routes (print sender) ≡ none → offer ≡ none → Grows k
  unfolding react spoken_now
  refused-sender k absent refused =
      rw (absent, react)
        (rw (refused, pass_up)
          (elim (Bool-cases (bytes_eq (print sender) k)) [
            | inl same ↦
                let none_here : t.routes k ≡ none =
                  ap t.routes (sym (bytes_eq_sound (print sender) k same)) ∙ absent in
                rw same (rw none_here refl)
            | inr other ↦ rw other (sym (append-nil _))
          ]))

  module _ (socket : Option ℕ) (absent : t.routes (print sender) ≡ none)
      (offered : offer ≡ some socket) (unused : IsUnused socket t) where
    new-sender : Grows (print sender)
    unfolding react spoken_now bind
    new-sender =
        rw (absent, react)
          (rw (offered, pass_up)
            (rw (bytes_eq_refl (print sender))
              (written_on_self socket bytes t.up ∙ ap (λ l. l ++ bytes) unused.unwritten)))

    new-other : (k : Bytes) → bytes_eq (print sender) k ≡ false → Grows k
    unfolding react spoken_now bind
    new-other k other =
        rw (absent, react)
          (rw (offered, pass_up)
            (rw other (elim (Option-cases (t.routes k)) [
              | inl e ↦ rw e refl
              | inr (s, e) ↦ rw e (
                  written_on_other s.socket socket bytes t.up (unused.unrouted k s e)
                  ∙ sym (append-nil _))
            ])))

  arrival-so_far : (k : Bytes) → IsSeparate t → IsFresh (arrival bytes sender offer) t → Grows k
  unfolding IsFresh
  arrival-so_far k apart fresh = elim (Option-cases (t.routes (print sender))) [
    | inr (r, found) ↦ by_key k (known-sender r found) (known-other r k found apart)
    | inl absent ↦ elim (Option-cases offer) [
      | inl refused ↦ refused-sender k absent refused
      | inr (socket, offered) ↦
          let unused : IsUnused socket t =
            subst (λ o. IsFresh (arrival bytes sender o) t) offered fresh absent in
          by_key k (new-sender socket absent offered unused)
            (new-other socket absent offered unused k)
    ]
  ]

  arrival-IsSeparate : IsSeparate t → IsFresh (arrival bytes sender offer) t → IsSeparate after
  unfolding react IsFresh
  arrival-IsSeparate apart fresh = elim (Option-cases (t.routes (print sender))) [
    | inr (r, found) ↦ rw (found, react) (record { separate = apart.separate })
    | inl absent ↦ elim (Option-cases offer) [
      | inl refused ↦ rw (absent, react) (rw (refused, pass_up) apart)
      | inr (socket, offered) ↦
          let unused : IsUnused socket t =
            subst (λ o. IsFresh (arrival bytes sender o) t) offered fresh absent in
          rw (absent, react)
            (rw (offered, pass_up)
              (record { separate = (bind-IsSeparate sender socket t apart unused).separate }))
    ]
  ]

answer-so_far :
    (key bytes : Bytes) (t : Relay) (k : Bytes)
    → so_far ((react (answer key bytes) t).routes k) (react (answer key bytes) t).up
      ≡ so_far (t.routes k) t.up ++ []
unfolding react
answer-so_far key bytes t k = elim (Option-cases (t.routes key)) [
  | inl absent ↦ rw (absent, react) (sym (append-nil _))
  | inr (r, found) ↦ rw (found, react) (sym (append-nil _))
]

answer-IsSeparate :
    (key bytes : Bytes) (t : Relay) → IsSeparate t → IsSeparate (react (answer key bytes) t)
unfolding react
answer-IsSeparate key bytes t apart = elim (Option-cases (t.routes key)) [
  | inl absent ↦ rw (absent, react) apart
  | inr (r, found) ↦ rw (found, react) (record { separate = apart.separate })
]

react-so_far :
    (i : Input) (t : Relay) (k : Bytes)
    → IsSeparate t
    → IsFresh i t
    → so_far ((react i t).routes k) (react i t).up ≡ so_far (t.routes k) t.up ++ spoken_now k i t
unfolding react spoken_now
react-so_far (arrival bytes sender offer) t k apart fresh =
    arrival-so_far bytes sender offer t k apart fresh
react-so_far (answer key bytes) t k apart fresh = answer-so_far key bytes t k
react-so_far idle t k apart fresh = sym (append-nil _)

react-IsSeparate : (i : Input) (t : Relay) → IsSeparate t → IsFresh i t → IsSeparate (react i t)
unfolding react
react-IsSeparate (arrival bytes sender offer) t apart fresh =
    arrival-IsSeparate bytes sender offer t apart fresh
react-IsSeparate (answer key bytes) t apart fresh = answer-IsSeparate key bytes t apart
react-IsSeparate idle t apart fresh = apart

-- The bytes on the connection of a sender are those that were there before, and then its own of all
-- the inputs, in order.
pub react_all-so_far :
    (is : List Input) (t : Relay) (k : Bytes)
    → IsSeparate t
    → AreFresh is t
    → so_far ((react_all is t).routes k) (react_all is t).up
      ≡ so_far (t.routes k) t.up ++ spoken k is t
unfolding react_all AreFresh spoken
react_all-so_far [] t k apart fresh = sym (append-nil _)
react_all-so_far (i ∷ is) t k apart (now, later) =
    react_all-so_far is (react i t) k (react-IsSeparate i t apart now) later
    ∙ ap (λ l. l ++ spoken k is (react i t)) (react-so_far i t k apart now)
    ∙ append_assoc (so_far (t.routes k) t.up) (spoken_now k i t) (spoken k is (react i t))
