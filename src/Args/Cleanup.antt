-- ===== src/Args/Cleanup.antt =====
-- When the check of a port runs a command, and which.
use tcp_udp.Base.{
  ℕ, suc, ◌≡◌, refl, ap, ◌∙◌, ◌⊎◌, inl, inr, Bool, true, false, ◌&&◌, not, some, List, [], ◌∷◌,
  ◌++◌, append-nil, Bool-cases,
}
use tcp_udp.Base.Int.{pos, ltb_ℤ, eqb_ℤ}
use tcp_udp.Std.Text.{Bytes}
use tcp_udp.Common.Endpoint.{Endpoint, from_string}
use tcp_udp.Sys.Exec.{ok, continue}
use tcp_udp.Sys.World.{World, Os, Call, Reply, ask, log, socket_open, socket_bind, shell}
use tcp_udp.Sys.Trace.{observe, observe-snoc}
use tcp_udp.Args.PortCleanup.{
  is_port_in_use, kill_process_on_port, kill_command, clean_up, log_port_status,
  check_and_cleanup_port,
}

-- The commands that are run.
abbrev pub command : Call → Reply → List Bytes
command (shell c) r = c ∷ []
command _ r = []

abbrev pub commands : List (Call × Reply) → List Bytes
commands = observe command

module _ (os : Os) (w : World) (port : ℕ) where
  abbrev pub opened : Reply
  opened = os.reply w.time socket_open

  abbrev pub bound : Reply
  bound = os.reply (suc (suc w.time)) (socket_bind opened.value port)

  -- A descriptor was given, and binding it failed.
  abbrev pub taken : Bool
  taken = not (ltb_ℤ opened.value (pos 0)) && not (eqb_ℤ bound.value (pos 0))

  is_port_in_use_lem :
      ((is_port_in_use os port w).0 ≡ ok taken)
      × (commands (is_port_in_use os port w).1.calls ≡ commands w.calls)
  unfolding is_port_in_use ask log log_port_status
  is_port_in_use_lem = elim (Bool-cases (ltb_ℤ opened.value (pos 0))) [
    | inl e ↦ rw e (refl, simp (observe-snoc, append-nil))
    | inr e ↦ elim (Bool-cases (eqb_ℤ bound.value (pos 0))) [
      | inl f ↦ rw e (rw f (refl, simp (observe-snoc, append-nil)))
      | inr f ↦ rw e (rw f (refl, simp (observe-snoc, append-nil)))
    ]
  ]

  kill_lem :
      (v : World)
      → let r = os.reply v.time (shell (kill_command port)) in
        let k = kill_process_on_port os port v in
        (k.0 ≡ ok (eqb_ℤ r.value (pos 0)))
        × (commands k.1.calls ≡ commands v.calls ++ kill_command port ∷ [])
  unfolding kill_process_on_port ask log
  kill_lem v =
      elim (Bool-cases (eqb_ℤ (os.reply v.time (shell (kill_command port))).value (pos 0))) [
        | inl e ↦ rw e (refl, simp observe-snoc)
        | inr e ↦ rw e (refl, simp observe-snoc)
      ]

  -- The world behind the check.
  abbrev checked : World
  checked = (is_port_in_use os port w).1

module _ (os : Os) (w : World) (response endpoint : Bytes) (ep : Endpoint) where
  -- The port of the endpoint is tried. Where it can be bound, or no descriptor is given, the result is
  -- true and no command is run. Where it cannot be bound, the one command that kills every process
  -- that `lsof` lists for the port is run, whatever the user would answer, and the result says
  -- whether the command succeeded.
  pub check_and_cleanup_port_lem :
      from_string endpoint ≡ some ep
      → let r = check_and_cleanup_port os response endpoint w in
        ((taken os w ep.port ≡ false)
          × (r.0 ≡ ok (some true))
          × (commands r.1.calls ≡ commands w.calls))
        ⊎ ((taken os w ep.port ≡ true)
            × (commands r.1.calls ≡ commands w.calls ++ kill_command ep.port ∷ [])
            × ((t : ℕ) × (r.0
                  ≡ ok (some (eqb_ℤ (os.reply t (shell (kill_command ep.port))).value (pos 0))))))
  unfolding check_and_cleanup_port clean_up log log_port_status
  check_and_cleanup_port_lem named =
      let (gave, none_run) = is_port_in_use_lem os w ep.port in
      let v = checked os w ep.port in
      elim (Bool-cases (taken os w ep.port)) [
        | inr free ↦ inl (
          free,
          rw (named, check_and_cleanup_port) (rw (gave, continue) (rw free refl)),
          rw (named, check_and_cleanup_port) (rw (gave, continue) (rw free none_run)),
        )
        | inl busy ↦
            let noted = (log_port_status ep.port true v).1 in
            let (killed, ran) = kill_lem os w ep.port noted in
            inr (
              busy,
              rw (named, check_and_cleanup_port)
                  (rw (gave, continue)
                    (rw (busy, killed, continue)
                      (ran ∙ ap (λ l. l ++ kill_command ep.port ∷ []) none_run))),
              (
                noted.time,
                rw (named, check_and_cleanup_port)
                    (rw (gave, continue) (rw (busy, killed, continue) refl)),
              ),
            )
      ]
