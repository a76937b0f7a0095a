-- ===== src/Session/Access.antt =====
-- The access control of `Main` in sata/sata_main.c, over whole rounds and over runs of them.
use crypto_jasmine.Base.{
  ℕ, ◌+◌, ◌∙◌, ap, ◌≡◌, ◌≢◌, ◌⊎◌, inl, refl, arith, Option, none, some, ltb, if◌then◌else◌,
  >>=-eq-some,
}
use crypto_jasmine.Session.State.{
  SystemState, sys_initial_state, sys_not_authenticated, sys_authenticated, auth_got_user_challenge,
  Cmd, Env, Ftl, Session,
}
use crypto_jasmine.Session.Authentication.{authentication}
use crypto_jasmine.Session.MainLoop.{
  Event, Input, eventq_cmd, eventq_get, check_timeout, serve_after, serve_unauthenticated, serve,
  round, main_round,
}
use crypto_jasmine.Session.Quiet.{Quiet, data_calls, dispatch-Quiet}
use crypto_jasmine.Session.Transitions.{Acknowledged, dispatch-System, dispatch-Challenge}
use crypto_jasmine.Session.Rounds.{
  check_timeout-Quiet, check_timeout-slow, slow_store, eventq_get-Kept, slow_round-SameStates,
  serve_authenticated-SameStates, serve_after-SameStates,
}

module _ (env : Env) (ftl : Ftl) where
  open env use {Aes}
  open ftl use {Store}

  -- The state in which the command of an event is served.
  abbrev pub arrived : Event → Session Store Aes → Session Store Aes
  arrived e s =
      let s : Session Store Aes = eventq_get env ftl e s in
      record s { command_counter = s.command_counter + 1 }

  -- The state behind `authentication`, where the 2750 commands of a boot are over.
  serve_unauthenticated-split :
      (c : Cmd) (s : Session Store Aes) {s' : Session Store Aes}
      → serve_unauthenticated env ftl c s ≡ some s'
      → (s₁ : Session Store Aes) × ((s₁ ≡ s) ⊎ (authentication env Store c s ≡ some s₁))
        × (s' ≡ serve_after env ftl s₁.curr_sys_state c s₁)
  unfolding serve_unauthenticated
  serve_unauthenticated-split c s e =
      let (s₁, first, rest) =
        >>=-eq-some (if ltb 2750 s.command_counter then authentication env Store c s else some s) _
          e in
      (s₁, ground arith, ground arith)

  serve_unauthenticated-Quiet :
      (c : Cmd) (s : Session Store Aes) {s' : Session Store Aes}
      → s.curr_sys_state ≡ sys_not_authenticated
      → serve_unauthenticated env ftl c s ≡ some s'
      → Quiet s s' × (s'.curr_sys_state ≢ sys_initial_state)
  unfolding serve_after authentication
  serve_unauthenticated-Quiet c s {s'} locked e =
      let (s₁, before, after) = serve_unauthenticated-split c s e in
      ground (
        arith,
        dispatch-Quiet env Store s.curr_auth_state c.cmd_type c.lba s {s' = s₁},
        dispatch-System env Store s.curr_auth_state c.cmd_type c.lba s {s' = s₁},
      )

  -- Whatever the state of the system is, a command that is not authenticated ends in an
  -- authenticated one only from the last state of the protocol but one.
  serve_unauthenticated-System :
      (c : Cmd) (s : Session Store Aes) {s' : Session Store Aes}
      → serve_unauthenticated env ftl c s ≡ some s'
      → s'.curr_sys_state ≡ sys_authenticated
      → (s.curr_sys_state ≡ sys_authenticated) ⊎ (s.curr_auth_state ≡ auth_got_user_challenge)
  unfolding authentication
  serve_unauthenticated-System c s {s'} e a =
      let (s₁, before, after) = serve_unauthenticated-split c s e in
      ground (
        arith,
        dispatch-System env Store s.curr_auth_state c.cmd_type c.lba s {s' = s₁},
        serve_after-SameStates env ftl s₁.curr_sys_state c s₁,
      )

  serve_unauthenticated-Challenge :
      (c : Cmd) (s : Session Store Aes) {s' : Session Store Aes}
      → serve_unauthenticated env ftl c s ≡ some s'
      → s'.curr_auth_state ≡ auth_got_user_challenge
      → (s.curr_auth_state ≡ auth_got_user_challenge) ⊎ Acknowledged env Store c.lba s
  unfolding authentication
  serve_unauthenticated-Challenge c s {s'} e a =
      let (s₁, before, after) = serve_unauthenticated-split c s e in
      ground (
        arith,
        serve_after-SameStates env ftl s₁.curr_sys_state c s₁,
        dispatch-Challenge env Store s.curr_auth_state c.cmd_type c.lba s {s' = s₁} refl,
      )

  serve-Quiet :
      (y : SystemState) (c : Cmd) (s : Session Store Aes) {s' : Session Store Aes}
      → s.curr_sys_state ≡ y
      → y ≡ sys_not_authenticated
      → serve env ftl y c s ≡ some s'
      → Quiet s s' × (s'.curr_sys_state ≢ sys_initial_state)
  unfolding serve
  serve-Quiet sys_initial_state c s p q e = cc
  serve-Quiet sys_authenticated c s p q e = cc
  serve-Quiet sys_not_authenticated c s p q e = serve_unauthenticated-Quiet c s p e

  -- The store that a round without data calls leaves: if there is no event, the handler of a pending
  -- slow command may change it.
  unfoldable pub left : Option Event → Session Store Aes → Store
  unfolding slow_store
  left none s = slow_store env ftl s.slow_cmd.status s.slow_cmd s.disk
  left (some v) s = s.disk.store

  pub record Secluded (ev : Option Event) (s s' : Session Store Aes) : Type 0 where
    pub store : s'.disk.store ≡ left ev s
    pub calls : data_calls s'.log ≡ data_calls s.log

  round-Quiet :
      (ev : Option Event) (s : Session Store Aes) {s' : Session Store Aes}
      → s.curr_sys_state ≡ sys_not_authenticated
      → round env ftl ev s ≡ some s'
      → Secluded ev s s' × (s'.curr_sys_state ≢ sys_initial_state)
  unfolding round left
  round-Quiet none s locked e = ground (arith, slow_round-SameStates env ftl s.slow_cmd.status s)
  round-Quiet (some v) s {s'} locked e =
      let kept = eventq_get-Kept env ftl v s in
      ground (
        arith,
        kept,
        serve-Quiet (arrived v s).curr_sys_state (eventq_cmd v) (arrived v s) {s' = s'} refl
            (ground (arith, kept)) e,
      )

  left-checked :
      (ev : Option Event) (t : ℕ) (s : Session Store Aes)
      → left ev (check_timeout env ftl t s) ≡ left ev s
  unfolding left
  left-checked none t s =
      let (same_cmd, same_disk) = check_timeout-slow env ftl t s in rw (same_cmd, same_disk) refl
  left-checked (some v) t s = ap (λ d. d.store) (check_timeout-slow env ftl t s).1

  -- While no host is authenticated, a round of the loop makes no call of `ftl_read` or `ftl_write`,
  -- whatever the command is, and leaves the store as it is, but for what the handler of a pending slow
  -- command does to it in a round without an event; and the device does not fall back to the open
  -- state in which it boots.
  pub main_round-Quiet :
      (i : Input) (s : Session Store Aes) {s' : Session Store Aes}
      → s.curr_sys_state ≡ sys_not_authenticated
      → main_round env ftl i s ≡ some s'
      → Secluded i.event s s' × (s'.curr_sys_state ≢ sys_initial_state)
  unfolding main_round
  main_round-Quiet i s {s'} locked e =
      let s₁ = check_timeout env ftl i.timer s in
      let checked = check_timeout-Quiet env ftl i.timer s in
      let sys : s₁.curr_sys_state ≡ sys_not_authenticated = ground (arith, checked) in
      let (r, open_state) = round-Quiet i.event s₁ {s' = s'} sys e in
      (
        record {
          store = r.store ∙ left-checked i.event i.timer s;
          calls = r.calls ∙ checked.0.calls;
        },
        open_state,
      )

  -- The event of a round acknowledges the challenge that was sent.
  abbrev pub AckEvent : Option Event → Session Store Aes → Type 0
  AckEvent none s = ⊥
  AckEvent (some v) s = Acknowledged env Store (eventq_cmd v).lba (arrived v s)

  -- A round may authenticate only a session that is in the last state of the protocol but one.
  serve-System :
      (y : SystemState) (c : Cmd) (s : Session Store Aes) {s' : Session Store Aes}
      → s.curr_sys_state ≡ y
      → serve env ftl y c s ≡ some s'
      → s'.curr_sys_state ≡ sys_authenticated
      → (s.curr_sys_state ≡ sys_authenticated) ⊎ (s.curr_auth_state ≡ auth_got_user_challenge)
  unfolding serve
  serve-System sys_authenticated c s p e a = inl p
  serve-System sys_initial_state c s {s'} p e a = serve_unauthenticated-System c s e a
  serve-System sys_not_authenticated c s {s'} p e a = serve_unauthenticated-System c s e a

  serve-Challenge :
      (y : SystemState) (c : Cmd) (s : Session Store Aes) {s' : Session Store Aes}
      → serve env ftl y c s ≡ some s'
      → s'.curr_auth_state ≡ auth_got_user_challenge
      → (s.curr_auth_state ≡ auth_got_user_challenge) ⊎ Acknowledged env Store c.lba s
  unfolding serve
  serve-Challenge sys_authenticated c s {s'} e a =
      ground (arith, serve_authenticated-SameStates env ftl c.cmd_type c s {s' = s'} e)
  serve-Challenge sys_initial_state c s e a = serve_unauthenticated-Challenge c s e a
  serve-Challenge sys_not_authenticated c s e a = serve_unauthenticated-Challenge c s e a

  pub round-System :
      (ev : Option Event) (s : Session Store Aes) {s' : Session Store Aes}
      → round env ftl ev s ≡ some s'
      → s'.curr_sys_state ≡ sys_authenticated
      → (s.curr_sys_state ≡ sys_authenticated) ⊎ (s.curr_auth_state ≡ auth_got_user_challenge)
  unfolding round
  round-System none s e a = ground (arith, slow_round-SameStates env ftl s.slow_cmd.status s)
  round-System (some v) s {s'} e a = ground (
    arith,
    eventq_get-Kept env ftl v s,
    serve-System (arrived v s).curr_sys_state (eventq_cmd v) (arrived v s) {s' = s'} refl e a,
  )

  pub round-Challenge :
      (ev : Option Event) (s : Session Store Aes) {s' : Session Store Aes}
      → round env ftl ev s ≡ some s'
      → s'.curr_auth_state ≡ auth_got_user_challenge
      → (s.curr_auth_state ≡ auth_got_user_challenge) ⊎ AckEvent ev s
  unfolding round
  round-Challenge none s e a =
      inl (ground (arith, slow_round-SameStates env ftl s.slow_cmd.status s))
  round-Challenge (some v) s {s'} e a = ground (
    arith,
    eventq_get-Kept env ftl v s,
    serve-Challenge (arrived v s).curr_sys_state (eventq_cmd v) (arrived v s) {s' = s'} e a,
  )
