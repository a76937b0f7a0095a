-- ===== src/Session/Rounds.antt =====
-- The rounds of `Main` of sata/sata_main.c: what each part of a round does to the stored data and to
-- the two states of the protocol.
use crypto_jasmine.Base.{
  ℕ, ◌/◌, ◌≡◌, ◌⊎◌, inl, inr, refl, arith, true, some, [], ◌∷◌, Bool-cases, >>=-eq-some,
}
use crypto_jasmine.Base.Geometry.{bytes_per_sector, sectors_per_page, get_num_bank}
use crypto_jasmine.Session.State.{
  SystemState, sys_initial_state, sys_not_authenticated, sys_authenticated, auth_initial_state, Cmd,
  CmdType, read, write, Env, Ftl, Session, auth_write, slow_cmd_status_none,
  slow_cmd_status_pending, slow_cmd_status_busy, SlowStatus, SlowCmd, Disk,
}
use crypto_jasmine.Session.Buffers.{get_data, send_data}
use crypto_jasmine.Session.MainLoop.{
  Event, eventq_get, check_timeout, disk_read, disk_write, serve_read, serve_write,
  serve_authenticated, serve_initial, serve_after, slow_round, authorization,
}
use crypto_jasmine.Session.Quiet.{Quiet, Kept, data_calls, get_data-Kept}

-- Both states of the protocol are the same.
abbrev pub SameStates : {S A : Type 0} → Session S A → Session S A → Type 0
SameStates s s' = (s'.curr_sys_state ≡ s.curr_sys_state) × (s'.curr_auth_state ≡ s.curr_auth_state)

module _ (env : Env) (ftl : Ftl) where
  open env use {Aes}
  open ftl use {Store}

  -- A session that runs out returns to the first state; nothing else changes.
  pub check_timeout-Quiet :
      (t : ℕ) (s : Session Store Aes)
      → Quiet s (check_timeout env ftl t s)
        × (SameStates s (check_timeout env ftl t s)
            ⊎ ((s.curr_sys_state ≡ sys_authenticated)
                × ((check_timeout env ftl t s).curr_sys_state ≡ sys_not_authenticated)
                × ((check_timeout env ftl t s).curr_auth_state ≡ auth_initial_state)))
  unfolding check_timeout
  check_timeout-Quiet t s = ground arith

  pub check_timeout-slow :
      (t : ℕ) (s : Session Store Aes)
      → ((check_timeout env ftl t s).slow_cmd ≡ s.slow_cmd)
        × ((check_timeout env ftl t s).disk ≡ s.disk)
  unfolding check_timeout
  check_timeout-slow t s = ground arith

  pub eventq_get-Kept : (e : Event) (s : Session Store Aes) → Kept s (eventq_get env ftl e s)
  unfolding eventq_get
  eventq_get-Kept e s = ground arith

  -- The store behind a round without an event: the handler of a pending command may change it.
  unfoldable pub slow_store : SlowStatus → SlowCmd → Disk Store → Store
  slow_store slow_cmd_status_none c d = d.store
  slow_store slow_cmd_status_busy c d = d.store
  slow_store slow_cmd_status_pending c d =
      (ftl.search_ata_function c.code c.lba c.sector_count d).store

  -- A handler makes no call of `ftl_read` or `ftl_write`, and leaves the protocol alone.
  pub slow_round-SameStates :
      (c : SlowStatus) (s : Session Store Aes)
      → SameStates s (slow_round env ftl c s)
        × (data_calls (slow_round env ftl c s).log ≡ data_calls s.log)
        × ((slow_round env ftl c s).disk.store ≡ slow_store c s.slow_cmd s.disk)
  unfolding slow_round slow_store
  slow_round-SameStates slow_cmd_status_none s = ground arith
  slow_round-SameStates slow_cmd_status_pending s = ground arith
  slow_round-SameStates slow_cmd_status_busy s = ground arith

  serve_write-SameStates :
      (c : Cmd) (s : Session Store Aes) {s' : Session Store Aes}
      → serve_write env ftl c s ≡ some s'
      → SameStates s s'
  unfolding serve_write disk_write
  serve_write-SameStates c s {s'} e =
      elim (Bool-cases (authorization (get_num_bank (c.lba / sectors_per_page)) auth_write)) [
        | inl allowed ↦ let same = rw allowed at e in ground arith
        | inr refused ↦
            let s₀ : Session Store Aes = record s { not_authorized_flag = true } in
            let ((m, s₁), got, rest) =
              >>=-eq-some (get_data c.lba (0 ∷ []) bytes_per_sector s₀) _ (rw refused at e) in
            ground (arith, get_data-Kept c.lba (0 ∷ []) bytes_per_sector s₀ got)
      ]

  serve_read-SameStates : (c : Cmd) (s : Session Store Aes) → SameStates s (serve_read env ftl c s)
  unfolding serve_read disk_read send_data
  serve_read-SameStates c s = ground arith

  pub serve_authenticated-SameStates :
      (t : CmdType) (c : Cmd) (s : Session Store Aes) {s' : Session Store Aes}
      → serve_authenticated env ftl t c s ≡ some s'
      → SameStates s s'
  unfolding serve_authenticated
  serve_authenticated-SameStates read c s e = ground (arith, serve_read-SameStates c s)
  serve_authenticated-SameStates write c s e = serve_write-SameStates c s e

  serve_initial-SameStates :
      (t : CmdType) (c : Cmd) (s : Session Store Aes) → SameStates s (serve_initial env ftl t c s)
  unfolding serve_initial disk_read disk_write
  serve_initial-SameStates read c s = ground arith
  serve_initial-SameStates write c s = ground arith

  pub serve_after-SameStates :
      (y : SystemState) (c : Cmd) (s : Session Store Aes) → SameStates s (serve_after env ftl y c s)
  unfolding serve_after
  serve_after-SameStates sys_initial_state c s = serve_initial-SameStates c.cmd_type c s
  serve_after-SameStates sys_not_authenticated c s = (refl, refl)
  serve_after-SameStates sys_authenticated c s = (refl, refl)
