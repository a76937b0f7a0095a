-- ===== src/Session/MainLoop.antt =====
-- `authorization`, the event queue and the rounds of `Main` of sata/sata_main.c.
use crypto_jasmine.Base.{
  ℕ, ◌+◌, ◌*◌, ◌/◌, ◌%◌, ◌^◌, Bool, true, false, ◌&&◌, Option, none, some, List, [], ◌∷◌, ltb, ◌==◌,
  if◌then◌else◌, ◌>>=◌,
}
use crypto_jasmine.Base.Words.{sub32, u32_mod}
use crypto_jasmine.Base.Geometry.{sectors_per_page, get_num_bank, bytes_per_sector}
use crypto_jasmine.Session.State.{
  SystemState, sys_initial_state, sys_not_authenticated, sys_authenticated, auth_initial_state,
  AuthorizationAction, auth_read, auth_write, Cmd, CmdType, read, write, Env, Ftl, Session,
  ftl_read, ftl_write, ata_function, set_reg, sata_ctrl_2, SlowStatus, slow_cmd_status_none,
  slow_cmd_status_pending, slow_cmd_status_busy, SlowCmd,
}
use crypto_jasmine.Session.Buffers.{get_data, send_data}
use crypto_jasmine.Session.Authentication.{authentication}

abbrev pub read_permissions : ℕ
read_permissions = 17

abbrev pub write_permissions : ℕ
write_permissions = 18

abbrev pub auth_session_timeout : ℕ
auth_session_timeout = 60

-- `permissions & (1 << bank)`
abbrev pub test_bit : ℕ → ℕ → Bool
test_bit x k = x / 2 ^ k % 2 == 1

unfoldable pub authorization : ℕ → AuthorizationAction → Bool
authorization bank auth_read = test_bit read_permissions bank
authorization bank auth_write = test_bit write_permissions bank

-- TIMER_PRESCALE_1 and PRESCALE_TO_DIV of include/peri.h.
abbrev pub timer_prescale_1 : ℕ
timer_prescale_1 = 1 * 2 ^ 2

abbrev pub prescale_to_div : ℕ → ℕ
prescale_to_div val = if val == 0 then 1 else if val == 1 then 16 else 256

abbrev pub clock_speed : ℕ
clock_speed = 175000000

-- `rtime`, from the value of the timer
unfoldable pub elapsed : ℕ → ℕ
elapsed timer =
    sub32 0xffff_ffff timer
    * 2
    * 1000000
    * prescale_to_div timer_prescale_1
    / clock_speed
    % u32_mod
    / 10000000

-- The data registers of the event queue, the registers that `eventq_get` reads beside them, and the
-- DRAM after the host's transfer.
pub record Event : Type 0 where
  pub eq_data_0 : ℕ
  pub eq_data_1 : ℕ
  pub phy_status : ℕ
  pub action_flags : ℕ
  pub dram : ℕ → ℕ

-- `g_sata_context.eq_full` is reset; a link that is up gets the action flags.
unfoldable pub eventq_cmd : Event → Cmd
eventq_cmd e =
    let count : ℕ = e.eq_data_0 / 2 ^ 16 in
    record {
      lba = e.eq_data_1 % 2 ^ 30;
      sector_count = if count == 0 then 0x10000 else count;
      cmd_type = if e.eq_data_1 / 2 ^ 31 == 0 then read else write;
    }

-- The characters of "NOT_AUTHORIZED" and of "SUCCESS", each with its NUL.
abbrev pub not_authorized : List ℕ
not_authorized =
    b'N' ∷ b'O' ∷ b'T' ∷ b'_' ∷ b'A' ∷ b'U' ∷ b'T' ∷ b'H' ∷ b'O' ∷ b'R' ∷ b'I' ∷ b'Z' ∷ b'E' ∷ b'D'
    ∷ 0 ∷ []

abbrev pub success : List ℕ
success = b'S' ∷ b'U' ∷ b'C' ∷ b'C' ∷ b'E' ∷ b'S' ∷ b'S' ∷ 0 ∷ []

-- What a round of the loop reads: the timer, and the event at the head of the queue, if any.
pub record Input : Type 0 where
  pub timer : ℕ
  pub event : Option Event

module _ (env : Env) (ftl : Ftl) where
  open env use {Aes}
  open ftl use {Store}

  unfoldable pub eventq_get : Event → Session Store Aes → Session Store Aes
  eventq_get e s =
      let s : Session Store Aes = record s { dram = e.dram } in
      if s.eq_full
      then (let up : Bool = e.phy_status / 2 ^ 8 % 16 == 1 && e.phy_status % 16 == 3 in
          record s {
            eq_full = false;
            log = if up then set_reg sata_ctrl_2 e.action_flags ∷ s.log else s.log;
          })
      else s

  -- The calls of the translation layer.
  unfoldable pub disk_read : Cmd → Session Store Aes → Session Store Aes
  disk_read cmd s = record s {
    disk = ftl.ftl_read cmd.lba cmd.sector_count s.disk;
    log = ftl_read cmd.lba cmd.sector_count ∷ s.log;
  }

  unfoldable pub disk_write : Cmd → Session Store Aes → Session Store Aes
  disk_write cmd s = record s {
    disk = ftl.ftl_write cmd.lba cmd.sector_count s.disk;
    log = ftl_write cmd.lba cmd.sector_count ∷ s.log;
  }

  -- The end of a session by its timer.
  unfoldable pub check_timeout : ℕ → Session Store Aes → Session Store Aes
  check_timeout timer s =
      if s.timer_flag && ltb auth_session_timeout (elapsed timer)
      then (elim (s.curr_sys_state) [
        | sys_authenticated ↦ record s {
          curr_sys_state = sys_not_authenticated;
          curr_auth_state = auth_initial_state;
          timer_flag = false;
        }
        | sys_initial_state ↦ s
        | sys_not_authenticated ↦ s
      ])
      else s

  -- A command of an authenticated host. The array `msg` of `Main` has one byte; `getData` is told
  -- that it has 512.
  unfoldable pub serve_write : Cmd → Session Store Aes → Option (Session Store Aes)
  serve_write cmd s =
      if authorization (get_num_bank (cmd.lba / sectors_per_page)) auth_write
      then some (disk_write cmd s)
      else do
        (msg, s) ←
            get_data cmd.lba (0 ∷ []) bytes_per_sector (record s { not_authorized_flag = true })
        some s

  unfoldable pub serve_read : Cmd → Session Store Aes → Session Store Aes
  serve_read cmd s =
      if cmd.lba == 96
      then (if s.not_authorized_flag
          then (let s : Session Store Aes = send_data not_authorized s in
              record s { not_authorized_flag = false })
          else send_data success s)
      else if authorization (get_num_bank (cmd.lba / sectors_per_page)) auth_read
      then disk_read cmd s
      else send_data (0 ∷ []) (record s { not_authorized_flag = true })

  unfoldable pub serve_authenticated :
      CmdType → Cmd → Session Store Aes → Option (Session Store Aes)
  serve_authenticated read cmd s = some (serve_read cmd s)
  serve_authenticated write cmd s = serve_write cmd s

  -- The access of a host before any authentication: all sectors but the two of the protocol.
  unfoldable pub serve_initial : CmdType → Cmd → Session Store Aes → Session Store Aes
  serve_initial read cmd s =
      if cmd.lba == 96 then s else if cmd.lba == 102 then s else disk_read cmd s
  serve_initial write cmd s = if cmd.lba == 102 then s else disk_write cmd s

  unfoldable pub serve_after : SystemState → Cmd → Session Store Aes → Session Store Aes
  serve_after sys_initial_state cmd s = serve_initial cmd.cmd_type cmd s
  serve_after sys_not_authenticated cmd s = s
  serve_after sys_authenticated cmd s = s

  -- A command of a host that is not authenticated: authentication starts behind the 2750 commands
  -- of a boot.
  unfoldable pub serve_unauthenticated : Cmd → Session Store Aes → Option (Session Store Aes)
  serve_unauthenticated cmd s = do
    s ← if ltb 2750 s.command_counter then authentication env Store cmd s else some s
    some (serve_after (s.curr_sys_state) cmd s)

  unfoldable pub serve : SystemState → Cmd → Session Store Aes → Option (Session Store Aes)
  serve sys_authenticated cmd s = serve_authenticated cmd.cmd_type cmd s
  serve sys_initial_state cmd s = serve_unauthenticated cmd s
  serve sys_not_authenticated cmd s = serve_unauthenticated cmd s

  -- The handler of a pending slow command runs, and leaves the status at NONE.
  unfoldable pub slow_round : SlowStatus → Session Store Aes → Session Store Aes
  slow_round slow_cmd_status_pending s =
      let c : SlowCmd = s.slow_cmd in
      record s {
        slow_cmd = record c { status = slow_cmd_status_none };
        disk = ftl.search_ata_function c.code c.lba c.sector_count s.disk;
        log = ata_function c.code c.lba c.sector_count ∷ s.log;
      }
  slow_round slow_cmd_status_none s = s
  slow_round slow_cmd_status_busy s = s

  -- A round behind its check of the timer, with the event at the head of the queue, if any.
  unfoldable pub round : Option Event → Session Store Aes → Option (Session Store Aes)
  round none s = some (slow_round (s.slow_cmd.status) s)
  round (some e) s =
      let s : Session Store Aes = eventq_get e s in
      serve (s.curr_sys_state) (eventq_cmd e) (record s { command_counter = s.command_counter + 1 })

  -- One round of the loop of `Main`.
  unfoldable pub main_round : Input → Session Store Aes → Option (Session Store Aes)
  main_round i s = round i.event (check_timeout i.timer s)
