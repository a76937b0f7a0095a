-- ===== src/Session/State.antt =====
-- The state of sata/sata_main.c (its globals, and the static variables of `authentication`), the
-- enumerations of include/jasmine.h, and what the file calls: the AES and MD5 libraries, `rand`
-- and the translation layer.
use crypto_jasmine.Base.{ℕ, Bool, List, Option}
use crypto_jasmine.Eke.{Md5, Rand}

pub data SystemState : Type 0 where
  sys_initial_state : SystemState
  sys_not_authenticated : SystemState
  sys_authenticated : SystemState

pub data AuthenticationState : Type 0 where
  auth_initial_state : AuthenticationState
  auth_got_user_key : AuthenticationState
  auth_server_key_challange_was_sent : AuthenticationState
  auth_got_user_challenge : AuthenticationState
  auth_authentication_finished : AuthenticationState
  auth_invalid_state : AuthenticationState

pub data MsgToUserState : Type 0 where
  msg_ready : MsgToUserState
  msg_invalid_state : MsgToUserState

pub data AuthorizationAction : Type 0 where
  auth_read : AuthorizationAction
  auth_write : AuthorizationAction

-- `cmd_type`, one bit
pub data CmdType : Type 0 where
  read : CmdType
  write : CmdType

-- `CMD_T`
pub record Cmd : Type 0 where
  pub lba : ℕ
  pub sector_count : ℕ
  pub cmd_type : CmdType

pub data Register : Type 0 where
  sata_rbuf_ptr : Register
  bm_stack_rdset : Register
  bm_stack_reset : Register
  sata_ctrl_2 : Register

-- What the rest of the device sees, newest first in a log: the calls of the translation layer, of a
-- slow command's handler and of the timer, a reply that `sendData` puts into a read buffer, and the
-- writes to registers.
pub data Effect : Type 0 where
  ftl_read : (lba sector_count : ℕ) → Effect
  ftl_write : (lba sector_count : ℕ) → Effect
  ata_function : (code lba sector_count : ℕ) → Effect
  start_interval_measurement : Effect
  set_reg : Register → ℕ → Effect

-- The AES and MD5 libraries, and the memory behind two arrays. `encrypt` is
-- `AES128_CBC_encrypt_buffer` on a whole input; `decrypt` is `AES128_CBC_decrypt_buffer` on one
-- block, with a key and an initial vector, or (`none`) with those and the previous block that the
-- library keeps in its static state `Aes`.
pub record Env : Type 1 where
  pub md5 : Md5
  pub Aes : Type 0
  pub encrypt : (input key iv : List ℕ) → Aes → List ℕ × Aes
  pub decrypt : (input : List ℕ) → Option (List ℕ × List ℕ) → Aes → List ℕ × Aes
  pub rand : Rand
  -- the byte behind `msgToUser`, and the bytes behind the local array `msg` of `authentication`
  pub past_msg_to_user : ℕ
  pub past_msg : ℕ → ℕ

-- The translation layer, and the buffer numbers that it shares with this file.
pub record Disk (Store : Type 0) : Type 0 where
  pub store : Store
  pub ftl_read_buf_id : ℕ
  pub ftl_write_buf_id : ℕ

-- `search_ata_function` is for the handler of a slow command (ftl_flush, for one), which works on the
-- translation layer, too.
pub record Ftl : Type 1 where
  pub Store : Type 0
  pub ftl_read : (lba sector_count : ℕ) → Disk Store → Disk Store
  pub ftl_write : (lba sector_count : ℕ) → Disk Store → Disk Store
  pub search_ata_function : (code lba sector_count : ℕ) → Disk Store → Disk Store

-- `slow_cmd.status`
pub data SlowStatus : Type 0 where
  slow_cmd_status_none : SlowStatus
  slow_cmd_status_pending : SlowStatus
  slow_cmd_status_busy : SlowStatus

pub record SlowCmd : Type 0 where
  pub status : SlowStatus
  pub code : ℕ
  pub lba : ℕ
  pub sector_count : ℕ

pub record Session (Store Aes : Type 0) : Type 0 where
  pub curr_sys_state : SystemState
  pub curr_auth_state : AuthenticationState
  pub curr_msg_state : MsgToUserState
  pub timer_flag : Bool
  pub not_authorized_flag : Bool
  pub command_counter : ℕ
  pub msg_to_user : List ℕ
  pub server_random : ℕ
  pub server_symetric_key : ℕ
  pub server_challenge : ℕ
  pub slow_cmd : SlowCmd
  pub eq_full : Bool
  pub disk : Disk Store
  pub aes : Aes
  -- how often `rand` was called
  pub rand_calls : ℕ
  -- the bytes of the DRAM, which the host's transfers write too
  pub dram : ℕ → ℕ
  pub log : List Effect
