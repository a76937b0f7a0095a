-- ===== src/Session/Examples.antt =====
-- The theorems on sata/sata_main.c at concrete hosts.
use crypto_jasmine.Base.{
  ℕ, ◌+◌, ◌%◌, ◌-◌, ◌/◌, ◌≤◌, ◌<◌, ◌≡◌, ◌≢◌, ◌⊎◌, ◌↔◌, refl, arith, true, false, none, some, List,
  [], ◌∷◌, replicate, ◌>>=◌,
}
use crypto_jasmine.Base.Geometry.{bytes_per_sector, get_num_bank, sectors_per_page, num_wr_buffers}
use crypto_jasmine.Session.State.{
  sys_initial_state, sys_not_authenticated, sys_authenticated, auth_server_key_challange_was_sent,
  auth_authentication_finished, Cmd, read, write, Session, auth_read, auth_write, ftl_read,
}
use crypto_jasmine.Session.Buffers.{get_data, get_string, copy_string, decrypt_buffer}
use crypto_jasmine.Session.Authentication.{word64, bytes_from, padded, empty_msg, authentication}
use crypto_jasmine.Session.Strings.{Message, sector_addr, get_data-Message}
use crypto_jasmine.Session.MainLoop.{
  serve_read, serve_write, serve_authenticated, authorization, check_timeout,
}
use crypto_jasmine.Session.Quiet.{Quiet, data_calls}
use crypto_jasmine.Session.Access.{Secluded, main_round-Quiet}
use crypto_jasmine.Session.Permissions.{
  Permitted, Granted, authorization_lem, serve_authenticated-Granted, serve_write-refused,
  serve_read-spans, check_timeout-ticks,
}
use crypto_jasmine.Session.Protocol.{exchange_challenge, write_102, read_96}
use crypto_jasmine.Session.Tests.{
  env, ftl, booted, ask, host_writes, after, s₁, round-after, defined₂, locked₁,
}

-- The read of a page of bank 0, in a session that is authenticated.
abbrev served : Session ℕ (Unit {0})
served = record booted { curr_sys_state = sys_authenticated; timer_flag = true }

main_round-Quiet_example :
    Secluded env ftl ask.event s₁ (after ask s₁)
    × ((after ask s₁).curr_sys_state ≢ sys_initial_state)
main_round-Quiet_example = main_round-Quiet env ftl ask s₁ locked₁ (round-after ask s₁ defined₂)

authorization_lem_example : (authorization 4 auth_write ≡ true) ↔ Permitted auth_write 4
authorization_lem_example = authorization_lem 4 auth_write (omega arith)

abbrev read_bank_0 : Cmd
read_bank_0 = record { lba = 512; sector_count = 100; cmd_type = read }

abbrev write_bank_0 : Cmd
write_bank_0 = record { lba = 512; sector_count = 1; cmd_type = write }

serve_authenticated-Granted_example :
    Quiet served (serve_read env ftl read_bank_0 served)
    ⊎ Granted env ftl read read_bank_0 served (serve_read env ftl read_bank_0 served)
unfolding serve_authenticated
serve_authenticated-Granted_example =
    serve_authenticated-Granted env ftl read read_bank_0 served refl

serve_write-refused_example : serve_write env ftl write_bank_0 served ≡ none
unfolding authorization
serve_write-refused_example = serve_write-refused env ftl write_bank_0 served refl

serve_read-spans_example :
    (data_calls (serve_read env ftl read_bank_0 served).log ≡ ftl_read 512 100 ∷ [])
    × ((sector : ℕ) × (512 ≤ sector)
        × (sector < 612)
        × (authorization (get_num_bank (sector / sectors_per_page)) auth_read ≡ false))
serve_read-spans_example =
    serve_read-spans env ftl read_bank_0 served (omega arith) refl (omega arith)

check_timeout-ticks_example :
    ((check_timeout env ftl (0xffff_ffff - 213_281_250) served).curr_sys_state
      ≡ sys_not_authenticated)
    ↔ (208_496_094 ≤ 213_281_250)
check_timeout-ticks_example = check_timeout-ticks env ftl 213_281_250 served (omega arith) refl refl

-- The device before and after it has taken a message off its write buffer.
abbrev sent : List ℕ → Session ℕ (Unit {0})
sent msg = record booted { dram = host_writes 0 msg }

abbrev taken : List ℕ → Session ℕ (Unit {0})
taken msg = record (sent msg) {
  curr_sys_state = sys_not_authenticated;
  disk = record { store = 0; ftl_read_buf_id = 0; ftl_write_buf_id = 1 };
}

abbrev first_msg : List ℕ
first_msg = b'u' ∷ b's' ∷ b'e' ∷ b'r' ∷ b'|' ∷ 5 ∷ []

abbrev bar_cut : List ℕ
bar_cut = b'u' ∷ b's' ∷ b'e' ∷ b'r' ∷ 0 ∷ 5 ∷ []

abbrev waiting : Session ℕ (Unit {0})
waiting = record (sent (7 ∷ 0 ∷ [])) {
  curr_auth_state = auth_server_key_challange_was_sent;
  server_challenge = 7;
}

abbrev answered : Session ℕ (Unit {0})
answered = record waiting { disk = record { store = 0; ftl_read_buf_id = 0; ftl_write_buf_id = 1 } }

answer_taken :
    get_data 102 empty_msg bytes_per_sector waiting ≡ some (7 ∷ replicate 511 0, answered)
unfolding get_data get_string copy_string empty_msg
answer_taken = refl

exchange_challenge_example :
    (s' : Session ℕ (Unit {0})) × ((authentication env ℕ write_102 waiting
        >>= authentication env ℕ read_96)
      ≡ some s')
    × (s'.curr_sys_state ≡ sys_authenticated)
    × (s'.curr_auth_state ≡ auth_authentication_finished)
    × (s'.timer_flag ≡ true)
unfolding decrypt_buffer word64 bytes_from padded
exchange_challenge_example =
    exchange_challenge env ℕ (7 ∷ replicate 511 0) waiting answered refl answer_taken refl

-- A host has written "user|" and a zero byte, with more behind it, to the buffer of sector 102.
abbrev typed : Session ℕ (Unit {0})
typed = record booted {
  dram =
      host_writes (booted.disk.ftl_write_buf_id)
        (b'u' ∷ b's' ∷ b'e' ∷ b'r' ∷ b'|' ∷ 0 ∷ 7 ∷ 9 ∷ []);
}

get_data-Message_example :
    (m : List ℕ) × (get_data 102 empty_msg bytes_per_sector typed
      ≡ some (
        m,
        record typed {
          disk = record (typed.disk) {
            ftl_write_buf_id = (typed.disk.ftl_write_buf_id + 1) % num_wr_buffers;
          };
        },
      ))
    × Message (λ i. typed.dram (sector_addr 102 typed.disk.ftl_write_buf_id + i)) m
get_data-Message_example = get_data-Message 102 typed
