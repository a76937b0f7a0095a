-- ===== src/Session/Tests.antt =====
-- sata/sata_main.c on concrete hosts, with a cipher that changes nothing, and the theorems there.
use crypto_jasmine.Base.{
  ℕ, ◌+◌, ◌-◌, ◌*◌, ◌^◌, ◌≡◌, refl, Bool, true, false, Option, none, some, List, [], ◌∷◌, ◌++◌,
  replicate, get_or,
}
use crypto_jasmine.Base.Geometry.{wr_buf_ptr, bytes_per_sector}
use crypto_jasmine.Eke.{Md5, mul_mod_p, powmodp, randomint64, md5_hash}
use crypto_jasmine.Session.State.{
  sys_initial_state, sys_not_authenticated, sys_authenticated, auth_initial_state,
  auth_got_user_key, auth_server_key_challange_was_sent, auth_got_user_challenge, msg_invalid_state,
  Env, Ftl, Session, slow_cmd_status_none,
}
use crypto_jasmine.Session.Buffers.{
  get_data, get_string, copy_string, send_data, bad_read, write_bytes, decrypt_buffer,
  encrypt_buffer,
}
use crypto_jasmine.Session.Authentication.{
  challenge_user, accept_user_key, receive_user_key, send_msg_to_user, outgoing, drop_write,
  receive_challenge_ack, finish, dispatch, authentication, empty_msg, word64, bytes64, bytes_from,
  padded, strchr, same_string, c_string,
}
use crypto_jasmine.Session.MainLoop.{
  Event, Input, eventq_cmd, eventq_get, check_timeout, disk_read, disk_write, serve_read,
  serve_write, serve_authenticated, serve_initial, serve_after, serve_unauthenticated, serve,
  slow_round, round, main_round, authorization, elapsed,
}
use crypto_jasmine.Session.Runs.{Run, boot, next, HasAck, run-authenticated}

abbrev pub md5 : Md5
md5 = record { Ctx = List ℕ; init = []; update = λ c xs. c ++ xs; final = λ c. c }

-- `rand` gives 0x0101, 0x0202, ..., so that no byte of the device's secrets is zero.
abbrev pub env : Env
env = record {
  md5 = md5;
  Aes = Unit {0};
  encrypt = λ input key iv a. (input, a);
  decrypt = λ input key a. (input, a);
  rand = λ n. 0x0101 * (n + 1);
  past_msg_to_user = 0xee;
  past_msg = λ n. 0xdd;
}

-- A store that counts the calls.
abbrev pub ftl : Ftl
ftl = record {
  Store = ℕ;
  ftl_read = λ lba n d. record d { store = d.store + 1 };
  ftl_write = λ lba n d. record d { store = d.store + 1000 };
  search_ata_function = λ code lba n d. record d { store = d.store + 100_000 };
}

abbrev pub booted : Session ℕ (Unit {0})
booted = record {
  curr_sys_state = sys_initial_state;
  curr_auth_state = auth_initial_state;
  curr_msg_state = msg_invalid_state;
  timer_flag = false;
  not_authorized_flag = false;
  command_counter = 2750;
  msg_to_user = replicate 128 0;
  server_random = 0;
  server_symetric_key = 0;
  server_challenge = 0;
  slow_cmd = record { status = slow_cmd_status_none; code = 0; lba = 0; sector_count = 0 };
  eq_full = false;
  disk = record { store = 0; ftl_read_buf_id = 0; ftl_write_buf_id = 0 };
  aes = tt;
  rand_calls = 0;
  dram = λ a. 0;
  log = [];
}

-- A message for sector 102, in the write buffer `id`.
abbrev pub host_writes : ℕ → List ℕ → ℕ → ℕ
host_writes id msg a = get_or msg (a - (wr_buf_ptr id + 38 * bytes_per_sector)) 0

abbrev pub event : ℕ → (ℕ → ℕ) → Event
event data_1 dram = record {
  eq_data_0 = 2 ^ 16;
  eq_data_1 = data_1;
  phy_status = 0;
  action_flags = 0;
  dram = dram;
}

-- The four commands of a host with the secret 1, whose public key is 5.
abbrev pub input : ℕ → (ℕ → ℕ) → Input
input data_1 dram = record { timer = 0xffff_ffff; event = some (event data_1 dram) }

abbrev pub hello : Input
hello = input (2 ^ 31 + 102) (host_writes 0 (b'u' ∷ b's' ∷ b'e' ∷ b'r' ∷ b'|' ∷ 5 ∷ []))

abbrev pub ask : Input
ask = input 96 (λ a. 0)

-- The challenge is 0x0505060607070808.
abbrev pub answer : Input
answer = input (2 ^ 31 + 102) (host_writes 1 (8 ∷ 8 ∷ 7 ∷ 7 ∷ 6 ∷ 6 ∷ 5 ∷ 5 ∷ []))

abbrev pub or_same : {A : Type 0} → A → Option A → A
or_same a none = a
or_same a (some b) = b

-- One round, at an input where it has a result.
unfoldable pub after : Input → Session ℕ (Unit {0}) → Session ℕ (Unit {0})
unfolding main_round round check_timeout elapsed eventq_get eventq_cmd serve serve_authenticated
    serve_read serve_write authorization disk_read disk_write serve_unauthenticated serve_after
    serve_initial authentication dispatch bad_read receive_user_key accept_user_key challenge_user
    send_msg_to_user outgoing drop_write receive_challenge_ack finish get_data get_string
    copy_string send_data write_bytes decrypt_buffer encrypt_buffer empty_msg word64 bytes64
    bytes_from padded strchr same_string c_string powmodp mul_mod_p randomint64 md5_hash slow_round
after i s = or_same s (main_round env ftl i s)

-- Whether the round has a result.
pub defined : Input → Session ℕ (Unit {0}) → Bool
unfolding after
defined i s = elim (main_round env ftl i s) [ none ↦ false | some _ ↦ true ]

or_same-defined :
    {A : Type 0} (a : A) (o : Option A)
    → elim o [ none ↦ false | some _ ↦ true ] ≡ true
    → o ≡ some (or_same a o)
or_same-defined a none h = cc
or_same-defined a (some b) h = refl

pub round-after :
    (i : Input) (s : Session ℕ (Unit {0}))
    → defined i s ≡ true
    → main_round env ftl i s ≡ some (after i s)
unfolding after defined
round-after i s h = or_same-defined s (main_round env ftl i s) h

unfoldable pub s₁ : Session ℕ (Unit {0})
unfolding after
s₁ = after hello booted

unfoldable pub s₂ : Session ℕ (Unit {0})
unfolding s₁
s₂ = after ask s₁

unfoldable pub s₃ : Session ℕ (Unit {0})
unfolding s₂
s₃ = after answer s₂

unfoldable pub s₄ : Session ℕ (Unit {0})
unfolding s₃
s₄ = after ask s₃

pub states :
    (s₁.curr_auth_state ≡ auth_got_user_key)
    × (s₂.curr_auth_state ≡ auth_server_key_challange_was_sent)
    × (s₃.curr_auth_state ≡ auth_got_user_challenge)
    × (s₄.curr_sys_state ≡ sys_authenticated)
unfolding s₄
states = (refl, refl, refl, refl)

pub defined₁ : defined hello booted ≡ true
unfolding defined
defined₁ = refl

pub defined₂ : defined ask s₁ ≡ true
unfolding defined s₁
defined₂ = refl

pub defined₃ : defined answer s₂ ≡ true
unfolding defined s₂
defined₃ = refl

pub defined₄ : defined ask s₃ ≡ true
unfolding defined s₃
defined₄ = refl

run₄ : Run env ftl booted s₄
unfolding s₄
run₄ =
    next ask
      (next answer
        (next ask (next hello boot (round-after hello booted defined₁))
          (round-after ask s₁ defined₂))
        (round-after answer s₂ defined₃))
      (round-after ask s₃ defined₄)

run-authenticated_example : HasAck env ftl run₄
run-authenticated_example = run-authenticated env ftl refl refl run₄ (states.3)

pub locked₁ : s₁.curr_sys_state ≡ sys_not_authenticated
unfolding s₁ mul_mod_p
locked₁ = refl
