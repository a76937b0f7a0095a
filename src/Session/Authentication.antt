-- ===== src/Session/Authentication.antt =====
-- `authentication` of sata/sata_main.c: the device's side of the encrypted key exchange, a state
-- machine that each host command drives.
use crypto_jasmine.Base.{
  ℕ, zero, suc, ◌+◌, ◌-◌, ◌*◌, ◌/◌, ◌%◌, Bool, true, false, ◌&&◌, Option, none, some, List, [], ◌∷◌,
  ◌++◌, ltb, ◌==◌, if◌then◌else◌, get_or, length, take, replicate, ◌>>=◌, store, overwrite,
}
use crypto_jasmine.Base.Geometry.{bytes_per_sector}
use crypto_jasmine.Eke.{generator, powmodp, randomint64, md5_hash}
use crypto_jasmine.Session.State.{
  SystemState, sys_initial_state, sys_not_authenticated, sys_authenticated, AuthenticationState,
  auth_initial_state, auth_got_user_key, auth_server_key_challange_was_sent,
  auth_got_user_challenge, auth_authentication_finished, auth_invalid_state, MsgToUserState,
  msg_ready, msg_invalid_state, Cmd, CmdType, read, write, Env, Session, start_interval_measurement,
}
use crypto_jasmine.Session.Buffers.{get_data, send_data, bad_read, decrypt_buffer, encrypt_buffer}

-- `username` and `password`
abbrev pub username : List ℕ
username = b'u' ∷ b's' ∷ b'e' ∷ b'r' ∷ []

abbrev pub password : List ℕ
password = b'1' ∷ b'2' ∷ b'3' ∷ b'4' ∷ b'5' ∷ b'6' ∷ b'7' ∷ b'8' ∷ []

-- The 21 characters of "Msg is not ready! ..?".
abbrev pub not_ready : List ℕ
not_ready =
    b'M' ∷ b's' ∷ b'g' ∷ b' ' ∷ b'i' ∷ b's' ∷ b' ' ∷ b'n' ∷ b'o' ∷ b't' ∷ b' ' ∷ b'r' ∷ b'e' ∷ b'a'
    ∷ b'd' ∷ b'y' ∷ b'!' ∷ b' ' ∷ b'.' ∷ b'.' ∷ b'?' ∷ []

-- The depth that `pow_mod_p` reaches on a 64-bit exponent.
abbrev pub pow_depth : ℕ
pow_depth = 64

-- `strchr(msg, c) - msg`, for a `c` other than NUL
unfoldable pub strchr : List ℕ → ℕ → Option ℕ
strchr [] c = none
strchr (x ∷ xs) c =
    if x == c then some 0 else if x == 0 then none else (strchr xs c >>= λ n. some (suc n))

-- The characters before the first NUL.
unfoldable pub c_string : List ℕ → List ℕ
c_string [] = []
c_string (x ∷ xs) = if x == 0 then [] else x ∷ c_string xs

-- `strcmp(a, b) == 0`
unfoldable pub same_string : List ℕ → List ℕ → Bool
same_string [] [] = true
same_string [] (y ∷ ys) = false
same_string (x ∷ xs) [] = false
same_string (x ∷ xs) (y ∷ ys) = (x == y) && same_string xs ys

-- A `uint64_t` in memory, lowest byte first, and 8 bytes read as one.
unfoldable pub bytes64_from : ℕ → ℕ → List ℕ
bytes64_from zero n = []
bytes64_from (suc k) n = n % 256 ∷ bytes64_from k (n / 256)

unfoldable pub bytes64 : ℕ → List ℕ
unfolding bytes64_from
bytes64 n = bytes64_from 8 n

unfoldable pub word64_of : List ℕ → ℕ
word64_of [] = 0
word64_of (b ∷ bs) = b + 256 * word64_of bs

unfoldable pub word64 : List ℕ → ℕ
unfolding word64_of
word64 bs = word64_of (take 8 bs)

-- A 64-byte array that holds a `uint64_t` in its first bytes and zeros behind it.
unfoldable pub padded : ℕ → List ℕ
unfolding bytes64
padded n = overwrite (replicate 64 0) 0 (bytes64 n)

-- `n` bytes of memory from index `i` of the array `msg` on, also beyond its end.
unfoldable pub bytes_from : (ℕ → ℕ) → List ℕ → ℕ → ℕ → List ℕ
bytes_from past msg i zero = []
bytes_from past msg i (suc n) =
    (if ltb i (length msg) then get_or msg i 0 else past (i - length msg))
    ∷ bytes_from past msg (i + 1) n

-- `memset(msg, 0, sizeof(msg))`
unfoldable pub empty_msg : List ℕ
empty_msg = replicate bytes_per_sector 0

-- `currSysState` after the first command of a key exchange.
abbrev pub leave_initial : SystemState → SystemState
leave_initial sys_initial_state = sys_not_authenticated
leave_initial sys_not_authenticated = sys_not_authenticated
leave_initial sys_authenticated = sys_authenticated

-- The message of a reply: `msgToUser`, overwritten if it is not ready.
unfoldable pub outgoing : MsgToUserState → List ℕ → List ℕ
outgoing msg_ready msg = msg
outgoing msg_invalid_state msg = overwrite msg 0 not_ready

module _ (env : Env) (Store : Type 0) where
  open env use {md5, Aes, rand, past_msg_to_user, past_msg}

  -- The challenge and the reply, once the keys are there: the challenge under the session key, and
  -- the public key of the device under the hash of the password.
  unfoldable pub challenge_user :
      (random server_public key calls : ℕ) → Aes → Session Store Aes → Session Store Aes
  challenge_user random server_public key calls aes s =
      let (challenge, calls) = randomint64 rand calls in
      let (first, aes) = encrypt_buffer env (padded challenge) (padded key) aes in
      let (second, aes) = encrypt_buffer env (padded server_public) (md5_hash md5 password 8) aes in
      record s {
        server_random = random;
        server_symetric_key = key;
        server_challenge = challenge;
        msg_to_user = overwrite (overwrite (s.msg_to_user) 0 first) 64 second;
        curr_msg_state = msg_ready;
        curr_auth_state = auth_got_user_key;
        aes = aes;
        rand_calls = calls;
      }

  -- The part of AUTH_INITIAL_STATE for a known user name: the host's public key is behind index `i`
  -- of `msg`.
  unfoldable pub accept_user_key : List ℕ → ℕ → Session Store Aes → Option (Session Store Aes)
  accept_user_key msg i s =
      let (result, aes) =
        decrypt_buffer env (bytes_from past_msg msg i 64) (md5_hash md5 password 8) s.aes in
      let user_public : ℕ = word64 result in
      let (random, calls) = randomint64 rand s.rand_calls in
      do
        server_public ← powmodp pow_depth generator random
        key ← powmodp pow_depth user_public random
        some (challenge_user random server_public key calls aes s)

  -- A WRITE to sector 102 in AUTH_INITIAL_STATE. Without a '|' in the message the code writes
  -- through a null pointer.
  unfoldable pub receive_user_key : ℕ → Session Store Aes → Option (Session Store Aes)
  receive_user_key lba s = do
    (msg, s) ←
        get_data lba empty_msg bytes_per_sector
          (record s { curr_sys_state = leave_initial (s.curr_sys_state) })
    bar ← strchr msg b'|'
    msg ← store msg bar 0
    if same_string (c_string msg) username then accept_user_key msg (bar + 1) s else some s

  -- A reply to a READ of sector 96: `msgToUser`, and the bytes behind it that are sent with it.
  unfoldable pub send_msg_to_user : List ℕ → Session Store Aes → Session Store Aes
  send_msg_to_user more s =
      let msg : List ℕ = outgoing (s.curr_msg_state) (s.msg_to_user) in
      let s : Session Store Aes = send_data (msg ++ more) (record s { msg_to_user = msg }) in
      record s { curr_msg_state = msg_invalid_state }

  -- A WRITE where a READ is expected: the data is taken off the write buffer and dropped.
  unfoldable pub drop_write : ℕ → Session Store Aes → Option (Session Store Aes)
  drop_write lba s = do
    (msg, s) ← get_data lba empty_msg bytes_per_sector s
    some (record s { curr_auth_state = auth_initial_state })

  -- A WRITE to sector 102 in AUTH_SERVER_KEY_CHALLANGE_WAS_SENT.
  unfoldable pub receive_challenge_ack : ℕ → Session Store Aes → Option (Session Store Aes)
  receive_challenge_ack lba s = do
    (msg, s) ← get_data lba empty_msg bytes_per_sector s
    let key = padded (s.server_symetric_key)
    let (result, aes) = decrypt_buffer env (bytes_from past_msg msg 0 64) key s.aes
    let part2 = bytes_from past_msg msg 64 64
    if s.server_challenge == word64 result
        then some (record s {
          aes = (decrypt_buffer env part2 key aes).1;
          msg_to_user = overwrite (s.msg_to_user) 0 part2;
          curr_msg_state = msg_ready;
          curr_auth_state = auth_got_user_challenge;
        })
        else some (record s { aes = aes; curr_auth_state = auth_initial_state })

  -- A READ of sector 96 in AUTH_GOT_USER_CHALLENGE: the session is authenticated.
  unfoldable pub finish : Session Store Aes → Session Store Aes
  finish s =
      let s : Session Store Aes = send_msg_to_user [] s in
      record s {
        curr_auth_state = auth_authentication_finished;
        curr_sys_state = sys_authenticated;
        timer_flag = true;
        log = start_interval_measurement ∷ s.log;
      }

  -- One case of the `switch`, by the state and the type of the command.
  unfoldable pub dispatch :
      AuthenticationState → CmdType → ℕ → Session Store Aes → Option (Session Store Aes)
  dispatch auth_initial_state read lba s = some (bad_read lba s)
  dispatch auth_initial_state write lba s = if lba == 102 then receive_user_key lba s else some s
  dispatch auth_got_user_key read lba s =
      if lba == 96
      then (let s : Session Store Aes = send_msg_to_user (past_msg_to_user ∷ []) s in
          some (record s { curr_auth_state = auth_server_key_challange_was_sent }))
      else some s
  dispatch auth_got_user_key write lba s = drop_write lba s
  dispatch auth_server_key_challange_was_sent read lba s = some (bad_read lba s)
  dispatch auth_server_key_challange_was_sent write lba s =
      if lba == 102 then receive_challenge_ack lba s else some s
  dispatch auth_got_user_challenge read lba s = if lba == 96 then some (finish s) else some s
  dispatch auth_got_user_challenge write lba s = drop_write lba s
  dispatch auth_authentication_finished _ lba s = some s
  dispatch auth_invalid_state _ lba s = some s

  unfoldable pub authentication : Cmd → Session Store Aes → Option (Session Store Aes)
  authentication cmd s = dispatch (s.curr_auth_state) cmd.cmd_type cmd.lba s
