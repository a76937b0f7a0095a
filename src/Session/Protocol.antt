-- ===== src/Session/Protocol.antt =====
-- The key exchange of sata/sata_main.c against a host that knows the password: it gets through.
use crypto_jasmine.Base.{
  ℕ, ◌%◌, ◌^◌, ◌<◌, ◌≡◌, refl, sym, ap, ◌∙◌, true, some, List, ◌==◌, ◌>>=◌, ==_iff, overwrite,
}
use crypto_jasmine.Base.Geometry.{bytes_per_sector}
use crypto_jasmine.Eke.{prime, powmodp, randomint64, md5_hash}
use crypto_jasmine.Eke.Agreement.{public_key, powmodp_agreement}
use crypto_jasmine.Session.State.{
  sys_authenticated, AuthenticationState, auth_got_user_key, auth_server_key_challange_was_sent,
  auth_got_user_challenge, auth_authentication_finished, msg_ready, Cmd, read, write, Env, Session,
}
use crypto_jasmine.Session.Buffers.{get_data, decrypt_buffer}
use crypto_jasmine.Session.Authentication.{
  challenge_user, accept_user_key, receive_challenge_ack, finish, dispatch, authentication,
  empty_msg, word64, bytes_from, padded, password, pow_depth,
}

-- The commands of the protocol.
abbrev pub write_102 : Cmd
write_102 = record { lba = 102; sector_count = 1; cmd_type = write }

abbrev pub read_96 : Cmd
read_96 = record { lba = 96; sector_count = 1; cmd_type = read }

module _ (env : Env) (Store : Type 0) where
  open env use {Aes, md5, rand, past_msg}

  -- What the host's public key decrypts to.
  abbrev pub received_key : List ℕ → ℕ → Session Store Aes → ℕ
  received_key msg i s =
      word64 (decrypt_buffer env (bytes_from past_msg msg i 64) (md5_hash md5 password 8) s.aes).0

  -- The device's secret of an exchange that starts in `s`.
  abbrev pub secret : Session Store Aes → ℕ
  secret s = (randomint64 rand s.rand_calls).0

  -- The device's answer to the public key of a host with the secret `x`: it has the session key that
  -- the host computes from the device's own public key.
  pub accept_user_key-key :
      (msg : List ℕ) (i x : ℕ) (s : Session Store Aes)
      → 0 < x
      → x < 2 ^ 64
      → 0 < secret s
      → secret s < 2 ^ 64
      → received_key msg i s ≡ public_key x
      → (s' : Session Store Aes) × (accept_user_key env Store msg i s ≡ some s')
        × (powmodp pow_depth (public_key (secret s)) x ≡ some s'.server_symetric_key)
        × (s'.curr_auth_state ≡ auth_got_user_key)
        × (s'.curr_msg_state ≡ msg_ready)
        × (s'.curr_sys_state ≡ s.curr_sys_state)
  unfolding accept_user_key challenge_user
  accept_user_key-key msg i x s hx bx hr br e =
      let (gx, gr, key, keyv) = powmodp_agreement pow_depth x (secret s) hx hr bx br in
      (
        challenge_user env Store (secret s) (public_key (secret s))
            (public_key x ^ secret s % prime) (randomint64 rand s.rand_calls).1
            (decrypt_buffer env (bytes_from past_msg msg i 64) (md5_hash md5 password 8) s.aes).1 s,
        rw (e, gr, keyv),
        sym key ∙ keyv,
        refl,
        refl,
        refl,
      )

  authentication-dispatch :
      (c : Cmd) (s : Session Store Aes) {a : AuthenticationState}
      → s.curr_auth_state ≡ a
      → authentication env Store c s ≡ dispatch env Store a c.cmd_type c.lba s
  unfolding authentication
  authentication-dispatch c s e = ap (λ y. dispatch env Store y c.cmd_type c.lba s) e

  receive_challenge_ack-accepts :
      (m : List ℕ) (s s₁ : Session Store Aes)
      → get_data 102 empty_msg bytes_per_sector s ≡ some (m, s₁)
      → s₁.server_challenge
        ≡ word64
            (decrypt_buffer env
              (bytes_from past_msg m 0 64)
              (padded s₁.server_symetric_key)
              s₁.aes).0
      → (s₂ : Session Store Aes) × (receive_challenge_ack env Store 102 s ≡ some s₂)
        × (s₂.curr_auth_state ≡ auth_got_user_challenge)
  unfolding receive_challenge_ack
  receive_challenge_ack-accepts m s s₁ got answer =
      let key : List ℕ = padded s₁.server_symetric_key in
      let (result, aes) = decrypt_buffer env (bytes_from past_msg m 0 64) key s₁.aes in
      let part2 : List ℕ = bytes_from past_msg m 64 64 in
      let equal : (s₁.server_challenge == word64 result) ≡ true = (==_iff _ _).1 answer in
      (
        record s₁ {
          aes = (decrypt_buffer env part2 key aes).1;
          msg_to_user = overwrite s₁.msg_to_user 0 part2;
          curr_msg_state = msg_ready;
          curr_auth_state = auth_got_user_challenge;
        },
        rw (got, equal),
        refl,
      )

  -- The second half of an exchange. If a host's message decrypts, under the session key, to the
  -- challenge, then its WRITE and the READ behind it end with an authenticated host and a running
  -- timer.
  pub exchange_challenge :
      (m : List ℕ) (s s₁ : Session Store Aes)
      → s.curr_auth_state ≡ auth_server_key_challange_was_sent
      → get_data 102 empty_msg bytes_per_sector s ≡ some (m, s₁)
      → s₁.server_challenge
        ≡ word64
            (decrypt_buffer env
              (bytes_from past_msg m 0 64)
              (padded s₁.server_symetric_key)
              s₁.aes).0
      → (s₂ : Session Store Aes) × ((authentication env Store write_102 s
            >>= authentication env Store read_96)
          ≡ some s₂)
        × (s₂.curr_sys_state ≡ sys_authenticated)
        × (s₂.curr_auth_state ≡ auth_authentication_finished)
        × (s₂.timer_flag ≡ true)
  unfolding dispatch finish
  exchange_challenge m s s₁ sent got answer =
      let (s₂, ack, auth) = receive_challenge_ack-accepts m s s₁ got answer in
      (
        finish env Store s₂,
        rw (authentication-dispatch write_102 s sent ∙ ack)
            (authentication-dispatch read_96 s₂ auth),
        refl,
        refl,
        refl,
      )
