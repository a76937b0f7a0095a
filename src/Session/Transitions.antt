-- ===== src/Session/Transitions.antt =====
-- How `authentication` of sata/sata_main.c changes the state of the system and of the protocol.
use crypto_jasmine.Base.{
  ℕ, ◌≡◌, ◌⊎◌, inl, inr, refl, arith, some, List, [], ◌∷◌, ◌==◌, Bool-cases, >>=-eq-some,
}
use crypto_jasmine.Base.Geometry.{bytes_per_sector}
use crypto_jasmine.Session.State.{
  sys_authenticated, AuthenticationState, auth_initial_state, auth_got_user_key,
  auth_server_key_challange_was_sent, auth_got_user_challenge, auth_authentication_finished,
  auth_invalid_state, CmdType, read, write, Env, Session,
}
use crypto_jasmine.Session.Buffers.{get_data, decrypt_buffer}
use crypto_jasmine.Session.Authentication.{
  receive_challenge_ack, dispatch, empty_msg, leave_initial, word64, bytes_from, padded,
}
use crypto_jasmine.Session.Quiet.{
  bad_read-Kept, send_msg_to_user-Kept, finish-Quiet, drop_write-Quiet, receive_challenge_ack-Quiet,
  receive_user_key-Quiet,
}

module _ (env : Env) (Store : Type 0) where
  open env use {Aes, past_msg}

  -- The host's message decrypts, under the session key, to the challenge that it was sent.
  pub record Acknowledged (lba : ℕ) (s : Session Store Aes) : Type 0 where
    pub msg : List ℕ
    pub after : Session Store Aes
    pub received : get_data lba empty_msg bytes_per_sector s ≡ some (msg, after)
    pub answer :
        s.server_challenge
        ≡ word64
            (decrypt_buffer env
              (bytes_from past_msg msg 0 64)
              (padded s.server_symetric_key)
              s.aes).0

  -- `getData` leaves the secrets of the exchange alone.
  get_data-secrets :
      (lba : ℕ) (msg : List ℕ) (max : ℕ) (s : Session Store Aes) {m : List ℕ}
      {s' : Session Store Aes}
      → get_data lba msg max s ≡ some (m, s')
      → (s'.server_challenge ≡ s.server_challenge)
        × (s'.server_symetric_key ≡ s.server_symetric_key)
        × (s'.aes ≡ s.aes)
  unfolding get_data
  get_data-secrets lba msg max s e = ground arith

  -- A step to the last state but one is an acknowledged challenge.
  receive_challenge_ack-Acknowledged :
      (lba : ℕ) (s : Session Store Aes) {s' : Session Store Aes}
      → receive_challenge_ack env Store lba s ≡ some s'
      → (s'.curr_auth_state ≡ auth_initial_state) ⊎ Acknowledged lba s
  unfolding receive_challenge_ack
  receive_challenge_ack-Acknowledged lba s {s'} e =
      let ((m, s₁), got, rest) = >>=-eq-some (get_data lba empty_msg bytes_per_sector s) _ e in
      let (c, k, a) = get_data-secrets lba empty_msg bytes_per_sector s got in
      let ack : ℕ =
        word64
          (decrypt_buffer env (bytes_from past_msg m 0 64) (padded s₁.server_symetric_key)
            s₁.aes).0 in
      elim (Bool-cases (s₁.server_challenge == ack)) [
        | inl equal ↦ inr (record {
          msg = m;
          after = s₁;
          received = got;
          answer = let h : s₁.server_challenge ≡ ack = ground arith in rw (c, k, a) at h;
        })
        | inr other ↦ let same = rw other at rest in inl (ground arith)
      ]

  -- How the state of the system may change.
  abbrev pub SystemStep :
      AuthenticationState → CmdType → ℕ → Session Store Aes → Session Store Aes → Type 0
  SystemStep a t lba s s' =
      (s'.curr_sys_state ≡ s.curr_sys_state)
      ⊎ (s'.curr_sys_state ≡ leave_initial s.curr_sys_state)
      ⊎ ((a ≡ auth_got_user_challenge)
          × (t ≡ read)
          × (lba ≡ 96)
          × (s'.curr_sys_state ≡ sys_authenticated))

  pub dispatch-System :
      (a : AuthenticationState) (t : CmdType) (lba : ℕ) (s : Session Store Aes)
      {s' : Session Store Aes}
      → dispatch env Store a t lba s ≡ some s'
      → SystemStep a t lba s s'
  unfolding dispatch
  dispatch-System auth_initial_state read lba s e = ground (arith, bad_read-Kept lba s)
  dispatch-System auth_initial_state write lba s {s'} e =
      ground (arith, receive_user_key-Quiet env Store lba s {s' = s'})
  dispatch-System auth_got_user_key read lba s e =
      ground (arith, send_msg_to_user-Kept env Store (env.past_msg_to_user ∷ []) s)
  dispatch-System auth_got_user_key write lba s {s'} e =
      ground (arith, drop_write-Quiet env Store lba s {s' = s'})
  dispatch-System auth_server_key_challange_was_sent read lba s e =
      ground (arith, bad_read-Kept lba s)
  dispatch-System auth_server_key_challange_was_sent write lba s {s'} e =
      ground (arith, receive_challenge_ack-Quiet env Store lba s {s' = s'})
  dispatch-System auth_got_user_challenge read lba s e = ground (arith, finish-Quiet env Store s)
  dispatch-System auth_got_user_challenge write lba s {s'} e =
      ground (arith, drop_write-Quiet env Store lba s {s' = s'})
  dispatch-System auth_authentication_finished _ lba s e = ground arith
  dispatch-System auth_invalid_state _ lba s e = ground arith

  -- How the protocol gets to its last state but one.
  pub dispatch-Challenge :
      (a : AuthenticationState) (t : CmdType) (lba : ℕ) (s : Session Store Aes)
      {s' : Session Store Aes}
      → s.curr_auth_state ≡ a
      → dispatch env Store a t lba s ≡ some s'
      → s'.curr_auth_state ≡ auth_got_user_challenge
      → (a ≡ auth_got_user_challenge) ⊎ Acknowledged lba s
  unfolding dispatch
  dispatch-Challenge auth_initial_state read lba s p e q = ground (arith, bad_read-Kept lba s)
  dispatch-Challenge auth_initial_state write lba s {s'} p e q =
      ground (arith, receive_user_key-Quiet env Store lba s {s' = s'})
  dispatch-Challenge auth_got_user_key read lba s p e q =
      ground (arith, send_msg_to_user-Kept env Store (env.past_msg_to_user ∷ []) s)
  dispatch-Challenge auth_got_user_key write lba s {s'} p e q =
      ground (arith, drop_write-Quiet env Store lba s {s' = s'})
  dispatch-Challenge auth_server_key_challange_was_sent read lba s p e q =
      ground (arith, bad_read-Kept lba s)
  dispatch-Challenge auth_server_key_challange_was_sent write lba s {s'} p e q =
      ground (arith, receive_challenge_ack-Acknowledged lba s {s' = s'})
  dispatch-Challenge auth_got_user_challenge _ lba s p e q = inl refl
  dispatch-Challenge auth_authentication_finished _ lba s p e q = ground arith
  dispatch-Challenge auth_invalid_state _ lba s p e q = ground arith
