-- ===== src/Session/Quiet.antt =====
-- What `authentication` of sata/sata_main.c leaves alone: the stored data, and the calls of the
-- translation layer.
use crypto_jasmine.Base.{
  ℕ, ◌+◌, ◌≡◌, ◌⊎◌, inl, inr, arith, some, List, [], ◌∷◌, Bool-cases, >>=-eq-some, store,
}
use crypto_jasmine.Base.Geometry.{bytes_per_sector}
use crypto_jasmine.Session.State.{
  sys_authenticated, AuthenticationState, auth_initial_state, auth_got_user_key,
  auth_server_key_challange_was_sent, auth_got_user_challenge, auth_authentication_finished,
  auth_invalid_state, CmdType, read, write, Env, Session, Effect, ftl_read, ftl_write, ata_function,
  start_interval_measurement, set_reg,
}
use crypto_jasmine.Session.Buffers.{get_data, send_data, bad_read}
use crypto_jasmine.Session.Authentication.{
  challenge_user, accept_user_key, receive_user_key, send_msg_to_user, drop_write,
  receive_challenge_ack, finish, dispatch, empty_msg, leave_initial, strchr, same_string, c_string,
  username,
}

-- The calls of `ftl_read` and `ftl_write` in a log.
abbrev pub data_calls : List Effect → List Effect
data_calls [] = []
data_calls (ftl_read a n ∷ es) = ftl_read a n ∷ data_calls es
data_calls (ftl_write a n ∷ es) = ftl_write a n ∷ data_calls es
data_calls (ata_function c a n ∷ es) = data_calls es
data_calls (start_interval_measurement ∷ es) = data_calls es
data_calls (set_reg r v ∷ es) = data_calls es

module _ {Store Aes : Type 0} where
  pub record Quiet (s s' : Session Store Aes) : Type 0 where
    pub store : s'.disk.store ≡ s.disk.store
    pub calls : data_calls s'.log ≡ data_calls s.log

  -- Neither of the states of the protocol changes, beside.
  abbrev pub Kept : Session Store Aes → Session Store Aes → Type 0
  Kept s s' =
      Quiet s s' × (s'.curr_sys_state ≡ s.curr_sys_state) × (s'.curr_auth_state ≡ s.curr_auth_state)

  pub get_data-Kept :
      (lba : ℕ) (msg : List ℕ) (max : ℕ) (s : Session Store Aes) {m : List ℕ}
      {s' : Session Store Aes}
      → get_data lba msg max s ≡ some (m, s')
      → Kept s s'
  unfolding get_data
  get_data-Kept lba msg max s e = ground arith

  pub send_data-Kept : (msg : List ℕ) (s : Session Store Aes) → Kept s (send_data msg s)
  unfolding send_data
  send_data-Kept msg s = ground arith

  pub bad_read-Kept : (lba : ℕ) (s : Session Store Aes) → Kept s (bad_read lba s)
  unfolding bad_read
  bad_read-Kept lba s = ground arith

module _ (env : Env) (Store : Type 0) where
  open env use {Aes}

  pub accept_user_key-Quiet :
      (msg : List ℕ) (i : ℕ) (s : Session Store Aes) {s' : Session Store Aes}
      → accept_user_key env Store msg i s ≡ some s'
      → Quiet s s'
        × (s'.curr_sys_state ≡ s.curr_sys_state)
        × (s'.curr_auth_state ≡ auth_got_user_key)
  unfolding accept_user_key challenge_user
  accept_user_key-Quiet msg i s e = ground arith

  pub send_msg_to_user-Kept :
      (more : List ℕ) (s : Session Store Aes) → Kept s (send_msg_to_user env Store more s)
  unfolding send_msg_to_user send_data
  send_msg_to_user-Kept more s = ground arith

  -- What a READ of sector 96 does in the last state but one.
  pub finish-Quiet :
      (s : Session Store Aes)
      → Quiet s (finish env Store s)
        × ((finish env Store s).curr_sys_state ≡ sys_authenticated)
        × ((finish env Store s).curr_auth_state ≡ auth_authentication_finished)
  unfolding finish
  finish-Quiet s = ground (arith, send_msg_to_user-Kept [] s)

  pub drop_write-Quiet :
      (lba : ℕ) (s : Session Store Aes) {s' : Session Store Aes}
      → drop_write env Store lba s ≡ some s'
      → Quiet s s'
        × (s'.curr_sys_state ≡ s.curr_sys_state)
        × (s'.curr_auth_state ≡ auth_initial_state)
  unfolding drop_write
  drop_write-Quiet lba s e =
      let ((m, s₁), got, rest) = >>=-eq-some (get_data lba empty_msg bytes_per_sector s) _ e in
      ground (arith, get_data-Kept lba empty_msg bytes_per_sector s got)

  pub receive_challenge_ack-Quiet :
      (lba : ℕ) (s : Session Store Aes) {s' : Session Store Aes}
      → receive_challenge_ack env Store lba s ≡ some s'
      → Quiet s s' × (s'.curr_sys_state ≡ s.curr_sys_state)
  unfolding receive_challenge_ack
  receive_challenge_ack-Quiet lba s e =
      let ((m, s₁), got, rest) = >>=-eq-some (get_data lba empty_msg bytes_per_sector s) _ e in
      ground (arith, get_data-Kept lba empty_msg bytes_per_sector s got)

  pub receive_user_key-Quiet :
      (lba : ℕ) (s : Session Store Aes) {s' : Session Store Aes}
      → receive_user_key env Store lba s ≡ some s'
      → Quiet s s'
        × (s'.curr_sys_state ≡ leave_initial s.curr_sys_state)
        × ((s'.curr_auth_state ≡ s.curr_auth_state) ⊎ (s'.curr_auth_state ≡ auth_got_user_key))
  unfolding receive_user_key
  receive_user_key-Quiet lba s {s'} e =
      let s₀ : Session Store Aes = record s { curr_sys_state = leave_initial s.curr_sys_state } in
      let ((m, s₁), got, rest) = >>=-eq-some (get_data lba empty_msg bytes_per_sector s₀) _ e in
      let (bar, _, rest) = >>=-eq-some (strchr m b'|') _ rest in
      let (m', _, rest) = >>=-eq-some (store m bar 0) _ rest in
      let kept = get_data-Kept lba empty_msg bytes_per_sector s₀ got in
      elim (Bool-cases (same_string (c_string m') username)) [
        | inl known ↦ ground (arith, kept, accept_user_key-Quiet m' (bar + 1) s₁ (rw known at rest))
        | inr unknown ↦ let same : some s₁ ≡ some s' = rw unknown at rest in ground (arith, kept)
      ]

  -- No command of the protocol touches the stored data or calls the translation layer.
  pub dispatch-Quiet :
      (a : AuthenticationState) (t : CmdType) (lba : ℕ) (s : Session Store Aes)
      {s' : Session Store Aes}
      → dispatch env Store a t lba s ≡ some s'
      → Quiet s s'
  unfolding dispatch
  dispatch-Quiet auth_initial_state read lba s e = ground (arith, bad_read-Kept lba s)
  dispatch-Quiet auth_initial_state write lba s {s'} e =
      ground (arith, receive_user_key-Quiet lba s {s' = s'})
  dispatch-Quiet auth_got_user_key read lba s e =
      ground (arith, send_msg_to_user-Kept (env.past_msg_to_user ∷ []) s)
  dispatch-Quiet auth_got_user_key write lba s {s'} e =
      ground (arith, drop_write-Quiet lba s {s' = s'})
  dispatch-Quiet auth_server_key_challange_was_sent read lba s e =
      ground (arith, bad_read-Kept lba s)
  dispatch-Quiet auth_server_key_challange_was_sent write lba s {s'} e =
      ground (arith, receive_challenge_ack-Quiet lba s {s' = s'})
  dispatch-Quiet auth_got_user_challenge read lba s e = ground (arith, finish-Quiet s)
  dispatch-Quiet auth_got_user_challenge write lba s {s'} e =
      ground (arith, drop_write-Quiet lba s {s' = s'})
  dispatch-Quiet auth_authentication_finished _ lba s e = ground arith
  dispatch-Quiet auth_invalid_state _ lba s e = ground arith
