-- ===== src/Session/Runs.antt =====
-- Runs of `Main` of sata/sata_main.c from the boot on: how a host comes to be authenticated.
use crypto_jasmine.Base.{ℕ, ◌≡◌, ◌⊎◌, inl, inr, arith, some}
use crypto_jasmine.Session.State.{
  sys_initial_state, sys_authenticated, auth_initial_state, auth_got_user_challenge, Env, Ftl,
  Session,
}
use crypto_jasmine.Session.MainLoop.{Input, check_timeout, main_round}
use crypto_jasmine.Session.Rounds.{check_timeout-Quiet}
use crypto_jasmine.Session.Access.{AckEvent, round-System, round-Challenge}

module _ (env : Env) (ftl : Ftl) where
  open env use {Aes}
  open ftl use {Store}

  -- The rounds from `s₀` to a state, none of which runs into undefined behaviour.
  pub data Run (s₀ : Session Store Aes) : Session Store Aes → Type 0 where
    boot : Run s₀ s₀
    next :
        {s s' : Session Store Aes} (i : Input)
        → Run s₀ s
        → main_round env ftl i s ≡ some s'
        → Run s₀ s'

  -- In one of the rounds the host answered the challenge that the device had sent it.
  abbrev pub HasAck : {s₀ s : Session Store Aes} → Run s₀ s → Type 0
  HasAck boot = ⊥
  HasAck (next {s = s} i r e) =
      HasAck r ⊎ AckEvent env ftl i.event (check_timeout env ftl i.timer s)

  -- The two states that only an answered challenge leads to.
  abbrev Trusted : Session Store Aes → Type 0
  Trusted s = (s.curr_sys_state ≡ sys_authenticated) ⊎ (s.curr_auth_state ≡ auth_got_user_challenge)

  check_timeout-Trusted :
      (t : ℕ) (s : Session Store Aes) → Trusted (check_timeout env ftl t s) → Trusted s
  check_timeout-Trusted t s h = ground (arith, check_timeout-Quiet env ftl t s)

  round-Trusted :
      (i : Input) (s : Session Store Aes) {s' : Session Store Aes}
      → main_round env ftl i s ≡ some s'
      → Trusted s'
      → Trusted s ⊎ AckEvent env ftl i.event (check_timeout env ftl i.timer s)
  unfolding main_round
  round-Trusted i s {s'} e (inl a) =
      let s₁ = check_timeout env ftl i.timer s in
      inl (check_timeout-Trusted i.timer s (round-System env ftl i.event s₁ e a))
  round-Trusted i s {s'} e (inr a) =
      let s₁ = check_timeout env ftl i.timer s in
      elim (round-Challenge env ftl i.event s₁ e a) [
        | inl h ↦ inl (check_timeout-Trusted i.timer s (inr h))
        | inr ack ↦ inr ack
      ]

  run-HasAck :
      {s₀ s : Session Store Aes}
      → s₀.curr_sys_state ≡ sys_initial_state
      → s₀.curr_auth_state ≡ auth_initial_state
      → (r : Run s₀ s) → Trusted s
      → HasAck r
  run-HasAck p q boot h = ground arith
  run-HasAck p q (next {s = s} {s' = s'} i r e) h = elim (round-Trusted i s e h) [
    | inl before ↦ inl (run-HasAck p q r before)
    | inr ack ↦ inr ack
  ]

  -- From the boot on, no run ends with an authenticated host unless in one of its rounds a message
  -- of the host decrypted, under the session key of that round, to the challenge that the device
  -- had chosen.
  pub run-authenticated :
      {s₀ s : Session Store Aes}
      → s₀.curr_sys_state ≡ sys_initial_state
      → s₀.curr_auth_state ≡ auth_initial_state
      → (r : Run s₀ s) → s.curr_sys_state ≡ sys_authenticated
      → HasAck r
  run-authenticated p q r a = run-HasAck p q r (inl a)
