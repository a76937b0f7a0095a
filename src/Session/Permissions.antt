-- ===== src/Session/Permissions.antt =====
-- What an authenticated host may do in sata/sata_main.c, and for how long.
use crypto_jasmine.Base.{
  ℕ, zero, suc, ◌+◌, ◌-◌, ◌*◌, ◌/◌, ◌%◌, ◌≤◌, ◌<◌, ◌≡◌, ◌≢◌, ◌⊎◌, ◌↔◌, inl, inr, arith, true, false,
  none, some, [], ◌∷◌, ◌==◌, Bool-cases, >>=-eq-some, ◌>>=◌, store,
}
use crypto_jasmine.Base.Geometry.{bytes_per_sector, sectors_per_page, get_num_bank, num_banks}
use crypto_jasmine.Session.State.{
  sys_not_authenticated, sys_authenticated, Cmd, CmdType, read, write, Env, Ftl, Session,
  auth_write, auth_read, AuthorizationAction, ftl_read, ftl_write,
}
use crypto_jasmine.Session.Buffers.{get_data, get_string, copy_string, send_data}
use crypto_jasmine.Session.MainLoop.{
  check_timeout, disk_read, disk_write, serve_read, serve_write, serve_authenticated, authorization,
  elapsed,
}
use crypto_jasmine.Session.Quiet.{Quiet, data_calls, get_data-Kept}

-- The banks that the two masks name.
abbrev pub Permitted : AuthorizationAction → ℕ → Type 0
Permitted auth_read bank = (bank ≡ 0) ⊎ (bank ≡ 4)
Permitted auth_write bank = (bank ≡ 1) ⊎ (bank ≡ 4)

-- For every bank of the device `authorization` allows exactly reads of the banks 0 and 4 and writes
-- of the banks 1 and 4.
pub authorization_lem :
    (bank : ℕ) (action : AuthorizationAction)
    → bank < num_banks
    → (authorization bank action ≡ true) ↔ Permitted action bank
unfolding authorization
authorization_lem (suc (suc (suc (suc (suc (suc (suc (suc n)))))))) action h = absurd (omega arith)
authorization_lem zero auth_read h = (ground arith, ground arith)
authorization_lem _ _ h = (ground arith, ground arith)

authorization_second : (bank : ℕ) → bank ≡ 1 → authorization bank auth_read ≡ false
unfolding authorization
authorization_second bank e = rw e

-- `getData` into an array of one byte writes beyond it, on both ways through its loop.
copy_string-one_byte :
    (r : ℕ) (byte : ℕ → ℕ) (b : ℕ)
    → (copy_string (suc r) 1 bytes_per_sector byte (b ∷ []) >>= λ msg. store msg 511 0) ≡ none
unfolding copy_string
copy_string-one_byte r byte b = elim (Bool-cases (b == 0)) [
  | inl nul ↦ rw nul
  | inr other ↦ rw other
]

get_string-one_byte : (byte : ℕ → ℕ) → get_string byte (0 ∷ []) bytes_per_sector ≡ none
unfolding get_string
get_string-one_byte byte = copy_string-one_byte 510 byte (byte 0)

-- The bank of the first page of a command.
abbrev pub first_bank : Cmd → ℕ
first_bank c = get_num_bank (c.lba / sectors_per_page)

module _ (env : Env) (ftl : Ftl) where
  open env use {Aes}
  open ftl use {Store}

  -- What a command of an authenticated host may have done.
  abbrev pub Granted : CmdType → Cmd → Session Store Aes → Session Store Aes → Type 0
  Granted read c s s' =
      Permitted auth_read (first_bank c)
      × (data_calls s'.log ≡ ftl_read c.lba c.sector_count ∷ data_calls s.log)
      × (s'.disk ≡ ftl.ftl_read c.lba c.sector_count s.disk)
  Granted write c s s' =
      Permitted auth_write (first_bank c)
      × (data_calls s'.log ≡ ftl_write c.lba c.sector_count ∷ data_calls s.log)
      × (s'.disk ≡ ftl.ftl_write c.lba c.sector_count s.disk)

  -- A command of an authenticated host makes no call of the translation layer and leaves the stored
  -- data alone, or it makes the one call of its own type and sectors, and the bank of the first of
  -- them is one that the permissions name.
  pub serve_authenticated-Granted :
      (t : CmdType) (c : Cmd) (s : Session Store Aes) {s' : Session Store Aes}
      → serve_authenticated env ftl t c s ≡ some s'
      → Quiet s s' ⊎ Granted t c s s'
  unfolding serve_authenticated serve_read serve_write disk_read disk_write send_data
  serve_authenticated-Granted read c s {s'} e =
      ground (arith, authorization_lem (first_bank c) auth_read (omega arith))
  serve_authenticated-Granted write c s {s'} e =
      elim (Bool-cases (authorization (first_bank c) auth_write)) [
        | inl allowed ↦
            let same = rw allowed at e in
            inr (ground (arith, authorization_lem (first_bank c) auth_write (omega arith)))
        | inr refused ↦
            let s₀ : Session Store Aes = record s { not_authorized_flag = true } in
            let ((m, s₁), got, rest) =
              >>=-eq-some (get_data c.lba (0 ∷ []) bytes_per_sector s₀) _ (rw refused at e) in
            inl (ground (arith, get_data-Kept c.lba (0 ∷ []) bytes_per_sector s₀ got))
      ]

  -- If a write is not permitted, the array of one byte in `Main` is written beyond its end, whatever
  -- the host sent: such a write has no defined result.
  pub serve_write-refused :
      (c : Cmd) (s : Session Store Aes)
      → authorization (first_bank c) auth_write ≡ false
      → serve_write env ftl c s ≡ none
  unfolding serve_write get_data
  serve_write-refused c s h = rw (h, get_string-one_byte _)

  -- The check is made for the first page only: a read from a page of bank 0 to beyond its end is
  -- handed over whole, although it has sectors in a bank that may not be read.
  pub serve_read-spans :
      (c : Cmd) (s : Session Store Aes)
      → c.lba ≢ 96
      → first_bank c ≡ 0
      → sectors_per_page < c.lba % sectors_per_page + c.sector_count
      → (data_calls (serve_read env ftl c s).log ≡ ftl_read c.lba c.sector_count ∷ data_calls s.log)
        × ((sector : ℕ) × (c.lba ≤ sector)
            × (sector < c.lba + c.sector_count)
            × (authorization (get_num_bank (sector / sectors_per_page)) auth_read ≡ false))
  unfolding serve_read disk_read
  serve_read-spans c s ne b long =
      let next : ℕ = (c.lba / sectors_per_page + 1) * sectors_per_page in
      (
        ground (arith, authorization_lem (first_bank c) auth_read (omega arith)),
        (
          next,
          omega arith,
          omega arith,
          authorization_second (get_num_bank (next / sectors_per_page)) (omega arith),
        ),
      )

  -- When the timer of a session has counted fewer than 1468006400 ticks, a check of it ends the session
  -- if they are 208496094 at least, and only then.
  pub check_timeout-ticks :
      (ticks : ℕ) (s : Session Store Aes)
      → ticks < 1_468_006_400
      → s.curr_sys_state ≡ sys_authenticated
      → s.timer_flag ≡ true
      → ((check_timeout env ftl (0xffff_ffff - ticks) s).curr_sys_state ≡ sys_not_authenticated)
        ↔ (208_496_094 ≤ ticks)
  unfolding check_timeout elapsed
  check_timeout-ticks ticks s h a f = (λ e. ground arith, λ e. ground arith)
