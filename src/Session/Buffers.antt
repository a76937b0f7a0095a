-- ===== src/Session/Buffers.antt =====
-- `getData`, `sendData`, `decryptBuffer`, `encryptBuffer` and `badRead` of sata/sata_main.c.
use crypto_jasmine.Base.{
  ℕ, zero, suc, ◌+◌, ◌-◌, ◌*◌, ◌%◌, not, ◌&&◌, Option, none, some, List, [], ◌∷◌, ◌++◌, ltb, ◌==◌,
  if◌then◌else◌, get_or, take, drop, replicate, ◌>>=◌, store, overwrite,
}
use crypto_jasmine.Base.Geometry.{
  bytes_per_sector, sectors_per_page, num_rd_buffers, num_wr_buffers, rd_buf_ptr, wr_buf_ptr,
}
use crypto_jasmine.Session.State.{
  sys_initial_state, sys_not_authenticated, sys_authenticated, set_reg, sata_rbuf_ptr,
  bm_stack_rdset, bm_stack_reset, Env, Session,
}

abbrev pub max_msg_size : ℕ
max_msg_size = 128

-- The characters of "NOT_AUTHENTICATED" with its NUL.
abbrev pub not_authenticated : List ℕ
not_authenticated =
    b'N' ∷ b'O' ∷ b'T' ∷ b'_' ∷ b'A' ∷ b'U' ∷ b'T' ∷ b'H' ∷ b'E' ∷ b'N' ∷ b'T' ∷ b'I' ∷ b'C' ∷ b'A'
    ∷ b'T' ∷ b'E' ∷ b'D' ∷ 0 ∷ []

-- The loop of `getData` from index `i` on: at most 511 rounds, since `i < BYTES_PER_SECTOR`.
unfoldable pub copy_string : (rounds i max : ℕ) → (ℕ → ℕ) → List ℕ → Option (List ℕ)
copy_string zero i max byte msg = some msg
copy_string (suc r) i max byte msg =
    let rest = store msg i (byte i) >>= copy_string r (i + 1) max byte in
    if ltb i max && ltb i bytes_per_sector && not (get_or msg (i - 1) 0 == 0)
    then rest
    else some msg

-- The effect of `getData` on the array `msg`, whose bytes come from `byte`.
unfoldable pub get_string : (ℕ → ℕ) → List ℕ → ℕ → Option (List ℕ)
unfolding copy_string
get_string byte msg max = do
  msg ← store msg 0 (byte 0)
  msg ← copy_string 511 1 max byte msg
  store msg (max - 1) 0

-- `write_dram_8(addr + k, msg[k])` for every `k`
unfoldable pub write_bytes : (ℕ → ℕ) → ℕ → List ℕ → ℕ → ℕ
write_bytes dram addr [] a = dram a
write_bytes dram addr (b ∷ bs) a = if a == addr then b else write_bytes dram (addr + 1) bs a

module _ {Store Aes : Type 0} where
  -- `getData`: the array after the call, or a fault if it is written out of bounds
  unfoldable pub get_data : ℕ → List ℕ → ℕ → Session Store Aes → Option (List ℕ × Session Store Aes)
  get_data lba msg max s =
      let id : ℕ = s.disk.ftl_write_buf_id in
      let addr : ℕ = wr_buf_ptr id + lba % sectors_per_page * bytes_per_sector in
      do
        msg ← get_string (λ i. s.dram (addr + i)) msg max
        some (
          msg,
          record s { disk = record (s.disk) { ftl_write_buf_id = (id + 1) % num_wr_buffers } },
        )

  -- `sendData`, after its wait for a free read buffer
  unfoldable pub send_data : List ℕ → Session Store Aes → Session Store Aes
  unfolding write_bytes
  send_data msg s =
      let id : ℕ = s.disk.ftl_read_buf_id in
      let next : ℕ = (id + 1) % num_rd_buffers in
      record s {
        dram = write_bytes s.dram (rd_buf_ptr id + 36 * bytes_per_sector) msg;
        log =
            set_reg bm_stack_reset 0x02
            ∷ set_reg bm_stack_rdset next
            ∷ set_reg sata_rbuf_ptr id
            ∷ s.log;
        disk = record (s.disk) { ftl_read_buf_id = next };
        msg_to_user = replicate max_msg_size 0;
      }

  -- `badRead`
  unfoldable pub bad_read : ℕ → Session Store Aes → Session Store Aes
  unfolding send_data
  bad_read lba s =
      if lba == 102
      then send_data (replicate max_msg_size 0)
          (record s { msg_to_user = replicate max_msg_size 0 })
      else (let msg : List ℕ = overwrite (replicate max_msg_size 0) 0 not_authenticated in
          let s' : Session Store Aes = record s { msg_to_user = msg } in
          elim (s.curr_sys_state) [
            | sys_initial_state ↦ s'
            | sys_not_authenticated ↦ send_data msg s'
            | sys_authenticated ↦ send_data msg s'
          ])

abbrev pub iv : List ℕ
iv = 0 ∷ 1 ∷ 2 ∷ 3 ∷ 4 ∷ 5 ∷ 6 ∷ 7 ∷ 8 ∷ 9 ∷ 10 ∷ 11 ∷ 12 ∷ 13 ∷ 14 ∷ 15 ∷ []

module _ (env : Env) where
  open env use {Aes, encrypt, decrypt}

  -- `decryptBuffer`: four blocks of 16 bytes, the first with the key and the initial vector
  unfoldable pub decrypt_buffer : (input key : List ℕ) → Aes → List ℕ × Aes
  decrypt_buffer input key a =
      let (b₀, a) = decrypt (take 16 input) (some (key, iv)) a in
      let (b₁, a) = decrypt (take 16 (drop 16 input)) none a in
      let (b₂, a) = decrypt (take 16 (drop 32 input)) none a in
      let (b₃, a) = decrypt (take 16 (drop 48 input)) none a in (b₀ ++ (b₁ ++ (b₂ ++ b₃)), a)

  -- `encryptBuffer`
  unfoldable pub encrypt_buffer : (input key : List ℕ) → Aes → List ℕ × Aes
  encrypt_buffer input key a = encrypt input key iv a
