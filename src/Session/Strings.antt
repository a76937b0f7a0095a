-- ===== src/Session/Strings.antt =====
-- `getData` of sata/sata_main.c: the message that it takes off the write buffer.
use mathlib.Core.Path.{subst}
use crypto_jasmine.Base.{
  true, ℕ, zero, suc, ◌+◌, ◌-◌, ◌*◌, ◌%◌, ◌≤◌, ◌<◌, ◌≡◌, ◌≢◌, ◌⊎◌, inl, inr, refl, ◌∙◌, arith, some,
  List, length, set, get_or, length-set, length-replicate, get_or-set_self, get_or-set_ne,
  get_or-replicate, ltb, Eq-cases, ==-ne,
}
use crypto_jasmine.Base.Geometry.{bytes_per_sector, sectors_per_page, wr_buf_ptr, num_wr_buffers}
use crypto_jasmine.Session.State.{Session}
use crypto_jasmine.Session.Authentication.{empty_msg}
use crypto_jasmine.Session.Buffers.{copy_string, get_string, get_data}

lt-cases : (i j : ℕ) → (i < j) ⊎ (j ≤ i)
lt-cases i j = ground arith

abbrev nul : ℕ
nul = 0

module _ (byte : ℕ → ℕ) where
  -- The bytes below `n` have no NUL among them.
  abbrev pub NoNul : ℕ → Type 0
  NoNul n = (j : ℕ) → j < n → byte j ≢ 0

  -- The bytes up to the first NUL, and zeros behind it.
  abbrev pub Prefix : ℕ → List ℕ → Type 0
  Prefix n msg =
      (i : ℕ)
      → i < n
      → (NoNul i → get_or msg i 0 ≡ byte i) × ((j : ℕ) → j < i → byte j ≡ 0 → get_or msg i 0 ≡ 0)

  -- The array before round `i` of the loop.
  record Copied (i : ℕ) (msg : List ℕ) : Type 0 where
    size : length msg ≡ 512
    past : 1 ≤ i
    same : (j : ℕ) → j < i → get_or msg j 0 ≡ byte j
    text : (j : ℕ) → j + 1 < i → byte j ≢ 0
    zeros : (j : ℕ) → i ≤ j → get_or msg j 0 ≡ 0

  next :
      (i : ℕ) (msg : List ℕ)
      → Copied i msg
      → i < 512
      → byte (i - 1) ≢ 0
      → Copied (i + 1) (set msg i (byte i))
  next i msg c h ne = record {
    size = length-set msg i (byte i) ∙ c.size;
    past = omega arith;
    same = λ j lt. elim (Eq-cases i j) [
      | inl here ↦ rw (← here) (get_or-set_self msg i (byte i) 0 (omega (arith, c.size)))
      | inr other ↦ get_or-set_ne msg i j (byte i) 0 other ∙ c.same j (omega arith)
    ];
    text = λ j lt. elim (Eq-cases (i - 1) j) [
      | inl last ↦ rw (← last) ne
      | inr other ↦ c.text j (omega (arith, c.past))
    ];
    zeros = λ j le. get_or-set_ne msg i j (byte i) 0 (omega arith) ∙ c.zeros j (omega arith);
  }

  -- A round that finds a NUL behind it is the last one.
  stops : (i : ℕ) (msg : List ℕ) → Copied i msg → byte (i - 1) ≡ 0 → Prefix 512 msg
  stops i msg c nul k h = (
    (λ clear. elim (lt-cases k i) [
      | inl below ↦ c.same k below
      | inr behind ↦ absurd (clear (i - 1) (omega (arith, c.past)) nul)
    ]),
    λ j lt e. elim (lt-cases k i) [
      | inl below ↦ absurd (c.text j (omega arith) e)
      | inr behind ↦ c.zeros k behind
    ],
  )

  -- All 512 bytes are copied.
  ends : (msg : List ℕ) → Copied 512 msg → Prefix 512 msg
  ends msg c k h = ((λ clear. c.same k h), λ j lt e. absurd (c.text j (omega arith) e))

  copy_string-Prefix :
      (r i : ℕ) (msg : List ℕ)
      → i + r ≡ 512
      → Copied i msg
      → (m : List ℕ) × (copy_string r i bytes_per_sector byte msg ≡ some m)
        × (length m ≡ 512)
        × Prefix 512 m
  unfolding copy_string
  copy_string-Prefix zero i msg e c =
      let last : i ≡ 512 = omega arith in
      (msg, refl, c.size, ends msg (subst (λ n. Copied n msg) last c))
  copy_string-Prefix (suc r) i msg e c =
      let inside : ltb i 512 ≡ true = ground arith in
      let read_back : get_or msg (i - 1) 0 ≡ byte (i - 1) =
        c.same (i - 1) (omega (arith, c.past)) in
      elim (Eq-cases (byte (i - 1)) 0) [
        | inl nul ↦ (msg, rw (inside, read_back, nul), c.size, stops i msg c nul)
        | inr more ↦
            let fits : ltb i (length msg) ≡ true = rw (c.size) inside in
            let (m, done, size, prefix) =
              copy_string-Prefix r (i + 1) (set msg i (byte i)) (omega arith)
                (next i msg c (omega arith) more) in
            (m, rw (inside, read_back, ==-ne (byte (i - 1)) 0 more, fits) done, size, prefix)
      ]

  -- An array of zeros.
  abbrev Zeroed : List ℕ → Type 0
  Zeroed z = (length z ≡ 512) × ((j : ℕ) → get_or z j 0 ≡ 0)

  start : (z : List ℕ) → Zeroed z → Copied 1 (set z 0 (byte 0))
  start z (size, clear) = record {
    size = length-set z 0 (byte 0) ∙ size;
    past = omega arith;
    same = λ j lt.
        let first : 0 ≡ j = omega arith in
        rw (← first) (get_or-set_self z 0 (byte 0) 0 (omega (arith, size)));
    text = λ j lt. absurd (omega arith);
    zeros = λ j le. get_or-set_ne z 0 j (byte 0) 0 (omega arith) ∙ clear j;
  }

  -- The array after `getData`, whose last byte is set to NUL.
  abbrev pub Message : List ℕ → Type 0
  Message m = (length m ≡ 512) × Prefix 511 m × (get_or m 511 0 ≡ 0)

  get_string-Message :
      (z : List ℕ)
      → Zeroed z
      → (m : List ℕ) × (get_string byte z bytes_per_sector ≡ some m) × Message m
  unfolding get_string
  get_string-Message z (size₀, clear) =
      let (m, done, size, prefix) =
        copy_string-Prefix 511 1 (set z 0 (byte 0)) refl (start z (size₀, clear)) in
      let starts : ltb 0 (length z) ≡ true = rw size₀ refl in
      let fits : ltb 511 (length m) ≡ true = rw size refl in
      (
        set m 511 0,
        rw (starts, done, fits),
        (
          length-set m 511 0 ∙ size,
          (λ i h. rw (get_or-set_ne m 511 i 0 0 (omega arith)) (prefix i (omega arith))),
          get_or-set_self m 511 0 0 (omega (arith, size)),
        ),
      )

empty_msg-size : length empty_msg ≡ 512
unfolding empty_msg
empty_msg-size = length-replicate 512 nul

empty_msg-zeros : (j : ℕ) → get_or empty_msg j 0 ≡ 0
unfolding empty_msg
empty_msg-zeros j = get_or-replicate 512 0 j

-- The address of the first byte of the sector that `getData` reads.
abbrev pub sector_addr : (lba id : ℕ) → ℕ
sector_addr lba id = wr_buf_ptr id + lba % sectors_per_page * bytes_per_sector

module _ {Store Aes : Type 0} where
  -- `getData` into the array of `authentication` gives a message of 512 bytes: what the host sent up
  -- to the first NUL, and zeros from there on, whatever follows it. The write buffer is released, and
  -- nothing else of the state changes.
  pub get_data-Message :
      (lba : ℕ) (s : Session Store Aes)
      → (m : List ℕ) × (get_data lba empty_msg bytes_per_sector s
          ≡ some (
            m,
            record s {
              disk = record (s.disk) {
                ftl_write_buf_id = (s.disk.ftl_write_buf_id + 1) % num_wr_buffers;
              };
            },
          ))
        × Message (λ i. s.dram (sector_addr lba s.disk.ftl_write_buf_id + i)) m
  unfolding get_data
  get_data-Message lba s =
      let byte : ℕ → ℕ = λ i. s.dram (sector_addr lba s.disk.ftl_write_buf_id + i) in
      let (m, done, message) =
        get_string-Message byte empty_msg (empty_msg-size, empty_msg-zeros) in
      (m, rw done, message)
