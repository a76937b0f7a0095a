-- ===== src/Greedy/Disk.antt =====
-- `ftl_write` of ftl_greedy/ftl.c against a disk of sectors: what the device promises to the host.
use crypto_jasmine.Base.{
  ℕ, zero, suc, ◌+◌, ◌-◌, ◌*◌, ◌%◌, ◌≤◌, ◌<◌, ◌≡◌, ◌≢◌, inl, inr, refl, ap, sym, ◌∙◌, arith, true,
  false, ◌&&◌, Option, some, ltb, leb, if◌then◌else◌, Eq-cases, Bool-cases,
}
use crypto_jasmine.Base.Geometry.{sectors_per_page, num_wr_buffers, get_num_bank}
use crypto_jasmine.Greedy.State.{Greedy, among}
use crypto_jasmine.Greedy.Write.{write_page}
use crypto_jasmine.Greedy.Read.{sectors_here}
use crypto_jasmine.Greedy.Written.{reads, Written}
use crypto_jasmine.Greedy.Assign.{Ripe}
use crypto_jasmine.Greedy.Turns.{Used}
use crypto_jasmine.Greedy.Loops.{pages_of}

-- What the sectors of each page hold; nothing is promised of a sector that was never written.
abbrev pub Disk : Type 0 → Type 0
Disk Data = (page sector : ℕ) → Option Data

some-injective {ℓ} : {A : Type ℓ} {a b : A} → some a ≡ some b → a ≡ b
some-injective e = cc

module _ {Data : Type 0} where
  -- The `remain` sectors from sector `first` of page `lpn` on hold what the host put in the buffers,
  -- one for each page, from `turn` on.
  abbrev pub put : (lpn first remain turn : ℕ) → ((id sector : ℕ) → Data) → Disk Data → Disk Data
  put lpn first remain turn bufs d m i =
      let from : ℕ = lpn * sectors_per_page + first in
      let at : ℕ = m * sectors_per_page + i in
      if leb from at && ltb at (from + remain)
      then some (bufs ((turn + (m - lpn)) % num_wr_buffers) i)
      else d m i

  -- The device has what the disk promises.
  abbrev pub Shows : Greedy Data → Disk Data → Type 0
  Shows s d =
      (m i : ℕ)
      → i < sectors_per_page
      → (x : Data) → d m i ≡ some x
      → (0 < s.page_map m) × (reads s m i ≡ x)

module _ {Data : Type 0} (blank : Data) where
  -- In each round of the loop that writes a page, its bank is ripe if it must collect a block.
  unfoldable pub Calm : (fuel lpn first remain : ℕ) → Greedy Data → Type 0
  Calm zero lpn first remain s = remain ≡ remain
  Calm (suc f) lpn first remain s =
      remain ≢ 0
      → Ripe (get_num_bank lpn) s
        × ((s' : Greedy Data)
            → write_page blank lpn first (sectors_here first remain) s ≡ some s'
            → Calm f (lpn + 1) 0 (remain - sectors_here first remain) s')

  in_page :
      (lpn first count i : ℕ)
      → leb (lpn * sectors_per_page + first) (lpn * sectors_per_page + i)
          && ltb (lpn * sectors_per_page + i) (lpn * sectors_per_page + first + count)
        ≡ among first count i
  in_page lpn first count i = ground arith

  out_of_page :
      (lpn first count m i : ℕ)
      → first + count ≤ sectors_per_page
      → i < sectors_per_page
      → m ≢ lpn
      → leb (lpn * sectors_per_page + first) (m * sectors_per_page + i)
          && ltb (m * sectors_per_page + i) (lpn * sectors_per_page + first + count)
        ≡ false
  out_of_page lpn first count m i fits h ne = ground arith

  -- One page
  pub page-Shows :
      (lpn first count : ℕ) (s s' : Greedy Data) (d : Disk Data)
      → first + count ≤ sectors_per_page
      → s.next_write_buf < num_wr_buffers
      → Shows s d
      → Written lpn first count s s'
      → Shows s' (put lpn first count s.next_write_buf s.write_buf d)
  page-Shows lpn first count s s' d fits turn sh w m i h x e = elim (Eq-cases m lpn) [
    | inl same ↦ elim (Bool-cases (among first count i)) [
      | inl here ↦
          let e' = rw (same, in_page lpn first count i, here) at e in
          let at : (s.next_write_buf + (lpn - lpn)) % num_wr_buffers ≡ s.next_write_buf =
            omega arith in
          let x' : s.write_buf s.next_write_buf i ≡ x =
            ap (λ n. s.write_buf n i) (sym at) ∙ some-injective e' in
          rw same (w.mapped, w.new i h here ∙ x')
      | inr there ↦
          let e' = rw (same, in_page lpn first count i, there) at e in
          let (mapped, old) = sh lpn i h x e' in rw same (w.mapped, w.old i h there mapped ∙ old)
    ]
    | inr other ↦
        let e' = rw (out_of_page lpn first count m i fits h other) at e in
        let (mapped, old) = sh m i h x e' in (w.stays m mapped, w.others m other i ∙ old)
  ]

  first_page :
      (lpn first remain i : ℕ)
      → i < sectors_per_page
      → first < sectors_per_page
      → among first (sectors_here first remain) i ≡ among first remain i
  first_page lpn first remain i h in_page = ground arith

  later_page :
      (lpn first remain m i : ℕ)
      → i < sectors_per_page
      → first < sectors_per_page
      → m ≢ lpn
      → leb ((lpn + 1) * sectors_per_page + 0) (m * sectors_per_page + i)
          && ltb
              (m * sectors_per_page + i)
              ((lpn + 1) * sectors_per_page + 0 + (remain - sectors_here first remain))
        ≡ leb (lpn * sectors_per_page + first) (m * sectors_per_page + i)
          && ltb (m * sectors_per_page + i) (lpn * sectors_per_page + first + remain)
  later_page lpn first remain m i h in_page ne = ground arith

  not_before :
      (lpn n i : ℕ)
      → i < sectors_per_page
      → leb ((lpn + 1) * sectors_per_page + 0) (lpn * sectors_per_page + i)
          && ltb (lpn * sectors_per_page + i) ((lpn + 1) * sectors_per_page + 0 + n)
        ≡ false
  not_before lpn n i h = ground arith

  pages_after :
      (lpn first remain m i : ℕ)
      → first < sectors_per_page
      → m ≢ lpn
      → leb (lpn * sectors_per_page + first) (m * sectors_per_page + i)
          && ltb (m * sectors_per_page + i) (lpn * sectors_per_page + first + remain)
        ≡ true
      → i < sectors_per_page
      → pages_of first remain ≤ num_wr_buffers
      → (lpn < m) × (m - lpn < num_wr_buffers)
  pages_after lpn first remain m i in_page ne e h few = ground arith

  turned :
      (n k : ℕ) → n < num_wr_buffers → 0 < k → k < num_wr_buffers → (n + k) % num_wr_buffers ≢ n
  turned n k lt pos near e = absurd (omega arith)

  -- A command is its first page, and the command for the rest.
  pub put-put :
      (lpn first remain : ℕ) (s s₁ : Greedy Data) (d : Disk Data)
      → first < sectors_per_page
      → pages_of first remain ≤ num_wr_buffers
      → s.next_write_buf < num_wr_buffers
      → Used s s₁
      → (m i : ℕ) → i < sectors_per_page
      → put lpn first remain s.next_write_buf s.write_buf d m i
        ≡ put
            (lpn + 1)
            0
            (remain - sectors_here first remain)
            s₁.next_write_buf
            s₁.write_buf
            (put lpn first (sectors_here first remain) s.next_write_buf s.write_buf d)
            m
            i
  put-put lpn first remain s s₁ d in_page' few turn u m i h =
      let here : ℕ = sectors_here first remain in
      let fits : first + here ≤ sectors_per_page = ground arith in
      elim (Eq-cases m lpn) [
        | inl same ↦
            rw
              (
                same,
                not_before lpn (remain - here) i h,
                in_page lpn first remain i,
                in_page lpn first here i,
                first_page lpn first remain i h in_page',
              )
              refl
        | inr other ↦
            rw
              (
                later_page lpn first remain m i h in_page' other,
                out_of_page lpn first here m i fits h other,
              )
              (elim (Bool-cases (
                leb (lpn * sectors_per_page + first) (m * sectors_per_page + i)
                && ltb (m * sectors_per_page + i) (lpn * sectors_per_page + first + remain))) [
                  | inl within ↦
                      let (later, near) =
                        pages_after lpn first remain m i in_page' other within h few in
                      let n : ℕ = s.next_write_buf in
                      let q : ℕ = (n + (m - lpn)) % num_wr_buffers in
                      let away : q ≢ n =
                        λ e. absurd (turned n (m - lpn) turn (omega arith) near e) in
                      let at : (s₁.next_write_buf + (m - (lpn + 1))) % num_wr_buffers ≡ q =
                        omega (arith, u.turn) in
                      rw (within, at) (ap some (sym (u.others q away i)))
                  | inr out ↦ rw out refl
                ])
      ]

  pub put-nothing :
      (lpn first remain : ℕ) (s : Greedy Data) (d : Disk Data)
      → remain ≡ 0
      → (m i : ℕ) → i < sectors_per_page
      → put lpn first remain s.next_write_buf s.write_buf d m i ≡ d m i
  put-nothing lpn first remain s d done m i h = ground arith
