-- ===== src/Greedy/Refine.antt =====
-- `ftl_write` of ftl_greedy/ftl.c keeps what the disk of Disk promises.
use crypto_jasmine.Base.{
  ◌*◌, ℕ, zero, suc, ◌+◌, ◌-◌, ◌/◌, ◌%◌, ◌≤◌, ◌<◌, ◌≡◌, ◌≢◌, inl, inr, sym, ◌∙◌, arith, some,
  Eq-cases, ==-ne,
}
use crypto_jasmine.Base.Geometry.{sectors_per_page, num_wr_buffers, num_lpages}
use crypto_jasmine.Greedy.State.{Greedy}
use crypto_jasmine.Greedy.Write.{write_page}
use crypto_jasmine.Greedy.Read.{sectors_here, write_loop, ftl_write}
use crypto_jasmine.Greedy.Clean.{AllClean}
use crypto_jasmine.Greedy.Device.{AllValid, InMap, write_page-Valid}
use crypto_jasmine.Greedy.Loops.{pages_of, pages_of-sectors_here, sectors_here-enough}
use crypto_jasmine.Greedy.Disk.{Disk, put, Shows, Calm, page-Shows, put-put, put-nothing}

module _ {Data : Type 0} (blank : Data) where
  -- A device between commands: its banks are in step, a buffer has the turn, and only pages of the map
  -- are mapped.
  pub record Idle (s : Greedy Data) (d : Disk Data) : Type 0 where
    pub valid : AllValid s
    pub turn : s.next_write_buf < num_wr_buffers
    pub shows : Shows s d
    pub in_map : InMap s

  Shows-same :
      (s : Greedy Data) (d d' : Disk Data)
      → ((m i : ℕ) → i < sectors_per_page → d m i ≡ d' m i)
      → Shows s d'
      → Shows s d
  Shows-same s d d' same sh m i h x e = sh m i h x (sym (same m i h) ∙ e)

  Idle-same :
      (s : Greedy Data) (d d' : Disk Data)
      → ((m i : ℕ) → i < sectors_per_page → d m i ≡ d' m i)
      → Idle s d'
      → Idle s d
  Idle-same s d d' same k = record {
    valid = k.valid;
    turn = k.turn;
    shows = Shows-same s d d' same (k.shows);
    in_map = k.in_map;
  }

  sectors_here-fits :
      (first remain : ℕ)
      → first < sectors_per_page
      → first + sectors_here first remain ≤ sectors_per_page
  sectors_here-fits first remain h = ground arith

  write_loop-next :
      (f lpn first remain : ℕ) (s s₁ s' : Greedy Data)
      → remain ≢ 0
      → write_page blank lpn first (sectors_here first remain) s ≡ some s₁
      → write_loop f blank (lpn + 1) 0 (remain - sectors_here first remain) s₁ ≡ some s'
      → write_loop (suc f) blank lpn first remain s ≡ some s'
  unfolding write_loop
  write_loop-next f lpn first remain s s₁ s' more e e' = rw (==-ne remain 0 more, e) e'

  -- The pages that are left of a command are written in turn.
  write_loop-Idle :
      (f lpn first remain : ℕ) (s : Greedy Data) (d : Disk Data)
      → Idle s d
      → AllClean blank s
      → first < sectors_per_page
      → remain ≤ f
      → lpn * sectors_per_page + first + remain ≤ num_lpages * sectors_per_page
      → pages_of first remain ≤ num_wr_buffers
      → Calm blank f lpn first remain s
      → (s' : Greedy Data) × (write_loop f blank lpn first remain s ≡ some s')
        × Idle s' (put lpn first remain s.next_write_buf s.write_buf d)
        × AllClean blank s'
  unfolding write_loop Calm
  write_loop-Idle zero lpn first remain s d k clean in_page enough low few calm =
      let done : remain ≡ 0 = omega arith in
      (
        s,
        rw done,
        Idle-same s (put lpn first remain s.next_write_buf s.write_buf d) d
            (put-nothing blank lpn first remain s d done) k,
        clean,
      )
  write_loop-Idle (suc f) lpn first remain s d k clean in_page enough low few calm =
      elim (Eq-cases remain 0) [
        | inl done ↦ (
          s,
          rw done,
          Idle-same s (put lpn first remain s.next_write_buf s.write_buf d) d
              (put-nothing blank lpn first remain s d done) k,
          clean,
        )
        | inr more ↦
            let here : ℕ = sectors_here first remain in
            let fits : first + here ≤ sectors_per_page = sectors_here-fits first remain in_page in
            let (ripe, calm') = calm more in
            let (s₁, e, w, all, u, clean₁, known₁, once) =
              write_page-Valid blank lpn first here s (omega arith) fits (k.valid) clean (k.in_map)
                ripe in
            let d₁ : Disk Data = put lpn first here s.next_write_buf s.write_buf d in
            let k₁ : Idle s₁ d₁ = record {
              valid = all;
              turn = omega (arith, u.turn);
              shows = page-Shows blank lpn first here s s₁ d fits (k.turn) (k.shows) w;
              in_map = known₁;
            } in
            let left = pages_of-sectors_here blank first remain in_page more in
            let (s', e', k', clean') =
              write_loop-Idle f (lpn + 1) 0 (remain - here) s₁ d₁ k₁ clean₁ (omega arith)
                (sectors_here-enough blank f first remain in_page more enough) (ground arith)
                (omega arith) (calm' s₁ e) in
            (
              s',
              write_loop-next f lpn first remain s s₁ s' more e e',
              Idle-same s' (put lpn first remain s.next_write_buf s.write_buf d) _
                  (put-put blank lpn first remain s s₁ d in_page few (k.turn) u) k',
              clean',
            )
      ]

  -- Where the banks are in step and have erased the pages that come next, only pages of the map are
  -- mapped, and every round is calm, a write of sectors of the map ends: the sectors of the disk
  -- then hold what the host put in the buffers, one for each page, the others what they held, the
  -- device has what the disk promises, and the banks and the map are as before in these respects. A
  -- command of the host has at most 65536 sectors.
  pub ftl_write-Idle :
      (lba num_sectors : ℕ) (s : Greedy Data) (d : Disk Data)
      → num_sectors ≤ 65536
      → lba + num_sectors ≤ num_lpages * sectors_per_page
      → Idle s d
      → AllClean blank s
      → Calm blank num_sectors (lba / sectors_per_page) (lba % sectors_per_page) num_sectors s
      → (s' : Greedy Data) × (ftl_write blank lba num_sectors s ≡ some s')
        × Idle s' (
            put
              (lba / sectors_per_page)
              (lba % sectors_per_page)
              num_sectors
              s.next_write_buf
              s.write_buf
              d)
        × AllClean blank s'
  unfolding ftl_write
  ftl_write-Idle lba num_sectors s d few low k clean calm =
      write_loop-Idle num_sectors (lba / sectors_per_page) (lba % sectors_per_page) num_sectors s d
        k clean (omega arith) (omega arith) (omega arith) (ground arith) calm
