-- ===== src/Greedy/Ahead.antt =====
-- `logging_misc_metadata` of ftl_greedy/ftl.c: its first loop.
use crypto_jasmine.Base.{
  ℕ, zero, suc, ◌+◌, ◌*◌, ◌/◌, ◌≤◌, ◌<◌, ◌≡◌, ◌≢◌, ◌⊎◌, inl, inr, refl, ap, sym, ◌∙◌, arith, true,
  false, not, ◌==◌, if◌then◌else◌, Eq-cases, ==-refl, ==-ne,
}
use mathlib.Core.Path.{subst}
use crypto_jasmine.Base.Geometry.{pages_per_blk, num_banks}
use crypto_jasmine.Base.Words.{add32}
use crypto_jasmine.Greedy.Collect.{block_erase}
use crypto_jasmine.Greedy.Copying.{block}
use crypto_jasmine.Greedy.Format.{Saved, all_ff, misc_page, Ssd, erase_block, miscblk_vbn}
use crypto_jasmine.Greedy.Log.{count_at, logged_counts, log_misc_prepare, log_misc_prepares}

-- The page behind page `c` of the block for the misc. metadata
abbrev pub next_misc_vpn : ℕ → ℕ
next_misc_vpn c =
    if not ((c + 1) / pages_per_blk == miscblk_vbn) then miscblk_vbn * pages_per_blk else c + 1

pub next_misc_vpn-range :
    (c : ℕ) → 127 ≤ c → c < 256 → (128 ≤ next_misc_vpn c) × (next_misc_vpn c < 256)
next_misc_vpn-range c lo hi = ground arith

next_misc_vpn-cases :
    (c : ℕ) → 127 ≤ c → c < 256 → (c ≡ 255) ⊎ ((c < 255) × (next_misc_vpn c ≡ c + 1))
next_misc_vpn-cases c lo hi = ground arith

module _ {Data : Type 0} where
  -- The block for the misc. metadata is written up to the current page, which is one of it or, at the
  -- start, the one before it.
  pub record Tail (d : Ssd Data) : Type 0 where
    pub from : (b : ℕ) → b < num_banks → 127 ≤ d.logs.cur_miscblk_vpn b
    pub to : (b : ℕ) → b < num_banks → d.logs.cur_miscblk_vpn b < 256
    pub erased :
        (b v : ℕ)
        → b < num_banks
        → d.logs.cur_miscblk_vpn b < v
        → v < 256
        → d.logs.pages b v ≡ all_ff

  -- What the log has of a bank
  abbrev pub saved_of : Ssd Data → ℕ → Saved
  saved_of d b = record {
    misc = d.ftl.misc b;
    miscblk_vpn = next_misc_vpn (d.logs.cur_miscblk_vpn b);
    mapblk_vpn = d.logs.cur_mapblk_vpn b;
    counts = λ k. count_at (d.ftl) (b * logged_counts + k);
  }

  -- The tables and the positions of the map stay as they are.
  pub record KeptTables (d d' : Ssd Data) : Type 0 where
    pub map : d'.ftl.page_map ≡ d.ftl.page_map
    pub vcount : d'.ftl.vcount ≡ d.ftl.vcount
    pub misc : d'.ftl.misc ≡ d.ftl.misc
    pub mapblk : d'.logs.cur_mapblk_vpn ≡ d.logs.cur_mapblk_vpn

  -- The first loop for bank `k`
  record Prepared (k : ℕ) (d d' : Ssd Data) : Type 0 where
    pub tables : KeptTables d d'
    pub cur : d'.logs.cur_miscblk_vpn k ≡ next_misc_vpn (d.logs.cur_miscblk_vpn k)
    pub buf : d'.logs.ftl_buf k ≡ misc_page (saved_of d k)
    pub erased : (v : ℕ) → d.logs.cur_miscblk_vpn k ≡ 255 → block v ≡ 1 → d'.logs.pages k v ≡ all_ff
    pub same :
        (v : ℕ)
        → (d.logs.cur_miscblk_vpn k < 255) ⊎ (block v ≢ 1)
        → d'.logs.pages k v ≡ d.logs.pages k v
    pub other_cur : (b : ℕ) → b ≢ k → d'.logs.cur_miscblk_vpn b ≡ d.logs.cur_miscblk_vpn b
    pub other_buf : (b : ℕ) → b ≢ k → d'.logs.ftl_buf b ≡ d.logs.ftl_buf b
    pub other_pages : (b v : ℕ) → b ≢ k → d'.logs.pages b v ≡ d.logs.pages b v

module _ {Data : Type 0} (blank : Data) where
  log_misc_prepare-Prepared :
      (k : ℕ) (d : Ssd Data)
      → 127 ≤ d.logs.cur_miscblk_vpn k
      → d.logs.cur_miscblk_vpn k < 256
      → Prepared k d (log_misc_prepare blank k d)
  unfolding log_misc_prepare erase_block block_erase
  log_misc_prepare-Prepared k d lo hi =
      let c : ℕ = d.logs.cur_miscblk_vpn k in
      let next : add32 c 1 ≡ c + 1 = omega arith in
      elim (Eq-cases c 255) [
        | inl last ↦
            let full : ((c + 1) / pages_per_blk == miscblk_vbn) ≡ false = ground arith in
            let at : next_misc_vpn c ≡ 128 = rw full refl in
            rw (next, full)
              (record {
                tables = record { map = refl; vcount = refl; misc = refl; mapblk = refl };
                cur = rw (==-refl k, at) refl;
                buf = rw (==-refl k, at) refl;
                erased = λ v e h. rw (==-refl k, h) refl;
                same = λ v h. ground (arith, h);
                other_cur = λ b ne. rw (==-ne b k ne) refl;
                other_buf = λ b ne. rw (==-ne b k ne) refl;
                other_pages = λ b v ne. rw (==-ne b k ne) refl;
              })
        | inr more ↦
            let room : ((c + 1) / pages_per_blk == miscblk_vbn) ≡ true = ground arith in
            let at : next_misc_vpn c ≡ c + 1 = rw room refl in
            rw (next, room)
              (record {
                tables = record { map = refl; vcount = refl; misc = refl; mapblk = refl };
                cur = rw (==-refl k, at) refl;
                buf = rw (==-refl k, at) refl;
                erased = λ v e h. absurd (more e);
                same = λ v h. refl;
                other_cur = λ b ne. rw (==-ne b k ne) refl;
                other_buf = λ b ne. rw (==-ne b k ne) refl;
                other_pages = λ b v ne. refl;
              })
      ]

module _ {Data : Type 0} where
  KeptTables-trans : (d e f : Ssd Data) → KeptTables d e → KeptTables e f → KeptTables d f
  KeptTables-trans d e f t u = record {
    map = u.map ∙ t.map;
    vcount = u.vcount ∙ t.vcount;
    misc = u.misc ∙ t.misc;
    mapblk = u.mapblk ∙ t.mapblk;
  }

  -- The first loop before bank `k`
  pub record Ahead (d₀ : Ssd Data) (k : ℕ) (d : Ssd Data) : Type 0 where
    pub tables : KeptTables d₀ d
    pub cur : (b : ℕ) → b < k → d.logs.cur_miscblk_vpn b ≡ next_misc_vpn (d₀.logs.cur_miscblk_vpn b)
    pub buf : (b : ℕ) → b < k → d.logs.ftl_buf b ≡ misc_page (saved_of d₀ b)
    pub erased :
        (b v : ℕ)
        → b < k
        → next_misc_vpn (d₀.logs.cur_miscblk_vpn b) ≤ v
        → v < 256
        → d.logs.pages b v ≡ all_ff
    pub maps : (b v : ℕ) → block v ≢ 1 → d.logs.pages b v ≡ d₀.logs.pages b v
    pub todo_cur : (b : ℕ) → k ≤ b → d.logs.cur_miscblk_vpn b ≡ d₀.logs.cur_miscblk_vpn b
    pub todo_pages : (b v : ℕ) → k ≤ b → d.logs.pages b v ≡ d₀.logs.pages b v

  saved-same :
      (d₀ d : Ssd Data) (b : ℕ)
      → KeptTables d₀ d
      → d.logs.cur_miscblk_vpn b ≡ d₀.logs.cur_miscblk_vpn b
      → saved_of d b ≡ saved_of d₀ b
  saved-same d₀ d b t e = rw (e, t.vcount, t.misc, t.mapblk) refl

  next-Ahead :
      (d₀ : Ssd Data) (k : ℕ) (d d' : Ssd Data)
      → Tail d₀
      → k < num_banks
      → Ahead d₀ k d
      → Prepared k d d'
      → Ahead d₀ (k + 1) d'
  next-Ahead d₀ k d d' tl h a p =
      let now : d.logs.cur_miscblk_vpn k ≡ d₀.logs.cur_miscblk_vpn k = a.todo_cur k (omega arith) in
      let range = next_misc_vpn-range (d₀.logs.cur_miscblk_vpn k) (tl.from k h) (tl.to k h) in
      record {
        tables = KeptTables-trans d₀ d d' (a.tables) (p.tables);
        cur = λ b lt. elim (Eq-cases b k) [
          | inl here ↦ rw here (p.cur ∙ ap next_misc_vpn now)
          | inr before ↦ p.other_cur b before ∙ a.cur b (omega arith)
        ];
        buf = λ b lt. elim (Eq-cases b k) [
          | inl here ↦ rw here (p.buf ∙ ap misc_page (saved-same d₀ d k (a.tables) now))
          | inr before ↦ p.other_buf b before ∙ a.buf b (omega arith)
        ];
        erased = λ b v lt from to. elim (Eq-cases b k) [
          | inl here ↦
              let from' : next_misc_vpn (d₀.logs.cur_miscblk_vpn k) ≤ v =
                subst (λ x. next_misc_vpn (d₀.logs.cur_miscblk_vpn x) ≤ v) here from in
              ap (λ x. d'.logs.pages x v) here
              ∙ (elim (next_misc_vpn-cases (d₀.logs.cur_miscblk_vpn k) (tl.from k h) (tl.to k h)) [
                | inl last ↦ p.erased v (now ∙ last) (omega (arith, range.0))
                | inr more ↦
                    p.same v (inl (omega (arith, more.0)))
                    ∙ a.todo_pages k v (omega arith)
                    ∙ tl.erased k v h (omega (arith, more.1)) to
              ])
          | inr before ↦ p.other_pages b v before ∙ a.erased b v (omega arith) from to
        ];
        maps = λ b v out. elim (Eq-cases b k) [
          | inl here ↦
              ap (λ x. d'.logs.pages x v) here
              ∙ p.same v (inr out)
              ∙ ap (λ x. d.logs.pages x v) (sym here)
              ∙ a.maps b v out
          | inr before ↦ p.other_pages b v before ∙ a.maps b v out
        ];
        todo_cur = λ b le.
            let ne : b ≢ k = λ e. absurd (omega arith) in
            p.other_cur b ne ∙ a.todo_cur b (omega arith);
        todo_pages = λ b v le.
            let ne : b ≢ k = λ e. absurd (omega arith) in
            p.other_pages b v ne ∙ a.todo_pages b v (omega arith);
      }

module _ {Data : Type 0} (blank : Data) where
  pub log_misc_prepares-Ahead :
      (n k : ℕ) (d₀ d : Ssd Data)
      → Tail d₀
      → k + n ≡ num_banks
      → Ahead d₀ k d
      → Ahead d₀ num_banks (log_misc_prepares n blank k d)
  unfolding log_misc_prepares
  log_misc_prepares-Ahead zero k d₀ d tl e a =
      let last : k ≡ num_banks = omega arith in subst (λ x. Ahead d₀ x d) last a
  log_misc_prepares-Ahead (suc n) k d₀ d tl e a =
      let h : k < num_banks = omega arith in
      let now = a.todo_cur k (omega arith) in
      let p =
        log_misc_prepare-Prepared blank k d (omega (arith, tl.from k h))
          (omega (arith, tl.to k h)) in
      log_misc_prepares-Ahead n (k + 1) d₀ (log_misc_prepare blank k d) tl (omega arith)
        (next-Ahead d₀ k d (log_misc_prepare blank k d) tl h a p)
