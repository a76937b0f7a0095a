-- ===== src/Greedy/Copying.antt =====
-- The copy loop of `garbage_collection` of ftl_greedy/ftl.c: what holds after each of its rounds.
use crypto_jasmine.Base.{
  ℕ, zero, suc, ◌+◌, ◌*◌, ◌/◌, ◌%◌, ◌≤◌, ◌<◌, ◌≡◌, ◌≢◌, ◌⊎◌, inl, inr, ◌↔◌, refl, sym, ap, ◌∙◌,
  arith, Bool, true, false, ◌&&◌, ◌==◌, upd-other, Eq-cases, ==-ne, ==-refl, tally, tally-none,
  tally-yes, tally-no,
}
use crypto_jasmine.Base.Geometry.{pages_per_blk, vblks_per_bank, get_num_bank}
use crypto_jasmine.Base.Words.{add32}
use crypto_jasmine.Greedy.State.{Greedy, get_vpn, set_vpn, set_lpn, set_misc, copyback}
use crypto_jasmine.Greedy.Collect.{copy_page, copy_pages}
use mathlib.Core.Path.{subst}

-- The block of a physical page, and its number there.
abbrev pub block : ℕ → ℕ
block vpn = vpn / pages_per_blk

abbrev pub page_num : ℕ → ℕ
page_num vpn = vpn % pages_per_blk

-- The logical pages of a bank.
abbrev pub In : ℕ → ℕ → Type 0
In bank lpn = get_num_bank lpn ≡ bank

module _ {Data : Type 0} (bank victim gc : ℕ) where
  -- A bank whose victim can be collected into the free block `gc`: the list in the victim's last
  -- page names the logical pages that are there, and pages of this bank only.
  pub record Ready (s : Greedy Data) : Type 0 where
    pub apart : victim ≢ gc
    pub victim-pos : 0 < victim
    pub gc-pos : 0 < gc
    pub gc-lt : gc < vblks_per_bank
    pub one :
        (l m : ℕ) → In bank l → In bank m → 0 < s.page_map l → s.page_map l ≡ s.page_map m → l ≡ m
    pub free : (l : ℕ) → In bank l → block (s.page_map l) ≢ gc
    pub listed :
        (l : ℕ)
        → In bank l
        → block (s.page_map l) ≡ victim
        → (page_num (s.page_map l) < 127) × (s.lists bank victim (page_num (s.page_map l)) ≡ l)
    pub own :
        (j : ℕ)
        → j < 127
        → s.page_map (s.lists bank victim j) ≡ victim * pages_per_blk + j
        → In bank (s.lists bank victim j)

  -- The page `j` of the victim is valid.
  abbrev pub moves : Greedy Data → ℕ → Bool
  moves s j =
      let l : ℕ = s.lists bank victim j in
      (get_num_bank l == bank) && (s.page_map l == victim * pages_per_blk + j)

  -- After the rounds for the pages below `src`, which copied `k` of them: every logical page has
  -- its data, no two pages share a physical one, and the pages from `src` on are where they were.
  pub record Copied (s₀ : Greedy Data) (src k : ℕ) (s : Greedy Data) : Type 0 where
    pub few : k ≤ src
    pub kept :
        (l : ℕ)
        → In bank l
        → (i : ℕ) → s.flash bank (s.page_map l) i ≡ s₀.flash bank (s₀.page_map l) i
    pub mapped : (l : ℕ) → In bank l → (s.page_map l ≡ 0) ↔ (s₀.page_map l ≡ 0)
    pub one :
        (l m : ℕ) → In bank l → In bank m → 0 < s.page_map l → s.page_map l ≡ s.page_map m → l ≡ m
    pub fresh : (l : ℕ) → In bank l → block (s.page_map l) ≡ gc → page_num (s.page_map l) < k
    pub rest :
        (l : ℕ)
        → In bank l
        → block (s.page_map l) ≡ victim
        → (src ≤ page_num (s.page_map l))
          × (page_num (s.page_map l) < 127)
          × (s₀.lists bank victim (page_num (s.page_map l)) ≡ l)
    pub list : (j : ℕ) → src ≤ j → (s.misc bank).lpn_list_of_cur_vblock j ≡ s₀.lists bank victim j
    pub others : (l : ℕ) → get_num_bank l ≢ bank → s.page_map l ≡ s₀.page_map l
    pub elsewhere : (b : ℕ) → b ≢ bank → (v i : ℕ) → s.flash b v i ≡ s₀.flash b v i
    pub buffer : (i : ℕ) → s.write_buf s.next_write_buf i ≡ s₀.write_buf s₀.next_write_buf i
    pub still :
        (l : ℕ)
        → In bank l
        → (s.page_map l ≡ s₀.page_map l)
          ⊎ ((block (s₀.page_map l) ≡ victim)
              × (page_num (s₀.page_map l) < src)
              × (block (s.page_map l) ≡ gc))
    pub there :
        (j : ℕ)
        → j < k
        → In bank ((s.misc bank).lpn_list_of_cur_vblock j)
          × (s.page_map ((s.misc bank).lpn_list_of_cur_vblock j) ≡ gc * pages_per_blk + j)
    pub count : k ≡ tally src (moves s₀)
    pub metas : (b : ℕ) → b ≢ bank → s.misc b ≡ s₀.misc b
    pub logs : s.lists ≡ s₀.lists
    pub counts : s.vcount ≡ s₀.vcount
    pub gc_vblock : (s.misc bank).gc_vblock ≡ (s₀.misc bank).gc_vblock
    pub free_blk_cnt : (s.misc bank).free_blk_cnt ≡ (s₀.misc bank).free_blk_cnt

  -- The logical page that the victim's list has at `src`.
  abbrev listed_at : ℕ → Greedy Data → ℕ
  listed_at src s = (s.misc bank).lpn_list_of_cur_vblock src

  -- A logical page that is at page `src` of the victim is the listed one.
  at_src :
      {s₀ : Greedy Data} {src k : ℕ} {s : Greedy Data} (l : ℕ)
      → Copied s₀ src k s
      → In bank l
      → block (s.page_map l) ≡ victim
      → page_num (s.page_map l) ≡ src
      → listed_at src s ≡ l
  at_src {s₀} {src} l c h b e =
      c.list src (omega arith) ∙ (sym (ap (s₀.lists bank victim) e) ∙ (c.rest l h b).2)

  -- The loop finds a page valid if it was valid at the start.
  valid_before :
      {s₀ : Greedy Data} {src k : ℕ} {s : Greedy Data}
      → victim ≢ gc
      → src < 127
      → Copied s₀ src k s
      → In bank (listed_at src s)
      → s.page_map (listed_at src s) ≡ victim * pages_per_blk + src
      → moves s₀ src ≡ true
  valid_before {s₀} {src} {k} {s} apart below c own e =
      let l : ℕ = s₀.lists bank victim src in
      let same : listed_at src s ≡ l = c.list src (omega arith) in
      let own' : In bank l = subst (In bank) same own in
      let e' : s.page_map l ≡ victim * pages_per_blk + src =
        subst (λ m. s.page_map m ≡ victim * pages_per_blk + src) same e in
      elim (c.still l own') [
        | inl there ↦ ground arith
        | inr gone ↦ absurd (let (from, earlier, to) = gone in omega arith)
      ]

  invalid_before :
      {s₀ : Greedy Data} {src k : ℕ} {s : Greedy Data}
      → src < 127
      → Copied s₀ src k s
      → s.page_map (listed_at src s) ≢ victim * pages_per_blk + src
      → moves s₀ src ≡ false
  invalid_before {s₀} {src} {k} {s} below c ne =
      let l : ℕ = s₀.lists bank victim src in
      let same : listed_at src s ≡ l = c.list src (omega arith) in
      let ne' : s.page_map l ≢ victim * pages_per_blk + src =
        subst (λ m. s.page_map m ≢ victim * pages_per_blk + src) same ne in
      elim (Eq-cases (get_num_bank l) bank) [
        | inl own ↦ elim (c.still l own) [
          | inl there ↦ ground arith
          | inr gone ↦ let (from, earlier, to) = gone in ground arith
        ]
        | inr other ↦ ground arith
      ]

  -- A page that is not valid: nothing is left of it to be moved.
  skip :
      {s₀ : Greedy Data} {src k : ℕ} {s : Greedy Data}
      → src < 127
      → Copied s₀ src k s
      → s.page_map (listed_at src s) ≢ victim * pages_per_blk + src
      → Copied s₀ (src + 1) k s
  skip {s₀} {src} {k} {s} below c ne = record {
    few = omega (arith, c.few);
    kept = c.kept;
    mapped = c.mapped;
    one = c.one;
    fresh = c.fresh;
    rest = λ l h b.
        let (from, below, named) = c.rest l h b in
        let other : page_num (s.page_map l) ≢ src =
          λ e. ne (ap (s.page_map) (at_src l c h b e) ∙ omega arith) in
        (omega arith, below, named);
    list = λ j h. c.list j (omega arith);
    others = c.others;
    elsewhere = c.elsewhere;
    buffer = c.buffer;
    still = λ l h. elim (c.still l h) [
      | inl same ↦ inl same
      | inr gone ↦ let (from, earlier, to) = gone in inr (from, omega arith, to)
    ];
    there = c.there;
    count = c.count ∙ sym (tally-no src (moves s₀) (invalid_before below c ne));
    metas = c.metas;
    logs = c.logs;
    counts = c.counts;
    gc_vblock = c.gc_vblock;
    free_blk_cnt = c.free_blk_cnt;
  }

  -- The state after a valid page has been moved.
  abbrev moved : (src k : ℕ) → Greedy Data → Greedy Data
  moved src k s =
      let dst : ℕ = gc * pages_per_blk + k in
      set_lpn bank (dst % pages_per_blk) (listed_at src s)
        (set_vpn (listed_at src s) dst (copyback bank (victim * pages_per_blk + src) dst s))

  move :
      {s₀ : Greedy Data} {src k : ℕ} {s : Greedy Data}
      → victim ≢ gc
      → 0 < victim
      → 0 < gc
      → src < 127
      → In bank (listed_at src s)
      → Copied s₀ src k s
      → s.page_map (listed_at src s) ≡ victim * pages_per_blk + src
      → Copied s₀ (src + 1) (k + 1) (moved src k s)
  unfolding set_lpn set_vpn set_misc copyback
  move {s₀} {src} {k} {s} apart pos used below own c e = record {
    few = omega (arith, c.few);
    kept = λ l h i. elim (Eq-cases l (listed_at src s)) [
      | inl same ↦
          let now = ap (s.page_map) same in
          let before = ap (s₀.page_map) same in ground (arith, c.kept (listed_at src s) own i)
      | inr other ↦ ground (arith, c.few, c.kept l h i, c.fresh l h)
    ];
    mapped = λ l h. elim (Eq-cases l (listed_at src s)) [
      | inl same ↦
          let now = ap (s.page_map) same in
          let before = ap (s₀.page_map) same in
          (
            λ z. ground arith,
            λ z. ground (arith, (c.mapped (listed_at src s) own).1 (sym before ∙ z)),
          )
      | inr other ↦
          let same = upd-other (s.page_map) (gc * pages_per_blk + k) other in
          (λ z. (c.mapped l h).0 (sym same ∙ z), λ z. same ∙ (c.mapped l h).1 z)
    ];
    one = λ l m hl hm p q. ground (arith, c.few, c.one l m hl hm, c.fresh l hl, c.fresh m hm);
    fresh = λ l h b. ground (arith, c.few, c.fresh l h);
    rest = λ l h b. ground (arith, c.few, c.rest l h, at_src l c h);
    list = λ j h. ground (arith, c.few, c.list j);
    others = λ l h. ground (arith, c.others l h);
    elsewhere = λ b h v i. ground (arith, c.elsewhere b h v i);
    buffer = c.buffer;
    still = λ l h. ground (arith, c.few, c.still l h);
    there = λ j h. ground (arith, c.few, c.there j);
    count =
        ap (λ n. n + 1) (c.count)
        ∙ sym (tally-yes src (moves s₀) (valid_before apart below c own e));
    metas = λ b h. rw (==-ne b bank h) (c.metas b h);
    logs = c.logs;
    counts = c.counts;
    gc_vblock = ground (arith, c.gc_vblock);
    free_blk_cnt = ground (arith, c.free_blk_cnt);
  }

  copy_page-valid :
      (src k : ℕ) (s : Greedy Data)
      → gc < vblks_per_bank
      → k < 128
      → s.page_map (listed_at src s) ≡ victim * pages_per_blk + src
      → copy_page bank victim src (gc * pages_per_blk + k) s
        ≡ (gc * pages_per_blk + (k + 1), moved src k s)
  unfolding copy_page get_vpn
  copy_page-valid src k s lt few e =
      let next : add32 (gc * pages_per_blk + k) 1 ≡ gc * pages_per_blk + (k + 1) = omega arith in
      rw (e, ==-refl (victim * pages_per_blk + src), next)

  copy_page-invalid :
      (src free_vpn : ℕ) (s : Greedy Data)
      → s.page_map (listed_at src s) ≢ victim * pages_per_blk + src
      → copy_page bank victim src free_vpn s ≡ (free_vpn, s)
  unfolding copy_page get_vpn
  copy_page-invalid src free_vpn s ne =
      rw (==-ne (s.page_map (listed_at src s)) (victim * pages_per_blk + src) ne)

  own_at :
      (src : ℕ) {s₀ : Greedy Data} {k : ℕ} {s : Greedy Data}
      → Ready s₀
      → src < 127
      → Copied s₀ src k s
      → s.page_map (listed_at src s) ≡ victim * pages_per_blk + src
      → In bank (listed_at src s)
  own_at src {s₀} {k} {s} r below c valid = elim (Eq-cases (get_num_bank (listed_at src s)) bank) [
    | inl own ↦ own
    | inr other ↦
        let same : listed_at src s ≡ s₀.lists bank victim src = c.list src (omega arith) in
        let before : s₀.page_map (listed_at src s) ≡ victim * pages_per_blk + src =
          sym (c.others (listed_at src s) other) ∙ valid in
        subst (In bank) (sym same)
          (r.own src below (subst (λ l. s₀.page_map l ≡ victim * pages_per_blk + src) same before))
  ]

  -- What the loop returns: the number of pages that it copied, behind the start of the free block.
  abbrev pub Done : Greedy Data → ℕ × Greedy Data → Type 0
  Done s₀ r = (k : ℕ) × (r.0 ≡ gc * pages_per_blk + k) × Copied s₀ 127 k r.1

  pub copy_pages-Copied :
      (n src k : ℕ) {s₀ s : Greedy Data}
      → Ready s₀
      → src + n ≡ 127
      → Copied s₀ src k s
      → Done s₀ (copy_pages n bank victim src (gc * pages_per_blk + k) s)
  unfolding copy_pages
  copy_pages-Copied zero src k {s₀} {s} r e c =
      let last : src ≡ 127 = omega arith in (k, refl, subst (λ n. Copied s₀ n k s) last c)
  copy_pages-Copied (suc n) src k {s₀} {s} r e c =
      elim (Eq-cases (s.page_map (listed_at src s)) (victim * pages_per_blk + src)) [
        | inl valid ↦
            let own : In bank (listed_at src s) = own_at src r (omega arith) c valid in
            let c' = move (r.apart) (r.victim-pos) (r.gc-pos) (omega arith) own c valid in
            subst (λ p. Done s₀ (copy_pages n bank victim (src + 1) p.0 p.1))
              (sym (copy_page-valid src k s (r.gc-lt) (omega (arith, c.few)) valid))
              (copy_pages-Copied n (src + 1) (k + 1) r (omega arith) c')
        | inr invalid ↦
            subst (λ p. Done s₀ (copy_pages n bank victim (src + 1) p.0 p.1))
              (sym (copy_page-invalid src (gc * pages_per_blk + k) s invalid))
              (copy_pages-Copied n (src + 1) k r (omega arith) (skip (omega arith) c invalid))
      ]

  -- Before the first round.
  pub start-Copied :
      (s₀ s : Greedy Data)
      → Ready s₀
      → s.page_map ≡ s₀.page_map
      → s.flash ≡ s₀.flash
      → ((i : ℕ) → s.write_buf s.next_write_buf i ≡ s₀.write_buf s₀.next_write_buf i)
      → ((j : ℕ) → (s.misc bank).lpn_list_of_cur_vblock j ≡ s₀.lists bank victim j)
      → ((b : ℕ) → b ≢ bank → s.misc b ≡ s₀.misc b)
      → s.lists ≡ s₀.lists
      → s.vcount ≡ s₀.vcount
      → (s.misc bank).gc_vblock ≡ (s₀.misc bank).gc_vblock
      → (s.misc bank).free_blk_cnt ≡ (s₀.misc bank).free_blk_cnt
      → Copied s₀ 0 0 s
  start-Copied s₀ s r em ef eb el metas logs counts gc_vblock free_blk_cnt = record {
    few = omega arith;
    kept = λ l h i. rw (em, ef);
    mapped = λ l h. rw em (λ z. z, λ z. z);
    one = λ l m hl hm. rw em (r.one l m hl hm);
    fresh = λ l h b. absurd (r.free l h (rw em at b));
    rest = λ l h b.
        let (below, named) = r.listed l h (rw em at b) in rw em (omega arith, below, named);
    list = λ j h. el j;
    others = λ l h. rw em;
    elsewhere = λ b h v i. rw ef;
    buffer = eb;
    still = λ l h. inl (rw em);
    there = λ j h. absurd (omega arith);
    count = sym (tally-none (moves s₀));
    metas = metas;
    logs = logs;
    counts = counts;
    gc_vblock = gc_vblock;
    free_blk_cnt = free_blk_cnt;
  }
