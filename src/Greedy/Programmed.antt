-- ===== src/Greedy/Programmed.antt =====
-- `write_page` of ftl_greedy/ftl.c keeps the metadata of its bank in step.
use crypto_jasmine.Base.{
  ℕ, ◌+◌, ◌-◌, ◌*◌, ◌%◌, ◌≤◌, ◌<◌, ◌≡◌, ◌≢◌, inl, inr, refl, ap, sym, ◌∙◌, arith, Bool, true, false,
  not, ◌&&◌, ◌==◌, Eq-cases, ==-refl, ==-ne, tally, tally-same, tally-flip, tally-le,
}
use crypto_jasmine.Base.Geometry.{pages_per_blk, vblks_per_bank, get_num_bank}
use crypto_jasmine.Greedy.State.{Greedy, vc_max}
use crypto_jasmine.Greedy.Copying.{block, page_num, In}
use crypto_jasmine.Greedy.Valid.{Pages, Open, Valid, Mine, Phase, owner, holds}
use crypto_jasmine.Base.Words.{u16_mod}
use crypto_jasmine.Greedy.Next.{in_use-same}
use crypto_jasmine.Greedy.Marks.{Marks, retired, gained}
use crypto_jasmine.Greedy.Assign.{Opened}

module _ {Data : Type 0} (lpn new : ℕ) (s t : Greedy Data) (o : Opened (get_num_bank lpn) new s)
    (m : Marks lpn new s t) where
  abbrev bank : ℕ
  bank = get_num_bank lpn

  abbrev old : ℕ
  old = s.page_map lpn

  i : Open bank (page_num new) s
  i = o.metas

  p : Pages bank (owner bank s) s
  p = i.pages

  -- Page `j` of block `u` is valid, and is not the old page.
  abbrev rest : (u j : ℕ) → Bool
  rest u j = holds bank (owner bank s) s u j && not (u * pages_per_blk + j == old)

  new-low : page_num new < 127
  new-low = rw (sym (o.cur)) (i.cur-low)

  before :
      (l : ℕ)
      → In bank l
      → block (s.page_map l) ≡ block new
      → page_num (s.page_map l) < page_num new
  before l h b = i.behind l h (b ∙ ap block (sym (o.cur)))

  -- A page that is valid and is the old one is the page of `lpn`.
  old-owner :
      (u j : ℕ)
      → In bank (owner bank s u j)
      → s.page_map (owner bank s u j) ≡ u * pages_per_blk + j
      → u * pages_per_blk + j ≡ old
      → 0 < u
      → owner bank s u j ≡ lpn
  old-owner u j h e at pos = p.one (owner bank s u j) lpn h refl (omega arith) (e ∙ at)

  pos-used : (u : ℕ) → s.vcount bank u ≢ vc_max → 0 < u
  pos-used u used = elim (Eq-cases u 0) [
    | inl zeroth ↦ absurd (used (ap (s.vcount bank) zeroth ∙ p.meta_block))
    | inr pos ↦ omega arith
  ]

  rest-other : (u j : ℕ) → u * pages_per_blk + j ≢ old → rest u j ≡ holds bank (owner bank s) s u j
  rest-other u j ne = rw (==-ne (u * pages_per_blk + j) old ne) (ground arith)

  old-holds :
      (u : ℕ) → 0 < old → u ≡ block old → holds bank (owner bank s) s u (page_num old) ≡ true
  old-holds u pos e =
      let l : owner bank s u (page_num old) ≡ lpn =
        ap (λ w. owner bank s w (page_num old)) e ∙ p.named lpn refl pos in
      let at : old ≡ u * pages_per_blk + page_num old = omega arith in
      rw (l, ==-refl bank) (ground arith)

  old-rest : (u : ℕ) → u ≡ block old → rest u (page_num old) ≡ false
  old-rest u e =
      let at : u * pages_per_blk + page_num old ≡ old = omega arith in
      rw (at, ==-refl old) (ground arith)

  count-le : (u : ℕ) → s.vcount bank u ≢ vc_max → s.vcount bank u ≤ 127
  count-le u used = omega (arith, p.counted u used, tally-le 127 (holds bank (owner bank s) s u))

  retired-none : (u c : ℕ) → old ≡ 0 → retired old u c ≡ c
  retired-none u c e = rw e

  retired-here : (u c : ℕ) → old ≢ 0 → u ≡ block old → retired old u (c + 1) ≡ c % u16_mod
  retired-here u c ne e = ground arith

  retired-other : (u c : ℕ) → old ≢ 0 → u ≢ block old → retired old u c ≡ c
  retired-other u c ne e = rw (==-ne old 0 ne, ==-ne u (block old) e)

  gained-here : (u c : ℕ) → u ≡ block new → c ≤ 127 → gained new u c ≡ c + 1
  gained-here u c e le = rw (e, ==-refl (block new)) (omega arith)

  gained-other : (u c : ℕ) → u ≢ block new → gained new u c ≡ c
  gained-other u c ne = rw (==-ne u (block new) ne)

  -- Without the old page
  rest-same :
      (u : ℕ)
      → ((j : ℕ) → j < 127 → u * pages_per_blk + j ≢ old)
      → tally 127 (holds bank (owner bank s) s u) ≡ tally 127 (rest u)
  rest-same u ne =
      tally-same 127 {p = holds bank (owner bank s) s u} {q = rest u}
        (λ j h. sym (rest-other u j (ne j h)))

  rest-here :
      (u : ℕ)
      → old ≢ 0
      → u ≡ block old
      → tally 127 (holds bank (owner bank s) s u) ≡ tally 127 (rest u) + 1
  rest-here u some here =
      let low = p.low lpn refl (omega arith) in
      tally-flip 127 {p = rest u} {q = holds bank (owner bank s) s u} (page_num old) low
        (old-rest u here) (old-holds u (omega arith) here)
        (λ j h ne. rest-other u j (λ e. ne (omega arith)))

  -- A page that is mapped at the old one is not counted with or without it.
  dropped :
      (at v b : ℕ) → v ≡ old → ((b == bank) && (v == at)) && not (at == old) ≡ (b == bank) && false
  dropped at v b e = ground arith

  kept_if :
      (at v b : ℕ)
      → (b ≡ bank → v ≡ at → at ≢ old)
      → ((b == bank) && (v == at)) && not (at == old) ≡ (b == bank) && (v == at)
  kept_if at v b h = ground arith

  -- The count without the old page.
  retired-count :
      (u : ℕ) → s.vcount bank u ≢ vc_max → retired old u (s.vcount bank u) ≡ tally 127 (rest u)
  retired-count u used = elim (Eq-cases old 0) [
    | inl none ↦
        let pos = pos-used u used in
        retired-none u (s.vcount bank u) none
        ∙ p.counted u used
        ∙ rest-same u (λ j h e. absurd (omega arith))
    | inr some ↦ elim (Eq-cases u (block old)) [
      | inl here ↦
          let n : ℕ = tally 127 (rest u) in
          let le : n ≤ 127 = tally-le 127 (rest u) in
          ap (retired old u) (p.counted u used ∙ rest-here u some here)
          ∙ retired-here u n some here
          ∙ omega arith
      | inr other ↦
          retired-other u (s.vcount bank u) some other
          ∙ p.counted u used
          ∙ rest-same u (λ j h e. other (omega arith))
    ]
  ]

  t-cur : block (t.misc bank).cur_write_vpn ≡ block new
  t-cur = ap block (m.cur ∙ o.cur)

  t-map-lpn : t.page_map lpn ≡ new
  t-map-lpn = m.map lpn ∙ rw (==-refl lpn) refl

  t-map-other : (l : ℕ) → l ≢ lpn → t.page_map l ≡ s.page_map l
  t-map-other l ne = m.map l ∙ rw (==-ne l lpn ne) refl

  -- The lists name the new page, and the others as before.
  owner-new : owner bank t (block new) (page_num new) ≡ lpn
  owner-new =
      rw (t-cur, ==-refl (block new)) (m.list (page_num new) ∙ rw (==-refl (page_num new)) refl)

  owner-other :
      (u j : ℕ) → j < 127 → u * pages_per_blk + j ≢ new → owner bank t u j ≡ owner bank s u j
  owner-other u j h ne = elim (Eq-cases u (block new)) [
    | inl here ↦
        let apart : j ≢ page_num new = λ e. ne (omega arith) in
        rw (t-cur, ap block (o.cur), here, ==-refl (block new))
          (m.list j ∙ rw (==-ne j (page_num new) apart) refl)
    | inr other ↦ rw (t-cur, ap block (o.cur), ==-ne u (block new) other) (m.lists bank u j)
  ]

  -- Every page but the new one is valid if it was and is not the old one.
  holds-other :
      (u j : ℕ)
      → 0 < u
      → j < 127
      → u * pages_per_blk + j ≢ new
      → rest u j ≡ holds bank (owner bank t) t u j
  holds-other u j pos h ne =
      let l : ℕ = owner bank s u j in
      let at : ℕ = u * pages_per_blk + j in
      rw (owner-other u j h ne) (elim (Eq-cases l lpn) [
        | inl same ↦
            let now : t.page_map l ≢ at = λ e. ne (sym e ∙ ap (t.page_map) same ∙ t-map-lpn) in
            rw (==-ne (t.page_map l) at now)
              (dropped at (s.page_map l) (get_num_bank l) (ap (s.page_map) same))
        | inr other ↦ rw (t-map-other l other) (
            kept_if at (s.page_map l) (get_num_bank l)
              (λ hb e eo. other (old-owner u j hb e eo pos)))
      ])

  new-rest : rest (block new) (page_num new) ≡ false
  new-rest =
      let l : ℕ = owner bank s (block new) (page_num new) in
      let at : ℕ = block new * pages_per_blk + page_num new in
      elim (Eq-cases (get_num_bank l) bank) [
        | inl own ↦
            let free : s.page_map l ≢ at =
              λ e. let b = before l own (omega arith) in absurd (omega arith) in
            rw (own, ==-ne (s.page_map l) at free) (ground arith)
        | inr other ↦ rw (==-ne (get_num_bank l) bank other) refl
      ]

  new-holds : holds bank (owner bank t) t (block new) (page_num new) ≡ true
  new-holds =
      let at : new ≡ block new * pages_per_blk + page_num new = omega arith in
      rw (owner-new, ==-refl bank, t-map-lpn) (ground arith)

  new-counted :
      (u : ℕ)
      → s.vcount bank u ≢ vc_max
      → t.vcount bank u ≡ tally 127 (holds bank (owner bank t) t u)
  new-counted u used =
      let pos = pos-used u used in
      m.count u ∙ ap (gained new u) (retired-count u used) ∙ (elim (Eq-cases u (block new)) [
        | inl here ↦
            let one =
              tally-flip 127 {p = rest u} {q = holds bank (owner bank t) t u} (page_num new) new-low
                (ap (λ w. rest w (page_num new)) here ∙ new-rest)
                (ap (λ w. holds bank (owner bank t) t w (page_num new)) here ∙ new-holds)
                (λ j h ne. holds-other u j pos h (λ e. ne (omega arith))) in
            gained-here u (tally 127 (rest u)) here (tally-le 127 (rest u)) ∙ sym one
        | inr other ↦
            gained-other u (tally 127 (rest u)) other
            ∙ tally-same 127 {p = rest u} {q = holds bank (owner bank t) t u}
                (λ j h. holds-other u j pos h (λ e. other (omega arith)))
      ])

  -- The blocks in use are the same.
  used-after : (u : ℕ) → s.vcount bank u ≢ vc_max → t.vcount bank u ≢ vc_max
  used-after u used e =
      absurd (omega (arith, new-counted u used, tally-le 127 (holds bank (owner bank t) t u)))

  unused-after : (u : ℕ) → s.vcount bank u ≡ vc_max → t.vcount bank u ≡ vc_max
  unused-after u e =
      let ne : u ≢ block new = λ here.
        i.cur-used
          (ap (λ c. s.vcount bank (block c)) (o.cur) ∙ ap (s.vcount bank) (sym here) ∙ e) in
      m.count u ∙ gained-other u (retired old u (s.vcount bank u)) ne ∙ (elim (Eq-cases old 0) [
        | inl none ↦ retired-none u (s.vcount bank u) none ∙ e
        | inr some ↦
            let ne' : u ≢ block old =
              λ here. p.used lpn refl (omega arith) (ap (s.vcount bank) (sym here) ∙ e) in
            retired-other u (s.vcount bank u) some ne' ∙ e
      ])

  used-before : (u : ℕ) → t.vcount bank u ≢ vc_max → s.vcount bank u ≢ vc_max
  used-before u used e = used (unused-after u e)

  unused-before : (u : ℕ) → t.vcount bank u ≡ vc_max → s.vcount bank u ≡ vc_max
  unused-before u e = elim (Eq-cases (s.vcount bank u) vc_max) [
    | inl same ↦ same
    | inr used ↦ absurd (used-after u used e)
  ]

  -- A page of the bank is the new one, or where it was, and not there.
  data At (l : ℕ) : Type 0 where
    new_one : l ≡ lpn → t.page_map l ≡ new → At l
    old_one : l ≢ lpn → t.page_map l ≡ s.page_map l → s.page_map l ≢ new → At l

  at : (l : ℕ) → In bank l → At l
  at l h = elim (Eq-cases l lpn) [
    | inl same ↦ At.new_one same (ap (t.page_map) same ∙ t-map-lpn)
    | inr other ↦
        At.old_one other (t-map-other l other)
          (λ e. let b = before l h (ap block e) in absurd (omega arith))
  ]

  new-used-block : s.vcount bank (block new) ≢ vc_max
  new-used-block = rw (sym (ap block (o.cur))) (i.cur-used)

  t-one : (l k : ℕ) → In bank l → In bank k → 0 < t.page_map l → t.page_map l ≡ t.page_map k → l ≡ k
  t-one l k hl hk pos e = elim (at l hl) [
    | new_one sl nl ↦ elim (at k hk) [
      | new_one sk nk ↦ sl ∙ sym sk
      | old_one sk nk away ↦ absurd (away (sym nk ∙ sym e ∙ nl))
    ]
    | old_one sl nl away ↦ elim (at k hk) [
      | new_one sk nk ↦ absurd (away (sym nl ∙ e ∙ nk))
      | old_one sk nk away' ↦ p.one l k hl hk (omega arith) (sym nl ∙ e ∙ nk)
    ]
  ]

  t-low : (l : ℕ) → In bank l → 0 < t.page_map l → page_num (t.page_map l) < 127
  t-low l h pos = elim (at l h) [
    | new_one same now ↦ rw now new-low
    | old_one other now away ↦ rw now (p.low l h (omega arith))
  ]

  t-used : (l : ℕ) → In bank l → 0 < t.page_map l → t.vcount bank (block (t.page_map l)) ≢ vc_max
  t-used l h pos = elim (at l h) [
    | new_one same now ↦ rw now (used-after (block new) new-used-block)
    | old_one other now away ↦ rw now (used-after (block (s.page_map l)) (p.used l h (omega arith)))
  ]

  t-named :
      (l : ℕ)
      → In bank l
      → 0 < t.page_map l
      → owner bank t (block (t.page_map l)) (page_num (t.page_map l)) ≡ l
  t-named l h pos = elim (at l h) [
    | new_one same now ↦ ap (λ v. owner bank t (block v) (page_num v)) now ∙ owner-new ∙ sym same
    | old_one other now away ↦
        let v : ℕ = s.page_map l in
        let pos' : 0 < v = omega arith in
        ap (λ v. owner bank t (block v) (page_num v)) now
        ∙ owner-other (block v) (page_num v) (p.low l h pos') (λ e. away (omega arith))
        ∙ p.named l h pos'
  ]

  t-Pages : Pages bank (owner bank t) t
  t-Pages = record {
    one = t-one;
    low = t-low;
    used = t-used;
    named = t-named;
    counted = λ u used. new-counted u (used-before u used);
    meta_block = unused-after 0 (p.meta_block);
    spare = rw (m.gc) (unused-after (s.misc bank).gc_vblock (p.spare));
    gc-pos = rw (m.gc) (p.gc-pos);
    gc-lt = rw (m.gc) (p.gc-lt);
  }

  t-behind :
      (l : ℕ)
      → In bank l
      → block (t.page_map l) ≡ block new
      → page_num (t.page_map l) < page_num new + 1
  t-behind l h b = elim (at l h) [
    | new_one same now ↦ rw now (omega arith)
    | old_one other now away ↦
        let below = before l h (sym (ap block now) ∙ b) in omega (arith, ap page_num now)
  ]

  t-own_list : (j : ℕ) → j < page_num new + 1 → Mine bank ((t.misc bank).lpn_list_of_cur_vblock j)
  t-own_list j h = elim (Eq-cases j (page_num new)) [
    | inl here ↦ inl (ap get_num_bank (m.list j ∙ rw (here, ==-refl (page_num new)) refl))
    | inr other ↦ rw (m.list j, ==-ne j (page_num new) other) (i.own_list j (omega arith))
  ]

  t-Phase : Phase bank t
  t-Phase = elim (i.phase) [
    | inl two ↦ inl (m.free ∙ two)
    | inr filling ↦
        let cur : ℕ = block (s.misc bank).cur_write_vpn in
        let same =
          in_use-same (vblks_per_bank - 1 - cur) (s.vcount bank) (t.vcount bank) cur unused-after
            unused-before in
        inr (
          rw (ap block (m.cur)) (
            m.free ∙ filling.0 ∙ ap (λ n. 2 + n) same,
            λ l h. elim (at l h) [
              | new_one here now ↦ omega (arith, ap block now, ap block (o.cur))
              | old_one other now away ↦ rw now (filling.1 l h)
            ],
          ))
  ]

  -- The write of a page to the current one keeps the metadata of the bank in step.
  pub programmed-Valid : Valid bank t
  programmed-Valid = record {
    pages = t-Pages;
    cur-lt = rw (m.cur) (i.cur-lt);
    cur-used = rw (m.cur) (used-after (block (s.misc bank).cur_write_vpn) (i.cur-used));
    cur-low = rw (m.cur) (i.cur-low);
    behind = rw (m.cur, o.cur) t-behind;
    own_list = rw (m.cur, o.cur) t-own_list;
    own_lists = λ v j lt used old' h.
        rw (m.lists bank v j)
          (i.own_lists v j lt (used-before v used) (rw (m.cur, m.free) at old') h);
    phase = t-Phase;
  }
