-- ===== src/Alloc/Extend.antt =====
-- The branch of `kumalloc` that takes a block behind the last one.
use comp304_assignments.Prelude.{
  ℕ, ◌+◌, ◌-◌, ◌≤◌, ◌<◌, ◌≡◌, refl, ◌⊎◌, inl, inr, arith, leb, ◌==◌, ne→not_==, ==→eq, leb→le,
  Bool-cases,
}
use comp304_assignments.Prelude.Words.{add64, sub64, add64_exact, sub64_exact}
use comp304_assignments.Machine.{Returns, returns, pure, ◌>>◌}
use comp304_assignments.Machine.Memory.{load64, load64-store64, store64_outside}
use comp304_assignments.Memlist.{Os}
use comp304_assignments.System.{System, Brk}
use comp304_assignments.System.Heap.{is_mapped_below, store-ok}
use comp304_assignments.Intercept.Break.{IsOpen, raised, raised-IsOpen, sbrk-raised}
use comp304_assignments.Alloc.Align.{frame_capacity_bounds}
use comp304_assignments.Alloc.Fields.{set_size}
use comp304_assignments.Alloc.Malloc.{frame_capacity, extend}
use comp304_assignments.Alloc.Inv.{IsFrame}

-- A block of `total` bytes at `b` was cut off behind the last one.
pub record Extended (s : System) (total b : ℕ) (t : System) : Type 0 where
  pub at : b ≡ s.alloc.block_end
  pub frame : IsFrame t
  pub end : t.alloc.block_end ≡ b + total
  pub size : load64 t.mem b ≡ total
  pub others : (x : ℕ) → (x < b) ⊎ (b + 8 ≤ x) → t.mem x ≡ s.mem x
  pub head : t.alloc.head ≡ s.alloc.head
  pub heap : t.brk.heap ≡ s.brk.heap
  pub grown : s.brk.cur_brk ≤ t.brk.cur_brk
  pub store : t.store ≡ s.store
  pub framework : t.framework ≡ s.framework

module _ (s : System) (v : IsFrame s) (total : ℕ) (large : 16 ≤ total) where
  -- The state before the header is written.
  abbrev cut : Brk → ℕ → System
  cut b available = record s {
    alloc = record s.alloc { available_memory = available; block_end = s.alloc.block_end + total };
    brk = b;
  }

  write_header :
      (p available : ℕ) (b : Brk)
      → p ≡ s.alloc.block_end
      → IsOpen b
      → b.heap ≡ s.brk.heap
      → s.brk.cur_brk ≤ b.cur_brk
      → s.alloc.block_end + total + available ≡ b.cur_brk
      → Returns (λ q t. Extended s total q t) ((set_size p total >> pure p) (cut b available))
  write_header p available b at o same grown counted =
      rw
        (store-ok (cut b available) p total
          (is_mapped_below b p 8 (omega (arith, v.inside)) (omega arith)))
        (returns (record {
          at = at;
          frame = record {
            break = o;
            started = omega (arith, v.started);
            inside = omega (arith, v.inside);
            counted = counted;
          };
          end = omega arith;
          size = load64-store64 s.mem p total (omega (arith, o.below, o.small));
          others = λ x h. store64_outside s.mem p total x h;
          head = refl;
          heap = same;
          grown = grown;
          store = refl;
          framework = refl;
        }))

  -- `kumalloc` takes a block where the last one ends, whichever of its three branches runs: it
  -- raises the break only where the frame has too little left, keeps the count of what is left
  -- right, and writes nothing but the header.
  pub extend-Extended :
      (os : Os) (k : ℕ)
      → s.brk.cur_brk + total + 8192 ≤ s.brk.heap + s.brk.max_brk_size
      → Returns (λ b t. Extended s total b t) (extend os k total s)
  unfolding extend
  extend-Extended os k room =
      let av = s.alloc.available_memory in
      let be = s.alloc.block_end in
      let cap = frame_capacity total in
      let (fits, pos, most, _) = frame_capacity_bounds total (omega (arith, v.break.small)) in
      let end_exact : add64 be total ≡ be + total =
        add64_exact be total (omega (arith, v.counted, v.break.small)) in
      let rest : sub64 cap total ≡ cap - total =
        sub64_exact cap total fits (omega (arith, v.break.small)) in
      let more : add64 av (cap - total) ≡ av + (cap - total) =
        add64_exact av (cap - total) (omega (arith, v.counted, v.break.small)) in
      let grow = sbrk-raised os k s cap v.break pos (omega arith) in
      let grown : IsOpen (raised s cap).brk = raised-IsOpen s cap v.break (omega arith) in
      let header = λ (p : ℕ) (at : p ≡ be).
        write_header p (av + (cap - total)) (raised s cap).brk at grown refl (omega arith)
          (omega (arith, v.counted)) in
      elim (Bool-cases (av == 0)) [
        | inl none_left ↦
            rw (none_left, grow, ne→not_== be 0 v.started, end_exact, rest, more)
              (header s.brk.cur_brk (omega (arith, v.counted, ==→eq av 0 none_left)))
        | inr some_left ↦ elim (Bool-cases (leb total av)) [
          | inl enough ↦
              rw
                (
                  some_left,
                  enough,
                  end_exact,
                  sub64_exact av total (leb→le total av enough)
                      (omega (arith, v.counted, v.break.below, v.break.small)),
                )
                (write_header be (av - total) s.brk refl v.break refl (omega arith)
                  (omega (arith, v.counted, leb→le total av enough)))
          | inr short ↦ rw (some_left, short, grow, end_exact, rest, more) (header be refl)
        ]
      ]
