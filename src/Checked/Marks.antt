-- ===== src/Checked/Marks.antt =====
-- The marks of checked_alloc.c: what `get_data` counts through, and what the checks detect.
use comp304_assignments.Prelude.{
  ℕ, zero, suc, ◌+◌, ◌≤◌, ◌<◌, ◌≡◌, ◌≢◌, refl, inl, inr, sym, ap, ◌∙◌, arith, ◌==◌, eq→==,
  ne→not_==, ==→eq, Bool-cases,
}
use comp304_assignments.Machine.{ok, exit, ◌>>◌}
use comp304_assignments.Machine.Memory.{memset, memset_inside}
use comp304_assignments.System.{System}
use comp304_assignments.System.Access.{fill, load_byte}
use comp304_assignments.System.Heap.{is_mapped_below, fill-ok}
use comp304_assignments.Checked.Data.{next_data, check_bytes}
use comp304_assignments.Checked.Realloc.{long_of_char, check_retained}

-- The mark that `get_data` moves to is neither 0 (fresh memory) nor 255 (freed memory), and differs
-- from the one before.
pub next_data_range :
    (n : ℕ) → n < 256 → (0 < next_data n) × (next_data n < 255) × (next_data n ≢ n)
unfolding next_data
next_data_range n h = ground arith

long_of_char-large : (b tag : ℕ) → 128 ≤ tag → tag < 256 → b < 256 → long_of_char b ≢ tag
unfolding long_of_char
long_of_char-large b tag hi small byte = ground arith

module _ (s : System) where
  load_byte-ok : (p : ℕ) → s.brk.heap ≤ p → p + 1 ≤ s.brk.cur_brk → load_byte p s ≡ ok (s.mem p) s
  unfolding load_byte
  load_byte-ok p lo hi = rw (is_mapped_below s.brk p 1 lo hi)

  pub check_bytes-ok :
      (n p c : ℕ)
      → s.brk.heap ≤ p
      → p + n ≤ s.brk.cur_brk
      → ((x : ℕ) → p ≤ x → x < p + n → s.mem x ≡ c)
      → check_bytes n p c s ≡ ok tt s
  unfolding check_bytes
  check_bytes-ok zero p c lo hi h = refl
  check_bytes-ok (suc n) p c lo hi h =
      rw (load_byte-ok p lo (omega arith), eq→== (s.mem p) c (h p (omega arith) (omega arith)))
        (check_bytes-ok n (p + 1) c (omega arith) (omega arith)
          λ x from to. h x (omega arith) (omega arith))

  -- A byte of the checked area of the heap that differs from the mark makes `region_check_data` end
  -- the program.
  pub check_bytes-exit :
      (n p c x : ℕ)
      → s.brk.heap ≤ p
      → p + n ≤ s.brk.cur_brk
      → p ≤ x
      → x < p + n
      → s.mem x ≢ c
      → check_bytes n p c s ≡ exit
  unfolding check_bytes
  check_bytes-exit zero p c x lo hi from to ne = absurd (omega arith)
  check_bytes-exit (suc n) p c x lo hi from to ne =
      rw (load_byte-ok p lo (omega arith)) (elim (Bool-cases (s.mem p == c)) [
        | inl e ↦ rw e (
            check_bytes-exit n (p + 1) c x (omega arith) (omega arith) (later (==→eq _ c e))
              (omega arith) ne)
        | inr e ↦ rw e
      ])
    where
      later : s.mem p ≡ c → p + 1 ≤ x
      later e = elim (Bool-cases (p == x)) [
        | inl same ↦ absurd (ne (sym (ap s.mem (==→eq p x same)) ∙ e))
        | inr other ↦ ground arith
      ]

  -- `checked_realloc` compares a signed `char` with the mark: with a mark of 128 to 255 the
  -- comparison of a positive number of bytes of the heap ends the program, whatever the first byte
  -- is.
  pub check_retained_refuses :
      (n p tag : ℕ)
      → 0 < n
      → 128 ≤ tag
      → tag < 256
      → s.brk.heap ≤ p
      → p + n ≤ s.brk.cur_brk
      → s.mem p < 256
      → check_retained n p tag s ≡ exit
  unfolding check_retained
  check_retained_refuses zero p tag pos hi small lo top byte = absurd (omega arith)
  check_retained_refuses (suc n) p tag pos hi small lo top byte = rw (
    load_byte-ok p lo (omega arith),
    ne→not_== (long_of_char (s.mem p)) tag (long_of_char-large (s.mem p) tag hi small byte),
  )

-- After `memset` of an area of the heap with a byte, the check of that byte passes and changes
-- nothing.
pub check_bytes-fill :
    (s : System) (n p c : ℕ)
    → 0 < n
    → c < 256
    → s.brk.heap ≤ p
    → p + n ≤ s.brk.cur_brk
    → (fill p c n >> check_bytes n p c) s ≡ ok tt (record s { mem = memset s.mem p c n })
check_bytes-fill s n p c pos small lo hi =
    rw (fill-ok s n pos p c (is_mapped_below s.brk p n lo hi)) (
      check_bytes-ok (record s { mem = memset s.mem p c n }) n p c lo hi
        λ x from to. memset_inside s.mem p c n x from to ∙ omega arith)
