-- ===== src/Memlist/Sizes.antt =====
-- `memlist_length` and `memlist_byte_size` against sums over the cells.
use comp304_assignments.Prelude.{
  ℕ, zero, suc, ◌+◌, ◌-◌, ◌^◌, ◌≤◌, ◌<◌, ◌≡◌, ap, ◌∙◌, List, [], ◌∷◌, arith, length, ne→not_==,
}
use comp304_assignments.Prelude.Words.{add64_exact, sub64_exact}
use comp304_assignments.Machine.{ok}
use comp304_assignments.Memlist.Objects.{RegionList, Store}
use comp304_assignments.Memlist.Steps.{read-ok}
use comp304_assignments.Memlist.Chain.{Cell, first, Seg, Distinct, IsList}
use comp304_assignments.Memlist.{length_loop, memlist_length, byte_size_loop, memlist_byte_size}

unfoldable pub total_size : List Cell → ℕ
total_size [] = 0
total_size (c ∷ cs) = (c.end - c.start) + total_size cs

abbrev pub Below : ℕ → List Cell → Type 0
Below m [] = Unit
Below m (c ∷ cs) = (c.start ≤ c.end) × (c.end < m) × Below m cs

module _ (s : Store) where
  length_loop-length :
      (k q n : ℕ) (cs : List Cell)
      → Seg s.objects q 0 cs
      → Distinct cs
      → length cs < k
      → n + length cs < 2 ^ 64
      → length_loop k (first 0 cs) n s ≡ ok (n + length cs) s
  unfolding length_loop
  length_loop-length zero q n cs g d h b = absurd (omega arith)
  length_loop-length (suc k) q n [] g d h b = ap (λ m. ok m s) (omega arith)
  length_loop-length (suc k) q n (c ∷ cs) g d h b =
      rw (ne→not_== c.ptr 0 d.0, read-ok s c.ptr _ g.0, add64_exact n 1 (omega arith))
        (length_loop-length k c.ptr (n + 1) cs g.1 d.2 (omega arith) (omega arith)
          ∙ ap (λ m. ok m s) (omega arith))

  byte_size_loop-total :
      (k q n : ℕ) (cs : List Cell)
      → Seg s.objects q 0 cs
      → Distinct cs
      → Below (2 ^ 64) cs
      → length cs < k
      → n + total_size cs < 2 ^ 64
      → byte_size_loop k (first 0 cs) n s ≡ ok (n + total_size cs) s
  unfolding byte_size_loop total_size
  byte_size_loop-total zero q n cs g d w h b = absurd (omega arith)
  byte_size_loop-total (suc k) q n [] g d w h b = ap (λ m. ok m s) (omega arith)
  byte_size_loop-total (suc k) q n (c ∷ cs) g d w h b =
      rw
        (
          ne→not_== c.ptr 0 d.0,
          read-ok s c.ptr _ g.0,
          sub64_exact c.end c.start w.0 w.1,
          add64_exact n (c.end - c.start) (omega arith),
        )
        (byte_size_loop-total k c.ptr (n + (c.end - c.start)) cs g.1 d.2 w.2 (omega arith)
            (omega arith)
          ∙ ap (λ m. ok m s) (omega arith))

  -- `memlist_length` counts the elements, and `memlist_byte_size` sums up their sizes, where the
  -- ends, the count and the sum fit a `size_t` and there are more rounds than elements.
  pub sizes_lem :
      (k : ℕ) (l : RegionList) (cs : List Cell)
      → IsList s.objects l cs
      → Below (2 ^ 64) cs
      → length cs < k
      → length cs < 2 ^ 64
      → total_size cs < 2 ^ 64
      → (memlist_length k l s ≡ ok (length cs) s) × (memlist_byte_size k l s ≡ ok (total_size cs) s)
  unfolding memlist_length memlist_byte_size
  sizes_lem k l cs is w h b b' = (
    rw is.head (
        length_loop-length k 0 0 cs is.chain is.distinct h (omega arith)
        ∙ ap (λ m. ok m s) (omega arith)),
    rw is.head (
        byte_size_loop-total k 0 0 cs is.chain is.distinct w h (omega arith)
        ∙ ap (λ m. ok m s) (omega arith)),
  )
